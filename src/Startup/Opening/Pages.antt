-- ===== src/Startup/Opening/Pages.antt =====
-- The template of the pages that a server made by NewState has.
use wpoven_nobot.Base.{
  text_equality, Bool-cases, length, length-append, Text, ascii, text_eq_iff, ◌==◌, lookup, insert,
  lookup-insert, ◌<◌, ◌≡◌, refl, ap, inl, inr, false, some, List, arith, Option, none, option_keeps,
  [], ◌∷◌,
}
use wpoven_nobot.Startup.Opening.{
  page_name, Surroundings, init_template, choose_template, add_parsed, with_name, from_file,
}
use mathlib.Core.Path.{subst}

page_name_longer : (name : Text) → length name < length (page_name name)
unfolding page_name
page_name_longer name = omega (arith, length-append name (ascii ".gohtml"))

not_page_name : (name : Text) → (name == page_name name) ≡ false
not_page_name name = elim (Bool-cases (name == page_name name)) [
  | inl e ↦ absurd (
      omega (
        arith,
        page_name_longer name,
        ap (λ (t : Text). length t) ((text_eq_iff name (page_name name)).0 e),
      ))
  | inr e ↦ e
]

module _ {T : Type 0} where
  insert_page :
      (name : Text) (tpl : T) (ts : List (Text × T))
      → lookup (page_name name) (insert name tpl ts) ≡ lookup (page_name name) ts
  insert_page name tpl ts = rw (lookup-insert name (page_name name) tpl ts, not_page_name name) refl

  abbrev SamePage : List (Text × T) → Option (Text × List (Text × T)) → Type 0
  SamePage before none = Unit
  SamePage before (some (name, after)) =
      lookup (page_name name) after ≡ lookup (page_name name) before

  add_parsed_page :
      (name : Text) (before : List (Text × T)) (tpl : Option T)
      → SamePage before (with_name name (add_parsed name before tpl))
  add_parsed_page name before none = tt
  add_parsed_page name before (some tpl) = insert_page name tpl before

  from_file_page :
      (env : Surroundings T) (before : List (Text × T)) (text : Option Text)
      → SamePage before (from_file env before text)
  unfolding init_template
  from_file_page env before none = tt
  from_file_page env before (some []) = tt
  from_file_page env before (some (b ∷ text)) =
      let name = env.base_name env.challenge_template in
      add_parsed_page name before (env.parse_template name (b ∷ text))

  -- A template that NewState loads from a file is put under a name that no page looks up: under the
  -- name that the state keeps, pages find what was there before, whatever NewState did.
  pub choose_template_unused :
      (env : Surroundings T) (before after : List (Text × T)) (name : Text)
      → choose_template env before ≡ some (name, after)
      → lookup (page_name name) after ≡ lookup (page_name name) before
  unfolding choose_template
  choose_template_unused env before after name e = subst (SamePage before) e (
      option_keeps (SamePage before) (lookup (page_name env.challenge_template) before) _ _
        (from_file_page env before (env.read_template env.challenge_template)) (λ tpl. refl))
