-- ===== src/Startup/Conditions/Preloading.antt =====
-- Which networks RegisterCondition of lib/conditions.go loads beforehand.
use wpoven_nobot.Base.{
  text_equality, Text, text_eq_iff, ◌==◌, lookup, lookup-insert, lookup-insert_self, ◌≡◌, refl, ◌⊎◌,
  inl, inr, Option, none, some, Bool-cases, ascii, ap, ◌∙◌, true, if◌then◌else◌, Bool, false, not,
  ◌&&◌, insert,
}
use wpoven_nobot.Startup.Conditions.{
  Networks, ask, Expr, string_literal, call_expr, no_exprs, arg, is_member_function, asked, preload,
  bool_output, Ast, register_condition, Tests, network_condition, Exprs, walk_expr, preload_literal,
  preload_in_network, preload_network, unspecified, ident, walk_args,
}
use wpoven_nobot.Startup.Conditions.Walking.{Inside, walk_expr_reaches}

module _ {ℓ} {R : Type ℓ} where
  -- A network of the policy, loaded or not.
  abbrev IsThere : (Text → R) → Text → Networks R → Type ℓ
  IsThere loads name nets =
      (lookup name nets ≡ some none) ⊎ (lookup name nets ≡ some (some (loads name)))

  abbrev pub IsLoaded : (Text → R) → Text → Networks R → Type ℓ
  IsLoaded loads name nets = lookup name nets ≡ some (some (loads name))

  -- A call of a network's name leaves every network, or loads it.
  asked-lookup :
      (loads : Text → R) (name other : Text) (nets : Networks R) (o : Option (Option R))
      → (lookup other (asked loads name nets o).1 ≡ lookup other nets)
        ⊎ IsLoaded loads other (asked loads name nets o).1
  asked-lookup loads name other nets none = inl refl
  asked-lookup loads name other nets (some (some r)) = inl refl
  asked-lookup loads name other nets (some none) =
      let inserted = lookup-insert name other (some (loads name)) nets in
      elim (Bool-cases (name == other)) [
        | inl h ↦
            inr (rw (inserted, h) (ap (λ t. some (some (loads t))) ((text_eq_iff name other).0 h)))
        | inr h ↦ inl (rw (inserted, h) refl)
      ]

  ask_loads :
      (loads : Text → R) (name : Text) (nets : Networks R)
      → IsThere loads name nets
      → IsLoaded loads name (ask loads name nets).1
  unfolding ask
  ask_loads loads name nets (inl e) = rw (e, lookup-insert_self name (some (loads name)) nets) refl
  ask_loads loads name nets (inr e) = rw e e

  ask-IsLoaded :
      (loads : Text → R) (name other : Text) (nets : Networks R)
      → IsLoaded loads other nets
      → IsLoaded loads other (ask loads name nets).1
  unfolding ask
  ask-IsLoaded loads name other nets h =
      elim (asked-lookup loads name other nets (lookup name nets)) [
        | inl same ↦ same ∙ h
        | inr now_loaded ↦ now_loaded
      ]

  ask-IsThere :
      (loads : Text → R) (name other : Text) (nets : Networks R)
      → IsThere loads other nets
      → IsThere loads other (ask loads name nets).1
  unfolding ask
  ask-IsThere loads name other nets (inr h) = inr (ask-IsLoaded loads name other nets h)
  ask-IsThere loads name other nets (inl h) =
      elim (asked-lookup loads name other nets (lookup name nets)) [
        | inl same ↦ inl (same ∙ h)
        | inr now_loaded ↦ inr now_loaded
      ]

  module _ (loads : Text → R) (P : Networks R → Type ℓ)
      (keeps : (name : Text) (nets : Networks R) → P nets → P (ask loads name nets).1) where
    preload_literal_keeps :
        (e : Expr) (nets : Networks R) → P nets → P (preload_literal loads e nets)
    preload_literal_keeps (string_literal name) nets p = keeps name nets p
    preload_literal_keeps _ nets p = p

    preload_network_keeps :
        (es : Exprs) (nets : Networks R) → P nets → P (preload_network loads es nets)
    preload_network_keeps (arg a no_exprs) nets p = preload_literal_keeps a nets p
    preload_network_keeps _ nets p = p

    preload_in_network_keeps :
        (es : Exprs) (nets : Networks R) → P nets → P (preload_in_network loads es nets)
    preload_in_network_keeps (arg a (arg b no_exprs)) nets p = preload_literal_keeps b nets p
    preload_in_network_keeps _ nets p = p

    either_keeps : (b : Bool) (x y : Networks R) → P x → P y → P (if b then x else y)
    either_keeps true x y p q = p
    either_keeps false x y p q = q

    -- What every call of a network's name keeps, the function for the walk keeps.
    preload_keeps : (e : Expr) (nets : Networks R) → P nets → P (preload loads e nets)
    unfolding preload
    preload_keeps (call_expr name target args) nets p =
        either_keeps (name == ascii "inNetwork" && not (is_member_function target)) _ _
          (preload_in_network_keeps args nets p)
          (either_keeps (name == ascii "network" && is_member_function target) _ _
            (preload_network_keeps args nets p) p)
    preload_keeps _ nets p = p

  network_loads :
      (loads : Text → R) (name : Text) (target : Expr) (nets : Networks R)
      → is_member_function target ≡ true
      → IsThere loads name nets
      → IsLoaded loads name (
          preload loads
            (call_expr (ascii "network") target (arg (string_literal name) no_exprs))
            nets)
  unfolding preload
  network_loads loads name target nets m there = rw m (ask_loads loads name nets there)

  -- A network of the policy that a condition asks for with the method `network`, by a literal name,
  -- anywhere in its expression, is loaded when the condition is registered: the test of an address
  -- then asks its ranger and loads nothing.
  pub register_condition_network {κ} :
      {P : Type κ} (loads : Text → R) (program_ast : Ast → Option P) (tests : Tests R) (tree : Ast)
      (name ip : Text) (target : Expr) (nets : Networks R)
      → tree.output ≡ bool_output
      → is_member_function target ≡ true
      → Inside (call_expr (ascii "network") target (arg (string_literal name) no_exprs)) tree.root
      → lookup name nets ≡ some none
      → network_condition loads tests
          (some ip)
          (some name)
          (register_condition loads program_ast (some tree) nets).1
        ≡ (
          tests.contains (loads name) ip,
          (register_condition loads program_ast (some tree) nets).1,
        )
  unfolding register_condition network_condition ask
  register_condition_network loads program_ast tests tree name ip target nets out m inside there =
      let loaded : IsLoaded loads name (walk_expr (preload loads) tree.root nets) =
        walk_expr_reaches (preload loads) (IsLoaded loads name) (IsThere loads name)
          (preload_keeps loads (IsLoaded loads name) (λ other. ask-IsLoaded loads other name))
          (preload_keeps loads (IsThere loads name) (λ other. ask-IsThere loads other name))
          (call_expr (ascii "network") target (arg (string_literal name) no_exprs))
          (λ after. network_loads loads name target after m) inside nets (inl there) in
      rw (out, loaded) refl

  -- The deprecated function `inNetwork` has the name of the network first and the address second. A
  -- condition that asks with it for a network that is not loaded, by a literal name and with the address
  -- in a variable, is registered without loading it: the test of an address loads it.
  register_condition_in_network {κ} :
      {P : Type κ} (loads : Text → R) (program_ast : Ast → Option P) (tests : Tests R)
      (name variable ip : Text) (nets : Networks R)
      → lookup name nets ≡ some none
      → network_condition loads tests
          (some ip)
          (some name)
          (register_condition loads program_ast
            (some (record {
              root =
                  call_expr
                    (ascii "inNetwork")
                    unspecified
                    (arg (string_literal name) (arg (ident variable) no_exprs));
              output = bool_output;
            }))
            nets).1
        ≡ (tests.contains (loads name) ip, insert name (some (loads name)) nets)
  unfolding register_condition network_condition ask walk_expr walk_args preload
  register_condition_in_network loads program_ast tests name variable ip nets there = rw there refl
