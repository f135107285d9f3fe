-- ===== src/Policy/Snippets/Laws.antt =====
-- Which definition of a name a policy with snippets has.
use wpoven_nobot.Base.{
  text_equality, if◌then◌else◌, Text, ◌==◌, lookup, ◌≡◌, Option, none, some, List, [], ◌∷◌,
  text_eq_iff, lookup-insert, refl, ap, ◌∙◌, Bool, true, false, arith, map,
}
use wpoven_nobot.Policy.Snippets.{
  add_missing, Policy, add_entry, add_snippet, snippet_files, add_snippets, new_policy,
}

module _ {ℓ} {V : Type ℓ} where
  abbrev pub first_of : Option V → Option V → Option V
  first_of none o = o
  first_of (some v) o = some v

  first_of-none : (a : Option V) → a ≡ first_of a none
  first_of-none none = refl
  first_of-none (some a) = refl

  first_of_assoc : (a b c : Option V) → first_of (first_of a b) c ≡ first_of a (first_of b c)
  first_of_assoc none b c = refl
  first_of_assoc (some a) b c = refl

  add_entry_lem :
      (key name : Text) (value : V) (m : List (Text × V)) (o : Option V)
      → lookup key m ≡ o
      → lookup name (add_entry key value o m)
        ≡ first_of (lookup name m) (if key == name then some value else none)
  add_entry_lem key name value m none e =
      ground (arith, lookup-insert key name value m, text_eq_iff key name)
  add_entry_lem key name value m (some old) e = ground (arith, text_eq_iff key name)

  first_of_entry :
      (b : Bool) (value : V) (o : Option V)
      → first_of (if b then some value else none) o ≡ (if b then some value else o)
  first_of_entry true value o = refl
  first_of_entry false value o = refl

  lookup-add_missing :
      (name : Text) (entries m : List (Text × V))
      → lookup name (add_missing entries m) ≡ first_of (lookup name m) (lookup name entries)
  unfolding add_missing
  lookup-add_missing name [] m = ground arith
  lookup-add_missing name ((key, value) ∷ entries) m =
      lookup-add_missing name entries (add_entry key value (lookup key m) m)
      ∙ ap (λ o. first_of o (lookup name entries))
          (add_entry_lem key name value m (lookup key m) refl)
      ∙ first_of_assoc (lookup name m) (if key == name then some value else none)
          (lookup name entries)
      ∙ ap (first_of (lookup name m)) (first_of_entry (key == name) value (lookup name entries))

-- A name as the first of these maps has it.
abbrev pub first_in {ℓ} : {V : Type ℓ} → Text → List (List (Text × V)) → Option V
first_in name [] = none
first_in name (m ∷ ms) = first_of (lookup name m) (first_in name ms)

module _ {N C H R : Type 0} where
  abbrev pub apply_snippets : List (Policy N C H R) → Policy N C H R → Policy N C H R
  apply_snippets [] p = p
  apply_snippets (s ∷ ps) p = apply_snippets ps (add_snippet s p)

  -- What the files decode to.
  abbrev pub Reads : (Text → Option (Policy N C H R)) → List Text → List (Policy N C H R) → Type 0
  Reads read [] [] = Unit
  Reads read (entry ∷ entries) (p ∷ ps) = (read entry ≡ some p) × Reads read entries ps
  Reads read _ _ = ⊥

  add_snippets_lem :
      (read : Text → Option (Policy N C H R)) (entries : List Text) (ps : List (Policy N C H R))
      (p : Policy N C H R)
      → Reads read entries ps
      → add_snippets read entries p ≡ some (apply_snippets ps p)
  unfolding add_snippets
  add_snippets_lem read [] [] p h = refl
  add_snippets_lem read [] (s ∷ ps) p h = absurd h
  add_snippets_lem read (entry ∷ entries) [] p h = absurd h
  add_snippets_lem read (entry ∷ entries) (s ∷ ps) p (e, h) =
      rw (add_snippets, e) (add_snippets_lem read entries ps (add_snippet s p) h)

  -- A map of the policy, to which every snippet adds what is missing of its own.
  lookup-apply_snippets :
      {V : Type 0} (field : Policy N C H R → List (Text × V))
      → ((s p : Policy N C H R) → field (add_snippet s p) ≡ add_missing (field s) (field p))
      → (name : Text) (ps : List (Policy N C H R)) (p : Policy N C H R)
      → lookup name (field (apply_snippets ps p))
        ≡ first_of (lookup name (field p)) (first_in name (map field ps))
  lookup-apply_snippets field adds name [] p = first_of-none (lookup name (field p))
  lookup-apply_snippets field adds name (s ∷ ps) p =
      lookup-apply_snippets field adds name ps (add_snippet s p)
      ∙ ap (λ m. first_of (lookup name m) (first_in name (map field ps))) (adds s p)
      ∙ ap (λ o. first_of o (first_in name (map field ps)))
          (lookup-add_missing name (field s) (field p))
      ∙ first_of_assoc (lookup name (field p)) (lookup name (field s))
          (first_in name (map field ps))

  apply_snippets-rules :
      (ps : List (Policy N C H R)) (p : Policy N C H R) → (apply_snippets ps p).rules ≡ p.rules
  unfolding add_snippet
  apply_snippets-rules [] p = refl
  apply_snippets-rules (s ∷ ps) p = apply_snippets-rules ps (add_snippet s p)

  -- With directories of snippets, where each file can be read and decoded, NewPolicy gives a policy
  -- with the rules of the policy alone, in which a network, a condition or a challenge of a name is the
  -- policy's, or where it has none the first one that a snippet has, in the order of the files.
  pub new_policy_lem :
      (list : Text → Option (List Text)) (read : Text → Option (Policy N C H R))
      (decode : List Text → Option (Policy N C H R)) (dir : Text) (dirs entries : List Text)
      (p : Policy N C H R) (ps : List (Policy N C H R))
      → snippet_files list (dir ∷ dirs) ≡ some entries
      → decode entries ≡ some p
      → Reads read entries ps
      → (q : Policy N C H R) × (new_policy list read decode (dir ∷ dirs) ≡ some q)
        × (q.rules ≡ p.rules)
        × ((name : Text) → lookup name q.networks ≡ first_in name (map (λ s. s.networks) (p ∷ ps)))
        × ((name : Text)
            → lookup name q.conditions ≡ first_in name (map (λ s. s.conditions) (p ∷ ps)))
        × ((name : Text)
            → lookup name q.challenges ≡ first_in name (map (λ s. s.challenges) (p ∷ ps)))
  unfolding new_policy add_snippet
  new_policy_lem list read decode dir dirs entries p ps files decoded reads = (
    apply_snippets ps p,
    rw (new_policy, files, decoded) (add_snippets_lem read entries ps p reads),
    apply_snippets-rules ps p,
    λ name. lookup-apply_snippets (λ s. s.networks) (λ s q. refl) name ps p,
    λ name. lookup-apply_snippets (λ s. s.conditions) (λ s q. refl) name ps p,
    λ name. lookup-apply_snippets (λ s. s.challenges) (λ s q. refl) name ps p,
  )
