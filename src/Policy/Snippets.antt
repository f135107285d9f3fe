-- ===== src/Policy/Snippets.antt =====
-- NewPolicy of lib/policy/policy.go: a policy, and the snippets that add to it. Files are decoded by
-- a library; the maps of a policy are association lists.
pub mod Laws
use wpoven_nobot.Base.{
  text_equality, if◌then◌else◌, is_empty, Text, lookup, insert, Option, none, some, List, [], ◌∷◌,
  ◌++◌,
}
use wpoven_nobot.DecayMap.{read}
use wpoven_nobot.Hex.{decode}

-- Policy, over the types of what it holds
pub record Policy {ℓ} (N C H R : Type ℓ) : Type ℓ where
  pub networks : List (Text × N)
  pub conditions : List (Text × C)
  pub challenges : List (Text × H)
  pub rules : List R

module _ {ℓ} {V : Type ℓ} where
  abbrev pub add_entry : Text → V → Option V → List (Text × V) → List (Text × V)
  add_entry key value (some old) m = m
  add_entry key value none m = insert key value m

  -- the loops that add what is not there
  unfoldable pub add_missing : List (Text × V) → List (Text × V) → List (Text × V)
  add_missing [] m = m
  add_missing ((key, value) ∷ entries) m =
      add_missing entries (add_entry key value (lookup key m) m)

abbrev append_found : Option (List Text) → Option (List Text) → Option (List Text)
append_found (some xs) (some ys) = some (xs ++ ys)
append_found _ _ = none

-- the files of the directories, those without a name passed over; `list` is ReadDir without the
-- directories among its entries
unfoldable pub snippet_files : (Text → Option (List Text)) → List Text → Option (List Text)
snippet_files list [] = some []
snippet_files list (dir ∷ dirs) =
    let rest = snippet_files list dirs in
    if is_empty dir then rest else append_found (list dir) rest

module _ {ℓ} {N C H R : Type ℓ} where
  -- the body of the loop over the snippets
  unfoldable pub add_snippet : Policy N C H R → Policy N C H R → Policy N C H R
  unfolding add_missing
  add_snippet snippet p = record p {
    networks = add_missing snippet.networks p.networks;
    conditions = add_missing snippet.conditions p.conditions;
    challenges = add_missing snippet.challenges p.challenges;
  }

  -- the loop, which ends at a snippet that cannot be read or decoded
  unfoldable pub add_snippets :
      (Text → Option (Policy N C H R)) → List Text → Policy N C H R → Option (Policy N C H R)
  unfolding add_snippet
  add_snippets read [] p = some p
  add_snippets read (entry ∷ entries) p = elim (read entry) [
    | none ↦ none
    | some snippet ↦ add_snippets read entries (add_snippet snippet p)
  ]

  -- NewPolicy; `decode` is the policy itself, decoded with the snippets for its references
  unfoldable pub new_policy :
      (Text → Option (List Text))
      → (Text → Option (Policy N C H R))
      → (List Text → Option (Policy N C H R))
      → List Text
      → Option (Policy N C H R)
  unfolding add_snippets snippet_files
  new_policy list read decode [] = decode []
  new_policy list read decode (dir ∷ dirs) = elim (snippet_files list (dir ∷ dirs)) [
    | none ↦ none
    | some entries ↦ elim (decode entries) [ none ↦ none | some p ↦ add_snippets read entries p ]
  ]
