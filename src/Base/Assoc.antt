-- ===== src/Base/Assoc.antt =====
-- Association lists for Go's maps: at most one entry for a key is ever read.
use mathlib.Core.Path.{◌≡◌, refl}
use mathlib.Core.Option.{Option, none, some}
use mathlib.Core.List.{List, [], ◌∷◌}
use native.Mathlib.Omega.{arith}
use wpoven_nobot.Base.Tests.{if◌then◌else◌}
use wpoven_nobot.Base.Keys.{HasTest, ◌==◌, ==_refl}

module _ {ℓ κ} {K : Type ℓ} {V : Type κ} ⦃e : HasTest K⦄ where
  -- `delete(m, key)`
  abbrev pub delete : K → List (K × V) → List (K × V)
  delete key [] = []
  delete key (entry ∷ m) = let rest = delete key m in if entry.0 == key then rest else entry ∷ rest

  abbrev pub lookup : K → List (K × V) → Option V
  lookup key [] = none
  lookup key (entry ∷ m) = if entry.0 == key then some entry.1 else lookup key m

  -- `m[key] = value`
  abbrev pub insert : K → V → List (K × V) → List (K × V)
  insert key value [] = (key, value) ∷ []
  insert key value (entry ∷ m) =
      if entry.0 == key then (key, value) ∷ m else entry ∷ insert key value m

  pub lookup-insert :
      (k j : K) (v : V) (m : List (K × V))
      → lookup j (insert k v m) ≡ (if k == j then some v else lookup j m)
  lookup-insert k j v [] = refl
  lookup-insert k j v ((i, w) ∷ m) =
      ground (arith, e.agrees k j, e.agrees i k, e.agrees i j, lookup-insert k j v m)

  pub lookup-insert_self : (k : K) (v : V) (m : List (K × V)) → lookup k (insert k v m) ≡ some v
  lookup-insert_self k v m = rw (lookup-insert k k v m, ==_refl k)

  pub lookup-delete :
      (k j : K) (m : List (K × V)) → lookup j (delete k m) ≡ (if k == j then none else lookup j m)
  lookup-delete k j [] = ground arith
  lookup-delete k j ((i, w) ∷ m) =
      ground (arith, e.agrees k j, e.agrees i k, e.agrees i j, lookup-delete k j m)
