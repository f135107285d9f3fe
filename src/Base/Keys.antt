-- ===== src/Base/Keys.antt =====
-- Byte texts, Boolean equality as an interface, and association lists for Go's maps.
use Prim.Native.Nat.{ℕ}
use Prim.Native.Char.{code}
use Prim.Native.String.{String}
use mathlib.Core.Path.{◌≡◌, refl}
use mathlib.Core.Logic.{◌↔◌}
use mathlib.Core.Bool.{Bool, true, false, ◌&&◌}
use mathlib.Core.List.{List, [], ◌∷◌}
use native.Mathlib.Omega.{arith}
use wpoven_nobot.Base.Tests.{eqb, eqb_iff}

-- A Go string or byte slice: its bytes.
abbrev pub Text : Type 0
Text = List ℕ

-- The bytes of an ASCII literal.
abbrev pub ascii : String → Text
ascii String.[] = []
ascii (String.◌∷◌ c s) = code c ∷ ascii s

abbrev pub text_eq : Text → Text → Bool
text_eq [] [] = true
text_eq [] (y ∷ ys) = false
text_eq (x ∷ xs) [] = false
text_eq (x ∷ xs) (y ∷ ys) = eqb x y && text_eq xs ys

pub text_eq_iff : (s t : Text) → (text_eq s t ≡ true) ↔ (s ≡ t)
text_eq_iff [] [] = ground arith
text_eq_iff [] (y ∷ ys) = ground arith
text_eq_iff (x ∷ xs) [] = ground arith
text_eq_iff (x ∷ xs) (y ∷ ys) = ground (arith, text_eq_iff xs ys)

-- A Boolean test that decides equality, of which a type has one.
pub record HasTest {ℓ} (K : Type ℓ) : Type ℓ where
  pub test : K → K → Bool
  pub agrees : (k j : K) → (test k j ≡ true) ↔ (k ≡ j)

instance abbrev pub text_equality : HasTest Text
text_equality = record { test = text_eq; agrees = text_eq_iff }

instance abbrev pub nat_equality : HasTest ℕ
nat_equality = record { test = eqb; agrees = eqb_iff }

module _ {ℓ} {K : Type ℓ} ⦃e : HasTest K⦄ where
  infix 50 ◌==◌
  abbrev pub ◌==◌ : K → K → Bool
  k == j = e.test k j

  pub ==_refl : (k : K) → (k == k) ≡ true
  ==_refl k = (e.agrees k k).1 refl
