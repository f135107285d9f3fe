-- ===== src/Text/Split.antt =====
-- Splitting and joining of byte texts.
use wpoven_nobot.Text.{contains, before, after, push, split, join}
use wpoven_nobot.Base.{
  eqb, if◌then◌else◌, Bool-cases, All, Text, ℕ, ◌≡◌, refl, ap, ◌∙◌, ◌⊎◌, inl, inr, true, false,
  List, [], ◌∷◌, ◌++◌, arith,
}

abbrev pub Lacks : ℕ → Text → Type 0
Lacks c s = contains c s ≡ false

-- No part of a split text holds the byte that it was split at.
pub split-Lacks : (c : ℕ) (s : Text) → All (Lacks c) (split c s)
split-Lacks c [] = (refl, tt)
split-Lacks c (x ∷ s) = split_cons c x s (split c s) (split-Lacks c s) (Bool-cases (eqb x c))
  where
    push-Lacks :
        (c x : ℕ) (ps : List Text) → eqb x c ≡ false → All (Lacks c) ps → All (Lacks c) (push x ps)
    push-Lacks c x [] e h = (rw e, tt)
    push-Lacks c x (p ∷ ps) e (hp, h) = (rw e hp, h)

    split_cons :
        (c x : ℕ) (s : Text) (ps : List Text)
        → All (Lacks c) ps
        → (eqb x c ≡ true) ⊎ (eqb x c ≡ false)
        → All (Lacks c) (if eqb x c then [] ∷ ps else push x ps)
    split_cons c x s ps h (inl e) = rw e (refl, h)
    split_cons c x s ps h (inr e) = rw e (push-Lacks c x ps e h)

pub before-Lacks_self : (c : ℕ) (s : Text) → Lacks c (before c s)
before-Lacks_self c [] = refl
before-Lacks_self c (x ∷ s) = ground (arith, before-Lacks_self c s)

pub before-Lacks : (c d : ℕ) (s : Text) → Lacks d s → Lacks d (before c s)
before-Lacks c d [] h = refl
before-Lacks c d (x ∷ s) h = ground (arith, before-Lacks c d s)

pub after-Lacks : (c d : ℕ) (s : Text) → Lacks d s → Lacks d (after c s)
after-Lacks c d [] h = refl
after-Lacks c d (x ∷ s) h = ground (arith, after-Lacks c d s)

pub append-Lacks : (d : ℕ) (s t : Text) → Lacks d s → Lacks d t → Lacks d (s ++ t)
append-Lacks d [] t h k = k
append-Lacks d (x ∷ s) t h k = ground (arith, append-Lacks d s t)

-- What stands before the first byte, where there is none before it.
pub before-append : (c : ℕ) (s t : Text) → Lacks c s → before c (s ++ c ∷ t) ≡ s
before-append c [] t h = ground arith
before-append c (x ∷ s) t h = ground (arith, before-append c s t)

split_last : (c : ℕ) (s : Text) → Lacks c s → split c s ≡ s ∷ []
split_last c [] h = refl
split_last c (x ∷ s) h = ground (arith, split_last c s)

split-append : (c : ℕ) (s t : Text) → Lacks c s → split c (s ++ c ∷ t) ≡ s ∷ split c t
split-append c [] t h = ground arith
split-append c (x ∷ s) t h = ground (arith, split-append c s t)

-- Parts without the byte, at least one of them, come back when the joined text is split.
pub split-join :
    (c : ℕ) (p : Text) (ps : List Text)
    → All (Lacks c) (p ∷ ps)
    → split c (join c (p ∷ ps)) ≡ p ∷ ps
split-join c p [] (h, _) = split_last c p h
split-join c p (q ∷ ps) (h, hs) =
    split-append c p (join c (q ∷ ps)) h ∙ ap (λ r. p ∷ r) (split-join c q ps hs)
