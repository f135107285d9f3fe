-- ===== src/Fingerprint/Laws.antt =====
-- The order of extensions in the fingerprints of utils/fingerprint.go.
use wpoven_nobot.Fingerprint.{
  ClientHello, insert_number, sort_numbers, ja3_text, ja3_version, extension_supported_versions,
}
use wpoven_nobot.Text.{contains}
use wpoven_nobot.Base.{ℕ, ◌≡◌, refl, ap, true, List, [], ◌∷◌, ◌++◌, arith}

insert_number_comm :
    (a b : ℕ) (ns : List ℕ)
    → insert_number a (insert_number b ns) ≡ insert_number b (insert_number a ns)
insert_number_comm a b [] = ground arith
insert_number_comm a b (n ∷ ns) = ground (arith, insert_number_comm a b ns)

sort_numbers_swap :
    (before after : List ℕ) (a b : ℕ)
    → sort_numbers (before ++ a ∷ b ∷ after) ≡ sort_numbers (before ++ b ∷ a ∷ after)
unfolding sort_numbers
sort_numbers_swap [] after a b = insert_number_comm a b (sort_numbers after)
sort_numbers_swap (n ∷ before) after a b = ap (insert_number n) (sort_numbers_swap before after a b)

contains_swap :
    (n : ℕ) (before after : List ℕ) (a b : ℕ)
    → contains n (before ++ a ∷ b ∷ after) ≡ contains n (before ++ b ∷ a ∷ after)
contains_swap n [] after a b = ground arith
contains_swap n (m ∷ before) after a b = ground (arith, contains_swap n before after a b)

-- JA3N does not depend on the order in which a client sends its extensions: two neighbours may
-- change places anywhere in the list.
ja3_text_swap :
    (hello : ClientHello) (before after : List ℕ) (a b : ℕ)
    → ja3_text true (record hello { extensions = before ++ a ∷ b ∷ after })
      ≡ ja3_text true (record hello { extensions = before ++ b ∷ a ∷ after })
unfolding ja3_text ja3_version
ja3_text_swap hello before after a b =
    rw
      (
        sort_numbers_swap before after a b,
        contains_swap extension_supported_versions before after a b,
      )
      refl
