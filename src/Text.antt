-- ===== src/Text.antt =====
-- What the program uses of Go's `strings` package, over the bytes of a string.
pub mod Split
use wpoven_nobot.Base.{
  ℕ, zero, suc, ◌+◌, ◌-◌, ◌/◌, ◌%◌, ltb, Bool, true, false, ◌&&◌, ◌||◌, List, [], ◌∷◌, ◌++◌, Text,
  leb, eqb, if◌then◌else◌, map,
}

-- `strings.HasPrefix(s, p)`, its arguments in Go's order
abbrev pub has_prefix : Text → Text → Bool
has_prefix s [] = true
has_prefix [] (y ∷ p) = false
has_prefix (x ∷ s) (y ∷ p) = eqb x y && has_prefix s p

-- `strings.Contains(s, string(c))` for one byte
abbrev pub contains : ℕ → Text → Bool
contains c [] = false
contains c (x ∷ s) = eqb x c || contains c s

-- `strings.Cut(s, string(c))`: what stands before the first such byte, and what stands after it
abbrev pub before : ℕ → Text → Text
before c [] = []
before c (x ∷ s) = let rest = before c s in if eqb x c then [] else x ∷ rest

abbrev pub after : ℕ → Text → Text
after c [] = []
after c (x ∷ s) = let rest = after c s in if eqb x c then s else rest

-- puts a byte in front of the first part
abbrev pub push : ℕ → List Text → List Text
push x [] = (x ∷ []) ∷ []
push x (p ∷ ps) = (x ∷ p) ∷ ps

-- `strings.Split(s, string(c))`
abbrev pub split : ℕ → Text → List Text
split c [] = [] ∷ []
split c (x ∷ s) = let rest = split c s in if eqb x c then [] ∷ rest else push x rest

-- `strings.Join(parts, string(c))`
abbrev pub join : ℕ → List Text → Text
join c [] = []
join c (p ∷ []) = p
join c (p ∷ q ∷ ps) = p ++ c ∷ join c (q ∷ ps)

-- `strings.ToUpper` on ASCII
abbrev pub upper : ℕ → ℕ
upper c = if leb b'a' c && leb c b'z' then c - 32 else c

abbrev pub to_upper : Text → Text
to_upper s = map upper s

-- `strings.ToLower` on ASCII
abbrev pub lower : ℕ → ℕ
lower c = if leb b'A' c && leb c b'Z' then c + 32 else c

abbrev pub to_lower : Text → Text
to_lower s = map lower s

-- `strings.TrimSpace` on ASCII: spaces, tabs and line ends at both ends
abbrev is_space : ℕ → Bool
is_space c = eqb c 32 || leb 9 c && leb c 13

abbrev trim_left : Text → Text
trim_left [] = []
trim_left (x ∷ s) = let rest = trim_left s in if is_space x then rest else x ∷ s

abbrev all_space : Text → Bool
all_space [] = true
all_space (x ∷ s) = is_space x && all_space s

abbrev trim_right : Text → Text
trim_right [] = []
trim_right (x ∷ s) = let rest = trim_right s in if all_space (x ∷ s) then [] else x ∷ rest

abbrev pub trim_space : Text → Text
trim_space s = trim_right (trim_left s)

-- `strconv.FormatUint(n, 10)`: the least significant digit is put down first, on fuel
abbrev decimal_from : ℕ → ℕ → Text → Text
decimal_from zero n acc = acc
decimal_from (suc f) n acc =
    let more = decimal_from f (n / 10) ((48 + n % 10) ∷ acc) in
    if ltb n 10 then (48 + n % 10) ∷ acc else more

-- a number below 2 ^ 64 has twenty digits at most
unfoldable pub decimal : ℕ → Text
decimal n = decimal_from 20 n []
