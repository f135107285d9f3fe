-- ===== src/Query.antt =====
-- Query strings: ParseRawQuery and EncodeRawQuery of utils/http.go, and what the program uses of
-- `url.Values`. The keys of a map are kept once each; an encoder goes through them in byte order.
pub mod Plain
use wpoven_nobot.Base.{
  text_equality, ltb, eqb, if◌then◌else◌, is_empty, Text, lookup, insert, Bool, true, false, ◌&&◌,
  ◌||◌, List, [], ◌∷◌, ◌++◌,
}
use wpoven_nobot.Mime.{first, all_of}
use wpoven_nobot.Text.{contains, before, after, split, join}

abbrev pub Values : Type 0
Values = List (Text × List Text)

-- `m[key] = append(m[key], value)`
abbrev pub append_value : Text → Text → Values → Values
append_value key value m = insert key (all_of (lookup key m) ++ value ∷ []) m

-- `q.Get(key)`, `q.Set(key, value)`, `q.Has(key)`
abbrev pub get_value : Text → Values → Text
get_value key m = first (lookup key m)

abbrev pub set_value : Text → Text → Values → Values
set_value key value m = insert key (value ∷ []) m

-- one segment of the loop of ParseRawQuery
abbrev add_segment : Text → Values → Values
add_segment seg m =
    if contains b';' seg
    then m
    else if is_empty seg
    then m
    else append_value (before b'=' seg) (after b'=' seg) m

add_segments : List Text → Values → Values
add_segments [] m = m
add_segments (seg ∷ segs) m = add_segments segs (add_segment seg m)

-- The values of ParseRawQuery; cutting at each `&` in turn is splitting at all of them. Its error,
-- which every caller ignores, is dropped.
unfoldable pub parse_raw_query : Text → Values
unfolding add_segments
parse_raw_query raw = add_segments (split b'&' raw) []

-- byte order of texts
abbrev pub text_leb : Text → Text → Bool
text_leb [] t = true
text_leb (x ∷ s) [] = false
text_leb (x ∷ s) (y ∷ t) = ltb x y || eqb x y && text_leb s t

insert_sorted : Text × List Text → Values → Values
insert_sorted e [] = e ∷ []
insert_sorted e (f ∷ m) =
    let rest = insert_sorted e m in if text_leb e.0 f.0 then e ∷ f ∷ m else f ∷ rest

-- `slices.Sorted(maps.Keys(v))`, each key with its values
sorted : Values → Values
sorted [] = []
sorted (e ∷ m) = insert_sorted e (sorted m)

-- `key=value` for each value of each key
pairs_of : Text → List Text → List Text
pairs_of key [] = []
pairs_of key (v ∷ vs) = (key ++ b'=' ∷ v) ∷ pairs_of key vs

pairs : Values → List Text
pairs [] = []
pairs ((key, vs) ∷ m) = pairs_of key vs ++ pairs m

unfoldable pub sorted_pairs : Values → List Text
unfolding pairs pairs_of sorted insert_sorted
sorted_pairs m = pairs (sorted m)

unfoldable pub encode_raw_query : Values → Text
unfolding sorted_pairs
encode_raw_query m = join b'&' (sorted_pairs m)
