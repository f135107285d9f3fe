-- ===== src/Challenge/Query/Clean.antt =====
-- Taking the program's own query parameters off a query leaves none of them.
use wpoven_nobot.Base.{
  text_equality, Bool-cases, All, Text, ◌≡◌, refl, inl, inr, false, List, [], ◌∷◌,
}
use wpoven_nobot.Query.{Values, parse_raw_query, encode_raw_query}
use wpoven_nobot.Text.{has_prefix}
use wpoven_nobot.Challenge.Query.{query_arg_prefix, delete_args}
use wpoven_nobot.Query.Plain.{parse_raw_query-IsPlain, parse-encode-All}

-- The key is not one of the program's own.
abbrev pub IsForeign : Text → Type 0
IsForeign k = has_prefix k query_arg_prefix ≡ false

delete_args-All :
    (P : Text × List Text → Type 0) (m : Values)
    → All P m
    → All (λ e. P e × IsForeign e.0) (delete_args m)
unfolding delete_args
delete_args-All P [] h = tt
delete_args-All P ((k, vs) ∷ m) (p, h) = elim (Bool-cases (has_prefix k query_arg_prefix)) [
  | inl e ↦ rw e (delete_args-All P m h)
  | inr e ↦ rw e ((p, e), delete_args-All P m h)
]

-- Reading a raw query, deleting what starts with QueryArgPrefix, writing it out and reading it
-- again gives foreign keys alone.
pub delete_args-IsForeign :
    (raw : Text)
    → All
        (λ e. IsForeign e.0)
        (parse_raw_query (encode_raw_query (delete_args (parse_raw_query raw))))
delete_args-IsForeign raw =
    parse-encode-All IsForeign (delete_args (parse_raw_query raw)) refl
      (delete_args-All _ (parse_raw_query raw) (parse_raw_query-IsPlain raw))
