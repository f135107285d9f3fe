-- ===== src/Query/Plain.antt =====
-- What ParseRawQuery of utils/http.go reads holds no separators, and comes back segment by segment.
use wpoven_nobot.Base.{
  text_equality, Bool-cases, is_empty, All, All-append, Text, ◌==◌, lookup, insert, refl, sym, inl,
  inr, List, [], ◌∷◌,
}
use wpoven_nobot.Query.{
  Values, parse_raw_query, text_leb, encode_raw_query, add_segment, add_segments, insert_sorted,
  sorted, pairs_of, pairs,
}
use wpoven_nobot.Mime.{all_of}
use wpoven_nobot.Text.{contains, before, after, split, join}
use wpoven_nobot.Text.Split.{
  Lacks, split-Lacks, before-Lacks_self, before-Lacks, after-Lacks, append-Lacks, before-append,
  split-join,
}
use mathlib.Core.Path.{subst}

-- The keys hold no separator, the values hold no `&`.
abbrev pub IsPlainEntry : Text × List Text → Type 0
IsPlainEntry e = Lacks b'&' e.0 × Lacks b'=' e.0 × All (Lacks b'&') e.1

abbrev pub IsPlain : Values → Type 0
IsPlain m = All IsPlainEntry m

lookup-IsPlain : (key : Text) (m : Values) → IsPlain m → All (Lacks b'&') (all_of (lookup key m))
lookup-IsPlain key [] h = tt
lookup-IsPlain key ((k, vs) ∷ m) ((_, _, hv), h) = elim (Bool-cases (k == key)) [
  | inl e ↦ rw e hv
  | inr e ↦ rw e (lookup-IsPlain key m h)
]

insert-All :
    (P : Text × List Text → Type 0) (key : Text) (vs : List Text) (m : Values)
    → P (key, vs)
    → All P m
    → All P (insert key vs m)
insert-All P key vs [] p h = (p, tt)
insert-All P key vs ((k, ws) ∷ m) p (q, h) = elim (Bool-cases (k == key)) [
  | inl e ↦ rw e (p, h)
  | inr e ↦ rw e (q, insert-All P key vs m p h)
]

add_segment-IsPlain :
    (seg : Text) (m : Values) → Lacks b'&' seg → IsPlain m → IsPlain (add_segment seg m)
add_segment-IsPlain seg m l h = elim (Bool-cases (contains b';' seg)) [
  | inl e ↦ rw e h
  | inr e ↦ rw e (elim (Bool-cases (is_empty seg)) [
    | inl f ↦ rw f h
    | inr f ↦ rw f (
        insert-All IsPlainEntry (before b'=' seg) _ m
          (
            before-Lacks b'=' b'&' seg l,
            before-Lacks_self b'=' seg,
            All-append (Lacks b'&') (all_of (lookup (before b'=' seg) m)) (after b'=' seg ∷ [])
                (lookup-IsPlain (before b'=' seg) m h) (after-Lacks b'=' b'&' seg l, tt),
          )
          h)
  ])
]

add_segments-IsPlain :
    (segs : List Text) (m : Values)
    → All (Lacks b'&') segs
    → IsPlain m
    → IsPlain (add_segments segs m)
unfolding add_segments
add_segments-IsPlain [] m l h = h
add_segments-IsPlain (seg ∷ segs) m (l, ls) h =
    add_segments-IsPlain segs (add_segment seg m) ls (add_segment-IsPlain seg m l h)

pub parse_raw_query-IsPlain : (raw : Text) → IsPlain (parse_raw_query raw)
unfolding parse_raw_query
parse_raw_query-IsPlain raw = add_segments-IsPlain (split b'&' raw) [] (split-Lacks b'&' raw) tt

insert_sorted-All :
    (P : Text × List Text → Type 0) (e : Text × List Text) (m : Values)
    → P e
    → All P m
    → All P (insert_sorted e m)
unfolding insert_sorted
insert_sorted-All P e [] p h = (p, tt)
insert_sorted-All P e (f ∷ m) p (q, h) = elim (Bool-cases (text_leb e.0 f.0)) [
  | inl l ↦ rw l (p, (q, h))
  | inr l ↦ rw l (q, insert_sorted-All P e m p h)
]

sorted-All : (P : Text × List Text → Type 0) (m : Values) → All P m → All P (sorted m)
unfolding sorted
sorted-All P [] h = tt
sorted-All P (e ∷ m) (p, h) = insert_sorted-All P e (sorted m) p (sorted-All P m h)

-- What holds of the keys holds of what stands before the `=` of every segment that is written.
module _ (P : Text → Type 0) where
  abbrev IsSegment : Text → Type 0
  IsSegment seg = Lacks b'&' seg × P (before b'=' seg)

  pairs_of-IsSegment :
      (key : Text) (vs : List Text)
      → Lacks b'&' key
      → Lacks b'=' key
      → P key
      → All (Lacks b'&') vs
      → All IsSegment (pairs_of key vs)
  unfolding pairs_of
  pairs_of-IsSegment key [] l e p h = tt
  pairs_of-IsSegment key (v ∷ vs) l e p (hv, h) = (
    (append-Lacks b'&' key (b'=' ∷ v) l hv, subst P (sym (before-append b'=' key v e)) p),
    pairs_of-IsSegment key vs l e p h,
  )

  pairs-IsSegment : (m : Values) → All (λ e. IsPlainEntry e × P e.0) m → All IsSegment (pairs m)
  unfolding pairs
  pairs-IsSegment [] h = tt
  pairs-IsSegment ((key, vs) ∷ m) (((a, b, c), p), h) =
      All-append IsSegment (pairs_of key vs) (pairs m) (pairs_of-IsSegment key vs a b p c)
        (pairs-IsSegment m h)

  IsSegment-Lacks : (segs : List Text) → All IsSegment segs → All (Lacks b'&') segs
  IsSegment-Lacks [] h = tt
  IsSegment-Lacks (s ∷ segs) ((l, _), h) = (l, IsSegment-Lacks segs h)

  split-join-IsSegment :
      (segs : List Text) → P [] → All IsSegment segs → All IsSegment (split b'&' (join b'&' segs))
  split-join-IsSegment [] p h = ((refl, p), tt)
  split-join-IsSegment (s ∷ segs) p h =
      subst (All IsSegment) (sym (split-join b'&' s segs (IsSegment-Lacks (s ∷ segs) h))) h

  add_segment-All :
      (seg : Text) (m : Values)
      → IsSegment seg
      → All (λ e. P e.0) m
      → All (λ e. P e.0) (add_segment seg m)
  add_segment-All seg m (_, p) h = elim (Bool-cases (contains b';' seg)) [
    | inl e ↦ rw e h
    | inr e ↦ rw e (elim (Bool-cases (is_empty seg)) [
      | inl f ↦ rw f h
      | inr f ↦ rw f (insert-All (λ e. P e.0) (before b'=' seg) _ m p h)
    ])
  ]

  add_segments-All :
      (segs : List Text) (m : Values)
      → All IsSegment segs
      → All (λ e. P e.0) m
      → All (λ e. P e.0) (add_segments segs m)
  unfolding add_segments
  add_segments-All [] m s h = h
  add_segments-All (seg ∷ segs) m (s, ss) h =
      add_segments-All segs (add_segment seg m) ss (add_segment-All seg m s h)

  -- Plain values that are written out and read again have keys of the same kind.
  pub parse-encode-All :
      (m : Values)
      → P []
      → All (λ e. IsPlainEntry e × P e.0) m
      → All (λ e. P e.0) (parse_raw_query (encode_raw_query m))
  unfolding parse_raw_query encode_raw_query
  parse-encode-All m p h =
      add_segments-All (split b'&' (join b'&' (pairs (sorted m)))) []
        (split-join-IsSegment (pairs (sorted m)) p
          (pairs-IsSegment (sorted m) (sorted-All (λ e. IsPlainEntry e × P e.0) m h)))
        tt
