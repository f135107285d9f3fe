-- ===== src/Tags/Fetch/Laws.antt =====
-- Which tags of a backend's page are fetched, and how long they are kept.
use wpoven_nobot.DecayMap
use wpoven_nobot.Base.{
  text_equality, eqb, Bool-cases, keep, All, Text, ascii, ◌==◌, ◌≡◌, inl, inr, Bool, true, not,
  ◌&&◌, Option, none, some, List, [], ◌∷◌, ltb, if◌then◌else◌, is_empty, text_eq_iff,
  lookup-insert_self, ℕ, ◌+◌, ◌*◌, ◌≤◌, refl, false, arith, lookup,
}
use wpoven_nobot.Tags.{
  Attribute, Node, is_one_of, build, cons_entry, filter_node, filter_tags, rel_name, meta_name,
  keep_link, keep_meta, safe_attributes, link_attributes, meta_attributes,
}
use wpoven_nobot.Tags.Fetch.{
  PageReply, fetch_page_tags, stored, wanted_kinds, page_url, tag_key, TagCache, fetch_tags,
}
use wpoven_nobot.Time.{Time, hour}
use wpoven_nobot.Url.{Url}
use mathlib.Core.Path.{subst}
use wpoven_nobot.DecayMap.{Entry}

keep-All : (p : Node → Bool) (ns : List Node) → All (λ n. p n ≡ true) (keep p ns)
keep-All p [] = tt
keep-All p (n ∷ ns) = elim (Bool-cases (p n)) [
  | inl e ↦ rw e (e, keep-All p ns)
  | inr e ↦ rw e (keep-All p ns)
]

-- A tag of the kinds that are asked for.
abbrev IsKind : List Text → Node → Type 0
IsKind kinds n = is_one_of n.tag kinds ≡ true

fetch_page_tags-IsKind :
    (reply : PageReply) (kinds : List Text) → All (IsKind kinds) (fetch_page_tags reply kinds)
unfolding fetch_page_tags
fetch_page_tags-IsKind reply kinds = elim (Bool-cases (not (eqb reply.status 200))) [
  | inl e ↦ rw e tt
  | inr e ↦
      elim (Bool-cases (
        not (reply.media_type == ascii "text/html")
        && not (reply.media_type == ascii "application/xhtml+xml"))) [
          | inl k ↦ rw (e, k) tt
          | inr k ↦ rw (e, k) (elements reply.elements)
        ]
]
  where
    elements :
        (o : Option (List Node))
        → All (IsKind kinds) (elim o as (λ x. List Node) [
          | none ↦ []
          | some nodes ↦ keep (λ n. is_one_of n.tag kinds) nodes
        ])
    elements none = tt
    elements (some nodes) = keep-All (λ n. is_one_of n.tag kinds) nodes

abbrev IsKindEntry : List Text → Option Node → Type 0
IsKindEntry kinds none = Unit
IsKindEntry kinds (some n) = IsKind kinds n

build-IsKind :
    (kinds : List Text) (tag : Text) (attrs : List Attribute)
    → is_one_of tag kinds ≡ true
    → IsKindEntry kinds (build tag attrs)
build-IsKind kinds tag [] h = tt
build-IsKind kinds tag (a ∷ attrs) h = h

either-IsKind :
    (kinds : List Text) (b : Bool) (n m : Option Node)
    → IsKindEntry kinds n
    → IsKindEntry kinds m
    → IsKindEntry kinds (if b then n else m)
either-IsKind kinds true n m h k = h
either-IsKind kinds false n m h k = k

-- a tag that is built where it is wanted
built-IsKind :
    (kinds : List Text) (b : Bool) (tag : Text) (attrs : List Attribute)
    → is_one_of tag kinds ≡ true
    → IsKindEntry kinds (if b then build tag attrs else none)
built-IsKind kinds true tag attrs h = build-IsKind kinds tag attrs h
built-IsKind kinds false tag attrs h = tt

filter_node-IsKind :
    (kinds : List Text) (n : Node) → IsKind kinds n → IsKindEntry kinds (filter_node n)
unfolding filter_node
filter_node-IsKind kinds n h =
    let link = not (is_empty (rel_name n.attr)) && keep_link (rel_name n.attr) in
    let meta = not (is_empty (meta_name [] n.attr)) && keep_meta (meta_name [] n.attr) in
    either-IsKind kinds (not (is_empty n.namespace)) _ _ tt (
      either-IsKind kinds (n.tag == ascii "link") _ _
        (built-IsKind kinds link n.tag (safe_attributes link_attributes n.attr) h)
        (either-IsKind kinds (n.tag == ascii "meta") _ _
          (built-IsKind kinds meta n.tag (safe_attributes meta_attributes n.attr) h) tt))

cons_entry-IsKind :
    (kinds : List Text) (o : Option Node) (ns : List Node)
    → IsKindEntry kinds o
    → All (IsKind kinds) ns
    → All (IsKind kinds) (cons_entry o ns)
cons_entry-IsKind kinds none ns h hs = hs
cons_entry-IsKind kinds (some n) ns h hs = (h, hs)

filter_tags-IsKind :
    (kinds : List Text) (ns : List Node)
    → All (IsKind kinds) ns
    → All (IsKind kinds) (filter_tags ns)
unfolding filter_tags
filter_tags-IsKind kinds [] h = tt
filter_tags-IsKind kinds (n ∷ ns) (h, hs) =
    cons_entry-IsKind kinds (filter_node n) (filter_tags ns) (filter_node-IsKind kinds n h)
      (filter_tags-IsKind kinds ns hs)

stored-IsKind :
    (kinds : List Text) (now : Time) (key : Text) (ns : List Node) (cache : TagCache)
    → All (IsKind kinds) ns
    → All (IsKind kinds) (stored now key ns cache).0
stored-IsKind kinds now key [] cache h = tt
stored-IsKind kinds now key (n ∷ ns) cache h = filter_tags-IsKind kinds (n ∷ ns) h

abbrev tags_in : Option (List Node × TagCache) → List Node
tags_in none = []
tags_in (some (tags, cache)) = tags

-- A page that is not in the cache is fetched for its meta tags alone where both kinds are wanted: no
-- tag that fetchTags returns is a link.
fetch_tags_both :
    (answers : ℕ → Url → PageReply) (now : Time) (meanwhile : TagCache → TagCache) (host : Text)
    (b : ℕ) (url : Url) (cache missed after : TagCache) (tags : List Node)
    → DecayMap.get now meanwhile (tag_key host url) cache ≡ (none, missed)
    → fetch_tags answers now meanwhile host (some b) url true true cache ≡ some (tags, after)
    → All (λ n. n.tag ≡ ascii "meta") tags
unfolding fetch_tags wanted_kinds
fetch_tags_both answers now meanwhile host b url cache missed after tags miss gave = metas tags (
    subst (λ o. All (IsKind (ascii "meta" ∷ [])) (tags_in o)) gave
      (rw miss (
        stored-IsKind (ascii "meta" ∷ []) now (tag_key host url) _ missed
          (fetch_page_tags-IsKind (answers b (page_url url)) (ascii "meta" ∷ [])))))
  where
    metas :
        (ns : List Node) → All (IsKind (ascii "meta" ∷ [])) ns → All (λ n. n.tag ≡ ascii "meta") ns
    metas [] h = tt
    metas (n ∷ ns) (h, hs) = ((text_eq_iff n.tag (ascii "meta")).0 (ground (arith, h)), metas ns hs)

get_found :
    (now : Time) (meanwhile : TagCache → TagCache) (key : Text) (entry : Entry (List Node))
    (m : TagCache)
    → lookup key m ≡ some entry
    → ltb entry.expiry now ≡ false
    → DecayMap.get now meanwhile key m ≡ (some entry.value, m)
unfolding DecayMap.get DecayMap.read
get_found now meanwhile key entry m found kept = rw (DecayMap.get, found, kept) refl

get_kept :
    (now later : Time) (meanwhile : TagCache → TagCache) (key : Text) (v : List Node) (m : TagCache)
    → later ≤ now + 6 * hour
    → DecayMap.get later meanwhile key (DecayMap.set now key v (6 * hour) m)
      ≡ (some v, DecayMap.set now key v (6 * hour) m)
unfolding DecayMap.set
get_kept now later meanwhile key v m soon =
    let kept : ltb (now + 6 * hour) later ≡ false = ground (arith, soon) in
    get_found later meanwhile key (record { value = v; expiry = now + 6 * hour })
      (DecayMap.set now key v (6 * hour) m)
      (lookup-insert_self key (record { value = v; expiry = now + 6 * hour }) m) kept

-- What was fetched for some kinds of tags is the answer for any other kinds of the same page, from
-- any backend, for six hours.
pub fetch_tags_again :
    (answers answers' : ℕ → Url → PageReply) (now later : Time)
    (meanwhile meanwhile' : TagCache → TagCache) (host : Text) (b : ℕ) (b' : Option ℕ) (url : Url)
    (meta link meta' link' : Bool) (n : Node) (ns : List Node) (cache missed : TagCache)
    → DecayMap.get now meanwhile (tag_key host url) cache ≡ (none, missed)
    → fetch_page_tags (answers b (page_url url)) (wanted_kinds meta link) ≡ n ∷ ns
    → later ≤ now + 6 * hour
    → (after : TagCache) × (fetch_tags answers now meanwhile host (some b) url meta link cache
        ≡ some (filter_tags (n ∷ ns), after))
      × (fetch_tags answers' later meanwhile' host b' url meta' link' after
          ≡ some (filter_tags (n ∷ ns), after))
unfolding fetch_tags
fetch_tags_again answers answers' now later meanwhile meanwhile' host b b' url meta link meta' link'
      n ns cache missed miss found soon =
    let key = tag_key host url in
    let entries = filter_tags (n ∷ ns) in
    (
      DecayMap.set now key entries (6 * hour) missed,
      rw (miss, found) refl,
      rw (get_kept now later meanwhile' key entries missed soon) refl,
    )
