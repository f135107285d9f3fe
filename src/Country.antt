-- ===== src/Country.antt =====
-- The function `country` of lib/conditions.go: the cache of addresses, and the comparison with a
-- name or a list of names. The database is a parameter: what it finds for an address, or an error.
pub mod Laws
use wpoven_nobot.Base.{
  text_equality, ltb, if◌then◌else◌, length, is_empty, Text, ◌==◌, lookup, insert, ℕ, Bool, false,
  ◌&&◌, ◌||◌, Option, none, some, List, [], ◌∷◌,
}
use wpoven_nobot.Text.{to_upper, trim_space}

-- GeoIPCacheEntry; the ISO code and the English name of the country
pub record GeoEntry : Type 0 where
  pub iso_code : Text
  pub name : Text

abbrev pub Cache : Type 0
Cache = List (Text × GeoEntry)

abbrev pub negative : GeoEntry
negative = record { iso_code = []; name = [] }

abbrev bounded_insert : ℕ → Text → GeoEntry → Cache → Cache
bounded_insert limit ip entry cache =
    if ltb (length cache) limit then insert ip entry cache else cache

-- the lookup that both overloads begin with: the entry, or `none` for the answer false at once
unfoldable pub locate : (Text → Option GeoEntry) → ℕ → Text → Cache → Option GeoEntry × Cache
locate database limit ip cache = elim (lookup ip cache) [
  | some cached ↦ (some cached, cache)
  | none ↦ elim (database ip) [
    | none ↦ (none, insert ip negative cache)
    | some entry ↦ (some entry, bounded_insert limit ip entry cache)
  ]
]

abbrev is_negative : GeoEntry → Bool
is_negative entry = is_empty entry.iso_code && is_empty entry.name

-- whether a country is meant by a name or a code, spaces and case aside
abbrev pub is_named : GeoEntry → Text → Bool
is_named entry input =
    to_upper entry.iso_code == to_upper (trim_space input)
    || to_upper entry.name == to_upper (trim_space input)

-- the overload for a text
unfoldable pub in_country : (Text → Option GeoEntry) → ℕ → Text → Text → Cache → Bool × Cache
unfolding locate
in_country database limit ip country cache =
    let (found, cache') = locate database limit ip cache in
    elim found [
      | none ↦ (false, cache')
      | some entry ↦ (if is_negative entry then false else is_named entry country, cache')
    ]

-- the loop of the overload for a list; an element that is no text is passed over
unfoldable pub any_named : GeoEntry → List (Option Text) → Bool
any_named entry [] = false
any_named entry (none ∷ countries) = any_named entry countries
any_named entry (some country ∷ countries) = is_named entry country || any_named entry countries

-- the overload for a list
unfoldable pub in_countries :
    (Text → Option GeoEntry) → ℕ → Text → List (Option Text) → Cache → Bool × Cache
unfolding locate any_named
in_countries database limit ip countries cache =
    let (found, cache') = locate database limit ip cache in
    elim found [
      | none ↦ (false, cache')
      | some entry ↦ (if is_negative entry then false else any_named entry countries, cache')
    ]
