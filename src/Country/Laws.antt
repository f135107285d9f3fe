-- ===== src/Country/Laws.antt =====
-- The answers of `country` and its cache.
use wpoven_nobot.Base.{
  text_equality, length, Text, ℕ, ◌<◌, ◌≡◌, Option, some, [], ◌∷◌, ltb, lookup-insert_self, true,
  arith, lookup, insert,
}
use wpoven_nobot.Country.{in_country, in_countries, locate, GeoEntry, Cache, any_named}

-- The overload for a list with one name answers as the overload for that name, and leaves the same cache.
in_countries_singleton :
    (database : Text → Option GeoEntry) (limit : ℕ) (ip country : Text) (cache : Cache)
    → in_countries database limit ip (some country ∷ []) cache
      ≡ in_country database limit ip country cache
unfolding in_countries in_country any_named locate
in_countries_singleton database limit ip country cache = ground arith

ltb_under : (m n : ℕ) → m < n → ltb m n ≡ true
ltb_under m n h = ground arith

again :
    (entry : GeoEntry) (ip : Text) (cache : Cache) → lookup ip (insert ip entry cache) ≡ some entry
again entry ip cache = lookup-insert_self ip entry cache

-- While the cache has room, asking again for the same address gives the same answer, without the
-- database: any other database in its place gives it too.
in_country_again :
    (database other : Text → Option GeoEntry) (limit : ℕ) (ip country : Text) (cache : Cache)
    → length cache < limit
    → (in_country other limit ip country (in_country database limit ip country cache).1).0
      ≡ (in_country database limit ip country cache).0
unfolding in_country locate
in_country_again database other limit ip country cache room = grind (arith, again)
