-- ===== src/Startup/Loading/Reloading.antt =====
-- What the cache of networks gives to NewState of lib/state.go when a server starts again.
use wpoven_nobot.Time.{Time, hour}
use wpoven_nobot.Cache.{CacheError, Cache, expired, Reply}
use wpoven_nobot.Policy.Networks.{IpNet, Network, fetch_prefixes}
use wpoven_nobot.Startup.Loading.{
  Loader, cache_key, use_cache, fetched, from_cache, load_prefixes, cached_prefixes, Loaded,
}
use wpoven_nobot.Cache.Laws.{IsCache}
use wpoven_nobot.Base.{
  All, Text, ℕ, ◌+◌, ◌*◌, ◌≤◌, ◌≡◌, refl, true, false, Option, some, List, [], ◌∷◌, map, sym, ◌∙◌,
  none, ltb, if◌then◌else◌, arith,
}

module _ {ℓ} {R : Type ℓ} where
  -- A list of prefixes that its texts give back.
  abbrev pub IsReadable : Loader R → List IpNet → Type 0
  IsReadable l prefixes = All (λ net. l.outside.parse_cidr (l.net_string net) ≡ some net) prefixes

  cached_prefixes-map :
      (l : Loader R) (prefixes : List IpNet)
      → IsReadable l prefixes
      → cached_prefixes l (map l.net_string prefixes) ≡ prefixes
  cached_prefixes-map l [] h = refl
  cached_prefixes-map l (net ∷ nets) (e, h) = rw (e, cached_prefixes-map l nets h) refl

  -- the loader at another time: other answers of web and whois servers
  abbrev pub elsewhere :
      Loader R → (Text → Option (ℕ × Option Text)) → (ℕ → Option (List IpNet)) → Loader R
  elsewhere l http_get as_nets = record l {
    outside = record l.outside { http_get = http_get; as_nets = as_nets };
  }

within : (over now : ℕ) → now ≤ over → (if ltb over now then some expired else none) ≡ none
within over now h = ground arith

module _ {ℓ κ} {R : Type ℓ} {S : Type κ} where
  fetched_stored :
      (l : Loader R) (c : Cache S) (key text : Text) (prefixes cached : List IpNet) (now : Time)
      (s : S)
      → l.marshal (map l.net_string prefixes) ≡ some text
      → fetched l (some c) key (some prefixes) cached now s
        ≡ (record { prefixes = prefixes; failed = false }, (c.set key text now s).0)
  unfolding fetched
  fetched_stored l c key text prefixes cached now s m = rw (fetched, m) refl

  from_cache_old :
      (l : Loader R) (c : Cache S) (key : Text) (answer : Option (List IpNet)) (reply : Reply)
      (err : CacheError) (now : Time) (s : S)
      → reply.error ≡ some err
      → from_cache l c key answer reply now s
        ≡ fetched l (some c) key answer (cached_prefixes l (l.unmarshal reply.data_read)) now s
  unfolding from_cache
  from_cache_old l c key answer reply err now s e = rw (from_cache, e) refl

  from_cache_fresh :
      (l : Loader R) (c : Cache S) (key data_read : Text) (answer : Option (List IpNet))
      (now : Time) (s : S)
      → from_cache l c key answer (record { data_read = data_read; error = none }) now s
        ≡ (record { prefixes = cached_prefixes l (l.unmarshal data_read); failed = false }, s)
  unfolding from_cache
  from_cache_fresh l c key data_read answer now s = refl

  -- Prefixes that are fetched and put into the cache, whose texts can be read back, are what the
  -- entry has for the next 24 hours, whatever the web and whois servers answer then, and what the
  -- cache keeps stays.
  pub load_prefixes_again :
      (l : Loader R) (c : Cache S) (place : Text → Text) (name : Text) (i : ℕ) (e : Network)
      (prefixes : List IpNet) (text : Text) (err : CacheError) (first again : Time) (s : S)
      (http_get : Text → Option (ℕ × Option Text)) (as_nets : ℕ → Option (List IpNet))
      → IsCache c place
      → use_cache e ≡ true
      → fetch_prefixes l.outside e ≡ some prefixes
      → (c.get (cache_key l name i e) (24 * hour) first s).error ≡ some err
      → l.marshal (map l.net_string prefixes) ≡ some text
      → l.unmarshal text ≡ map l.net_string prefixes
      → IsReadable l prefixes
      → (c.set (cache_key l name i e) text first s).1 ≡ true
      → again ≤ first + 24 * hour
      → (load_prefixes l (some c) name i e first s ≡ (
        record { prefixes = prefixes; failed = false },
        (c.set (cache_key l name i e) text first s).0,
      ))
        × (load_prefixes
              (elsewhere l http_get as_nets)
              (some c)
              name
              i
              e
              again
              (c.set (cache_key l name i e) text first s).0
            ≡ load_prefixes l (some c) name i e first s)
  unfolding load_prefixes from_cache cache_key
  load_prefixes_again l c place name i e prefixes text err first again s http_get as_nets h
        cacheable answer old m u readable accepted soon =
      let key = cache_key l name i e in
      let l' = elsewhere l http_get as_nets in
      let loaded : Loaded = record { prefixes = prefixes; failed = false } in
      let s' = (c.set key text first s).0 in
      let was : load_prefixes l (some c) name i e first s ≡ (loaded, s') =
        rw
          (
            cacheable,
            answer,
            from_cache_old l c key (some prefixes) (c.get key (24 * hour) first s) err first s old,
          )
          (fetched_stored l c key text prefixes
            (cached_prefixes l (l.unmarshal (c.get key (24 * hour) first s).data_read)) first s
            m) in
      let again_was : load_prefixes l' (some c) name i e again s' ≡ (loaded, s') =
        rw
          (
            cacheable,
            h.get-set key text (24 * hour) first again s accepted,
            within (first + 24 * hour) again soon,
          )
          (from_cache_fresh l' c key text (fetch_prefixes l'.outside e) again s'
            ∙ rw (u, cached_prefixes-map l prefixes readable) refl) in
      (was, again_was ∙ sym was)
