-- ===== src/Startup/Loading/Fetching.antt =====
-- What NewState of lib/state.go makes of an entry whose prefixes cannot be fetched.
use wpoven_nobot.Time.{Time, hour}
use wpoven_nobot.Cache.{CacheError, Reply, Cache}
use wpoven_nobot.Policy.Networks.{Network, fetch_prefixes}
use wpoven_nobot.Startup.Loading.{
  Loader, cache_key, add_loaded, use_cache, fetched, from_cache, load_prefixes, load_entries,
  cached_prefixes,
}
use wpoven_nobot.Base.{
  Bool-cases, Text, ℕ, ◌+◌, ◌*◌, ◌≡◌, refl, ap, inl, inr, true, none, some, List, ◌∷◌,
}

module _ {ℓ κ} {R : Type ℓ} {S : Type κ} where
  from_cache_failing :
      (l : Loader R) (c : Cache S) (key : Text) (reply : Reply) (err : CacheError) (now : Time)
      (s : S)
      → reply.error ≡ some err
      → from_cache l c key none reply now s
        ≡ (record { prefixes = cached_prefixes l (l.unmarshal reply.data_read); failed = true }, s)
  unfolding from_cache fetched
  from_cache_failing l c key reply err now s e = rw (from_cache, e) refl

  load_prefixes_failing :
      (l : Loader R) (c : Cache S) (name : Text) (i : ℕ) (e : Network) (err : CacheError)
      (now : Time) (s : S)
      → fetch_prefixes l.outside e ≡ none
      → (c.get (cache_key l name i e) (24 * hour) now s).error ≡ some err
      → ((load_prefixes l (some c) name i e now s).0.failed ≡ true)
        × ((load_prefixes l (some c) name i e now s).1 ≡ s)
  unfolding load_prefixes fetched
  load_prefixes_failing l c name i e err now s none_fetched old =
      let loaded =
        from_cache_failing l c (cache_key l name i e)
          (c.get (cache_key l name i e) (24 * hour) now s) err now s old in
      elim (Bool-cases (use_cache e)) [
        | inl h ↦ rw (h, none_fetched) (ap (λ p. p.0.failed) loaded, ap (λ p. p.1) loaded)
        | inr h ↦ rw (h, none_fetched) (refl, refl)
      ]

  -- An entry of a network whose prefixes cannot be fetched, and whose answer from the cache comes with
  -- an error, adds nothing to the ranger: the prefixes of an expired answer are dropped, although they
  -- were kept to be used meanwhile. What the cache keeps stays.
  pub load_entries_failing :
      (l : Loader R) (c : Cache S) (name : Text) (i : ℕ) (e : Network) (es : List Network)
      (err : CacheError) (now : Time) (s : S) (ranger : R)
      → fetch_prefixes l.outside e ≡ none
      → (c.get (cache_key l name i e) (24 * hour) now s).error ≡ some err
      → load_entries l (some c) name i (e ∷ es) now s ranger
        ≡ load_entries l (some c) name (i + 1) es now s ranger
  unfolding load_entries add_loaded
  load_entries_failing l c name i e es err now s ranger none_fetched old =
      let (failing, kept) = load_prefixes_failing l c name i e err now s none_fetched old in
      rw (failing, kept) refl
