-- ===== src/Startup/Loading.antt =====
-- The networks of NewState in lib/state.go: the prefixes of a network come from the cache or from
-- the outside, and go into a ranger, the prefix tree of the package cidranger.
pub mod Fetching
pub mod Reloading
use wpoven_nobot.Base.{
  text_equality, if◌then◌else◌, take, Text, ascii, ℕ, ◌+◌, ◌*◌, Bool, true, false, ◌||◌, Option,
  none, some, List, [], ◌∷◌, ◌++◌, map,
}
use wpoven_nobot.Text.{after, decimal}
use wpoven_nobot.Time.{Time, hour}
use wpoven_nobot.Cache.{Reply, Cache}
use wpoven_nobot.Policy.Networks.{IpNet, Network, Outside, fetch_prefixes}
use wpoven_nobot.Hex.{encode}

-- What the loading calls: the outside of FetchPrefixes, SHA-256, `json.Marshal` of texts and what
-- `json.Unmarshal` finds in a text, the text of a prefix, and Insert of a ranger, `none` for an error.
pub record Loader {ℓ} (R : Type ℓ) : Type ℓ where
  pub outside : Outside
  pub sha256 : Text → Text
  pub marshal : List Text → Option Text
  pub unmarshal : Text → List Text
  pub net_string : IpNet → Text
  pub empty_ranger : R
  pub insert_net : IpNet → R → Option R

-- the prefixes that the loading of one entry returns, and whether with an error
pub record Loaded : Type 0 where
  pub prefixes : List IpNet
  pub failed : Bool

module _ {ℓ} {R : Type ℓ} where
  abbrev source_suffix : Loader R → Option Text → Option ℕ → Text
  source_suffix l (some url) asn = encode (take 4 (l.sha256 url))
  source_suffix l none (some asn) = decimal asn
  source_suffix l none none = []

  -- the key of the entry with this index of a network
  unfoldable pub cache_key : Loader R → Text → ℕ → Network → Text
  cache_key l name i e = name ++ ascii "-" ++ decimal i ++ ascii "-" ++ source_suffix l e.url e.asn

  -- the texts that can be parsed
  abbrev pub cached_prefixes : Loader R → List Text → List IpNet
  cached_prefixes l [] = []
  cached_prefixes l (n ∷ ns) = elim (l.outside.parse_cidr n) [
    | none ↦ cached_prefixes l ns
    | some net ↦ net ∷ cached_prefixes l ns
  ]

  -- the loop over the prefixes; one that cannot be inserted is passed over
  abbrev insert_all : Loader R → List IpNet → R → R
  insert_all l [] ranger = ranger
  insert_all l (net ∷ nets) ranger = elim (l.insert_net net ranger) [
    | none ↦ insert_all l nets ranger
    | some more ↦ insert_all l nets more
  ]

  -- what an entry adds to the ranger, nothing with an error
  unfoldable pub add_loaded : Loader R → Loaded → R → R
  add_loaded l loaded ranger = if loaded.failed then ranger else insert_all l loaded.prefixes ranger

abbrev is_some {ℓ} : {A : Type ℓ} → Option A → Bool
is_some none = false
is_some (some a) = true

-- whether an entry may use the cache
unfoldable pub use_cache : Network → Bool
use_cache e = is_some e.url || is_some e.asn

module _ {ℓ κ} {R : Type ℓ} {S : Type κ} where
  -- the end of a fetch, with what the cache had: new prefixes are put into the cache
  unfoldable pub fetched :
      Loader R → Option (Cache S) → Text → Option (List IpNet) → List IpNet → Time → S → Loaded × S
  fetched l cache key none cached now s = (record { prefixes = cached; failed = true }, s)
  fetched l none key (some prefixes) cached now s =
      (record { prefixes = prefixes; failed = false }, s)
  fetched l (some c) key (some prefixes) cached now s =
      let loaded : Loaded = record { prefixes = prefixes; failed = false } in
      elim (l.marshal (map l.net_string prefixes)) [
        | none ↦ (loaded, s)
        | some text ↦ (loaded, (c.set key text now s).0)
      ]

  -- an answer of the cache without an error is used
  unfoldable pub from_cache :
      Loader R → Cache S → Text → Option (List IpNet) → Reply → Time → S → Loaded × S
  unfolding fetched
  from_cache l c key answer reply now s =
      let cached = cached_prefixes l (l.unmarshal reply.data_read) in
      elim reply.error [
        | none ↦ (record { prefixes = cached; failed = false }, s)
        | some err ↦ fetched l (some c) key answer cached now s
      ]

  -- the function that gives the prefixes of one entry
  unfoldable pub load_prefixes :
      Loader R → Option (Cache S) → Text → ℕ → Network → Time → S → Loaded × S
  unfolding from_cache fetched use_cache
  load_prefixes l none name i e now s =
      fetched l none (cache_key l name i e) (fetch_prefixes l.outside e) [] now s
  load_prefixes l (some c) name i e now s =
      let key = cache_key l name i e in
      let answer = fetch_prefixes l.outside e in
      if use_cache e
      then from_cache l c key answer (c.get key (24 * hour) now s) now s
      else fetched l none key answer [] now s

  -- the loop over the entries of a network, from an index on
  unfoldable pub load_entries :
      Loader R → Option (Cache S) → Text → ℕ → List Network → Time → S → R → R × S
  unfolding load_prefixes add_loaded
  load_entries l cache name i [] now s ranger = (ranger, s)
  load_entries l cache name i (e ∷ es) now s ranger =
      let (loaded, after) = load_prefixes l cache name i e now s in
      load_entries l cache name (i + 1) es now after (add_loaded l loaded ranger)

  -- the function that a network's name stands for
  unfoldable pub load_network : Loader R → Option (Cache S) → Text → List Network → Time → S → R × S
  unfolding load_entries
  load_network l cache name entries now s = load_entries l cache name 0 entries now s l.empty_ranger
