-- ===== src/Cache/Laws.antt =====
-- What the caches of utils/cache.go promise.
use wpoven_nobot.Base.{
  text_equality, ltb, if◌then◌else◌, Text, ℕ, ◌+◌, ◌≡◌, ◌≢◌, true, none, some, ◌++◌, take,
  text_eq_iff, lookup, lookup-insert, lookup-insert_self, refl, ap, arith, take_all,
}
use wpoven_nobot.Cache.{
  Cache, expired, prefix_cache, Disk, dir_get, dir_set, dir_cache, file, Files, reply_of,
}
use wpoven_nobot.Time.{Time}

-- What a cache promises of a value that Set accepted: it is the answer until the time is over, and
-- from then on it comes with an error; a key with another place keeps its answer.
pub record IsCache {ℓ} {S : Type ℓ} (c : Cache S) (place : Text → Text) : Type ℓ where
  pub get-set :
      (key value : Text) (max_age written now : ℕ) (s : S)
      → (c.set key value written s).1 ≡ true
      → c.get key max_age now (c.set key value written s).0 ≡ record {
        data_read = value;
        error = if ltb (written + max_age) now then some expired else none;
      }
  pub get_other :
      (key other value : Text) (max_age written now : ℕ) (s : S)
      → place key ≢ place other
      → c.get other max_age now (c.set key value written s).0 ≡ c.get other max_age now s

-- A cache with a prefix keeps what the cache promises, at the place of the longer key.
pub prefix_cache-IsCache {ℓ} :
    {S : Type ℓ} (c : Cache S) (place : Text → Text) (prefix : Text)
    → IsCache c place
    → IsCache (prefix_cache c prefix) (λ key. place (prefix ++ key))
prefix_cache-IsCache c place prefix h = record {
  get-set = λ key. h.get-set (prefix ++ key);
  get_other = λ key other. h.get_other (prefix ++ key) (prefix ++ other);
}

-- What Set leaves, when it succeeds, is a file with all of the value.
set_file :
    (disk : Disk) (dir key value : Text) (now : Time) (files : Files)
    → (dir_set disk dir key value now files).1 ≡ true
    → lookup (disk.join dir key) (dir_set disk dir key value now files).0 ≡ some (file value now)
unfolding dir_set
set_file disk dir key value now files accepted =
    let name = disk.join dir key in
    ground (
      arith,
      accepted,
      take_all (disk.room name) value,
      lookup-insert_self name (file (take (disk.room name) value) now) files,
    )

set_elsewhere :
    (disk : Disk) (dir key value name : Text) (now : Time) (files : Files)
    → disk.join dir key ≢ name
    → lookup name (dir_set disk dir key value now files).0 ≡ lookup name files
unfolding dir_set
set_elsewhere disk dir key value name now files apart =
    let path = disk.join dir key in
    ground (
      arith,
      apart,
      text_eq_iff path name,
      lookup-insert path name (file (take (disk.room path) value) now) files,
    )

-- A directory is a cache, whose keys have their places at the paths of their files: a value that Set
-- accepted is what Get answers, without an error until it is older than the time given and with the
-- error that it expired from then on, and a Set leaves the answers for keys with other paths.
pub dir_cache-IsCache : (disk : Disk) (dir : Text) → IsCache (dir_cache disk dir) (disk.join dir)
unfolding dir_get dir_set
dir_cache-IsCache disk dir = record {
  get-set = λ key value max_age written now files accepted.
      rw (set_file disk dir key value written files accepted) refl;
  get_other = λ key other value max_age written now files apart.
      ap (λ o. reply_of o max_age now)
        (set_elsewhere disk dir key value (disk.join dir other) written files apart);
}
