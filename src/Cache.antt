-- ===== src/Cache.antt =====
-- utils/cache.go: the cache that a server keeps between its runs, an interface with two
-- implementations. A directory's files are an association list of paths.
pub mod Laws
use wpoven_nobot.Base.{
  text_equality, ltb, leb, if◌then◌else◌, length, take, Text, lookup, insert, ℕ, ◌+◌, Bool, true,
  false, not, ◌&&◌, Option, none, some, List, [], ◌++◌,
}
use wpoven_nobot.Time.{Time, Duration}

pub data CacheError : Type 0 where
  missing key_is_directory expired : CacheError

-- what Get returns: data, empty for nil, and an error, with which there may be data
pub record Reply : Type 0 where
  pub data_read : Text
  pub error : Option CacheError

-- Cache, over the type of what is kept; the clock is an argument, and Set answers whether it succeeded
pub record Cache {ℓ} (S : Type ℓ) : Type ℓ where
  pub get : Text → Duration → Time → S → Reply
  pub set : Text → Text → Time → S → S × Bool

-- prefixCache
abbrev pub prefix_cache {ℓ} : {S : Type ℓ} → Cache S → Text → Cache S
prefix_cache c prefix = record {
  get = λ key. c.get (prefix ++ key);
  set = λ key. c.set (prefix ++ key);
}

-- CachePrefix
abbrev pub cache_prefix {ℓ} : {S : Type ℓ} → Option (Cache S) → Text → Option (Cache S)
cache_prefix none prefix = none
cache_prefix (some c) prefix = some (prefix_cache c prefix)

-- a directory, or a file with its contents and the time that it was written
pub data Node : Type 0 where
  directory : Node
  file : Text → Time → Node

abbrev pub Files : Type 0
Files = List (Text × Node)

-- `path.Join` and `path.Dir`, and the number of bytes that a path's disk has room for
pub record Disk : Type 0 where
  pub join : Text → Text → Text
  pub parent : Text → Text
  pub room : Text → ℕ

abbrev is_directory : Option Node → Bool
is_directory (some directory) = true
is_directory _ = false

abbrev reply_of : Option Node → Duration → Time → Reply
reply_of none max_age now = record { data_read = []; error = some missing }
reply_of (some directory) max_age now = record { data_read = []; error = some key_is_directory }
reply_of (some (file contents written)) max_age now = record {
  data_read = contents;
  error = if ltb (written + max_age) now then some expired else none;
}

-- dirCache.Get
unfoldable pub dir_get : Disk → Text → Text → Duration → Time → Files → Reply
dir_get disk dir key max_age now files = reply_of (lookup (disk.join dir key) files) max_age now

-- Create makes or empties a file in a directory that is there
abbrev can_create : Disk → Text → Files → Bool
can_create disk name files =
    not (is_directory (lookup name files)) && is_directory (lookup (disk.parent name) files)

-- dirCache.Set; a disk that is full takes the front of the value
unfoldable pub dir_set : Disk → Text → Text → Text → Time → Files → Files × Bool
dir_set disk dir key value now files =
    let name = disk.join dir key in
    if can_create disk name files
    then (
      insert name (file (take (disk.room name) value) now) files,
      leb (length value) (disk.room name),
    )
    else (files, false)

abbrev pub dir_cache : Disk → Text → Cache Files
dir_cache disk dir = record { get = dir_get disk dir; set = dir_set disk dir }

-- CacheDirectory
abbrev pub cache_directory : Disk → Text → Files → Option (Cache Files)
cache_directory disk dir files =
    if is_directory (lookup dir files) then some (dir_cache disk dir) else none
