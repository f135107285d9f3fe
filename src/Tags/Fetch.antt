-- ===== src/Tags/Fetch.antt =====
-- How pages get the tags of a backend's page: FetchTags of utils/tagfetcher.go, fetchTags of
-- lib/http.go with its cache, and addCachedTags of lib/template.go. The parsers of media types and of
-- HTML are libraries.
pub mod Laws
use wpoven_nobot.Base.{
  text_equality, eqb, if◌then◌else◌, keep, Text, ascii, ◌==◌, insert, ℕ, ◌*◌, Bool, false, not,
  ◌&&◌, ◌||◌, Option, none, some, List, [], ◌∷◌, ◌++◌,
}
use wpoven_nobot.DecayMap.{Entry}
use wpoven_nobot.Tags.{Attribute, Node, is_one_of, filter_tags}
use wpoven_nobot.Time.{Time, hour}
use wpoven_nobot.Url
use wpoven_nobot.DecayMap
use wpoven_nobot.Url.{Url}
use wpoven_nobot.Challenge.Query.{delete_args}
use wpoven_nobot.Challenge.Data.{get_opt_bool, backend_host}
use wpoven_nobot.Challenge.World.{World}
use wpoven_nobot.Challenge.Registration.{State}

-- What a backend answers to the request for a page: its status, its media type, and the elements of
-- its document, `none` where that cannot be parsed.
pub record PageReply : Type 0 where
  pub status : ℕ
  pub media_type : Text
  pub elements : Option (List Node)

abbrev elements_of : List Text → Option (List Node) → List Node
elements_of kinds none = []
elements_of kinds (some nodes) = keep (λ n. is_one_of n.tag kinds) nodes

-- FetchTags
unfoldable pub fetch_page_tags : PageReply → List Text → List Node
fetch_page_tags reply kinds =
    if not (eqb reply.status 200)
    then []
    else if not (reply.media_type == ascii "text/html")
        && not (reply.media_type == ascii "application/xhtml+xml")
    then []
    else elements_of kinds reply.elements

-- the kinds that fetchTags asks for
unfoldable pub wanted_kinds : Bool → Bool → List Text
wanted_kinds meta link = if meta then ascii "meta" ∷ [] else if link then ascii "link" ∷ [] else []

-- the URL of the page, without the program's own parameters
unfoldable pub page_url : Url → Url
page_url url = record url { raw_query = Url.encode (delete_args (Url.query url)) }

unfoldable pub tag_key : Text → Url → Text
tag_key host url = host ++ ascii ":" ++ Url.string (page_url url)

abbrev pub TagCache : Type 0
TagCache = List (Text × Entry (List Node))

-- nothing that was found is nothing to keep
abbrev pub stored : Time → Text → List Node → TagCache → List Node × TagCache
stored now key [] cache = ([], cache)
stored now key (n ∷ ns) cache =
    let entries = filter_tags (n ∷ ns) in (entries, DecayMap.set now key entries (6 * hour) cache)

abbrev pub ask_page :
    (ℕ → Url → PageReply)
    → Time
    → Text
    → Option ℕ
    → Url
    → List Text
    → Option (List Node) × TagCache
    → Option (List Node × TagCache)
ask_page answers now key b uri kinds (some v, cache) = some (v, cache)
ask_page answers now key none uri kinds (none, cache) = none
ask_page answers now key (some b) uri kinds (none, cache) =
    some (stored now key (fetch_page_tags (answers b uri) kinds) cache)

-- fetchTags; `meanwhile` is what others do to the cache between the two locks of Get, and `none` the
-- panic of calling a backend that is not there
unfoldable pub fetch_tags :
    (ℕ → Url → PageReply)
    → Time
    → (TagCache → TagCache)
    → Text
    → Option ℕ
    → Url
    → Bool
    → Bool
    → TagCache
    → Option (List Node × TagCache)
unfolding page_url tag_key wanted_kinds fetch_page_tags
fetch_tags answers now meanwhile host b url meta link cache =
    ask_page answers now (tag_key host url) b (page_url url) (wanted_kinds meta link)
      (DecayMap.get now meanwhile (tag_key host url) cache)

-- the tags that a page is filled in with, each by its attributes
pub record PageTags : Type 0 where
  pub meta_tags : List (List (Text × Text))
  pub link_tags : List (List (Text × Text))

-- `tagAttrs[v.Key] = v.Val` for each attribute
abbrev attribute_map : List Attribute → List (Text × Text) → List (Text × Text)
attribute_map [] m = m
attribute_map (a ∷ attrs) m = attribute_map attrs (insert a.key a.val m)

-- the loop over the tags
unfoldable pub append_tags : List Node → List (List (Text × Text)) → List (List (Text × Text))
append_tags [] meta = meta
append_tags (n ∷ ns) meta = append_tags ns (meta ++ attribute_map n.attr [] ∷ [])

abbrev pub filled_in : PageTags → Option (List Node × TagCache) → Option (PageTags × TagCache)
filled_in input none = none
filled_in input (some (tags, cache)) =
    some (record input { meta_tags = append_tags tags input.meta_tags }, cache)

abbrev pub proxy_meta_opt : Text
proxy_meta_opt = ascii "proxy-meta-tags"

abbrev pub proxy_link_opt : Text
proxy_link_opt = ascii "proxy-safe-link-tags"

-- addCachedTags
unfoldable pub add_cached_tags :
    (ℕ → Url → PageReply)
    → (TagCache → TagCache)
    → State
    → World
    → PageTags
    → TagCache
    → Option (PageTags × TagCache)
unfolding fetch_tags append_tags
add_cached_tags answers meanwhile state w input cache =
    let meta = get_opt_bool proxy_meta_opt false w.request_data in
    let link = get_opt_bool proxy_link_opt false w.request_data in
    let (b, host) = backend_host state w in
    if meta || link
    then filled_in input (fetch_tags answers w.now meanwhile host b w.request.url meta link cache)
    else some (input, cache)
