-- ===== src/Tags.antt =====
-- The filter of fetchTags in lib/http.go: which link and meta tags of a backend's page are shown on
-- the program's own pages.
pub mod Laws
pub mod Fetch
use wpoven_nobot.Base.{
  text_equality, if◌then◌else◌, is_empty, Text, ascii, ◌==◌, Bool, false, not, ◌&&◌, ◌||◌, Option,
  none, some, List, [], ◌∷◌,
}
use wpoven_nobot.Text.{has_prefix}

-- `html.Attribute`
pub record Attribute : Type 0 where
  pub namespace : Text
  pub key : Text
  pub val : Text

-- what the filter reads and builds of `html.Node`
pub record Node : Type 0 where
  pub namespace : Text
  pub tag : Text
  pub attr : List Attribute

abbrev pub is_one_of : Text → List Text → Bool
is_one_of s [] = false
is_one_of s (t ∷ ts) = s == t || is_one_of s ts

-- the first `rel` outside a namespace
pub rel_name : List Attribute → Text
rel_name [] = []
rel_name (a ∷ attrs) =
    let rest = rel_name attrs in
    if not (is_empty a.namespace) then rest else if a.key == ascii "rel" then a.val else rest

-- the loop that looks for `name`, or the first `property` before it that is not empty
pub meta_name : Text → List Attribute → Text
meta_name name [] = name
meta_name name (a ∷ attrs) =
    let found = if a.key == ascii "property" && is_empty name then a.val else name in
    let rest = meta_name (if is_empty a.namespace then found else name) attrs in
    if is_empty a.namespace && a.key == ascii "name" then a.val else rest

abbrev pub link_names : List Text
link_names =
    ascii "icon"
    ∷ ascii "alternate icon"
    ∷ ascii "alternate"
    ∷ ascii "canonical"
    ∷ ascii "search"
    ∷ ascii "author"
    ∷ ascii "privacy-policy"
    ∷ ascii "license"
    ∷ ascii "copyright"
    ∷ ascii "terms-of-service"
    ∷ ascii "manifest"
    ∷ []

unfoldable pub keep_link : Text → Bool
keep_link name = is_one_of name link_names

abbrev pub meta_prefixes : List Text
meta_prefixes =
    ascii "og:"
    ∷ ascii "fb:"
    ∷ ascii "twitter:"
    ∷ ascii "profile:"
    ∷ ascii "vcs:"
    ∷ ascii "forge:"
    ∷ ascii "citation_"
    ∷ []

-- the source asks whether the constant starts with the name
unfoldable pub starts_some : Text → List Text → Bool
starts_some name [] = false
starts_some name (p ∷ ps) = has_prefix p name || starts_some name ps

abbrev pub meta_names : List Text
meta_names =
    ascii "vcs"
    ∷ ascii "forge"
    ∷ ascii "theme-color"
    ∷ ascii "color-scheme"
    ∷ ascii "origin-trials"
    ∷ ascii "application-name"
    ∷ ascii "origin"
    ∷ ascii "author"
    ∷ ascii "creator"
    ∷ ascii "contact"
    ∷ ascii "title"
    ∷ ascii "description"
    ∷ ascii "thumbnail"
    ∷ ascii "rating"
    ∷ ascii "license"
    ∷ ascii "license:uri"
    ∷ ascii "rights"
    ∷ ascii "rights-standard"
    ∷ ascii "go-import"
    ∷ ascii "go-source"
    ∷ ascii "apple-itunes-app"
    ∷ ascii "appstore:bundle_id"
    ∷ ascii "appstore:developer_url"
    ∷ ascii "appstore:store_id"
    ∷ ascii "google-play-app"
    ∷ ascii "verify-v1"
    ∷ ascii "google-site-verification"
    ∷ ascii "p:domain_verify"
    ∷ ascii "yandex-verification"
    ∷ ascii "alexaverifyid"
    ∷ ascii "keywords"
    ∷ ascii "robots"
    ∷ ascii "google"
    ∷ ascii "googlebot"
    ∷ ascii "bingbot"
    ∷ ascii "pinterest"
    ∷ ascii "Slurp"
    ∷ []

unfoldable pub keep_meta : Text → Bool
unfolding starts_some
keep_meta name = starts_some name meta_prefixes || is_one_of name meta_names

-- the attributes that the new node takes over
unfoldable pub safe_attributes : List Text → List Attribute → List Attribute
safe_attributes safe [] = []
safe_attributes safe (a ∷ attrs) =
    let rest = safe_attributes safe attrs in
    if is_empty a.namespace && is_one_of a.key safe then a ∷ rest else rest

abbrev pub link_attributes : List Text
link_attributes =
    ascii "rel"
    ∷ ascii "href"
    ∷ ascii "hreflang"
    ∷ ascii "media"
    ∷ ascii "title"
    ∷ ascii "type"
    ∷ []

abbrev pub meta_attributes : List Text
meta_attributes = ascii "name" ∷ ascii "property" ∷ ascii "content" ∷ []

-- the new node, left out where it would have no attribute
abbrev pub build : Text → List Attribute → Option Node
build tag [] = none
build tag (a ∷ attrs) = some (record { namespace = []; tag = tag; attr = a ∷ attrs })

-- the body of the loop: the entry that a node becomes
unfoldable pub filter_node : Node → Option Node
unfolding rel_name meta_name keep_link keep_meta safe_attributes
filter_node n =
    if not (is_empty n.namespace)
    then none
    else if n.tag == ascii "link"
    then (if not (is_empty (rel_name n.attr)) && keep_link (rel_name n.attr)
        then build n.tag (safe_attributes link_attributes n.attr)
        else none)
    else if n.tag == ascii "meta"
    then (if not (is_empty (meta_name [] n.attr)) && keep_meta (meta_name [] n.attr)
        then build n.tag (safe_attributes meta_attributes n.attr)
        else none)
    else none

abbrev pub cons_entry : Option Node → List Node → List Node
cons_entry none entries = entries
cons_entry (some n) entries = n ∷ entries

-- the loop over what the backend's page holds
unfoldable pub filter_tags : List Node → List Node
unfolding filter_node
filter_tags [] = []
filter_tags (n ∷ ns) = cons_entry (filter_node n) (filter_tags ns)
