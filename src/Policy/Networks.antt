-- ===== src/Policy/Networks.antt =====
-- lib/policy/network.go: the prefixes of a network. What the function asks of other libraries and
-- of the outside is a record of its answers.
pub mod Laws
use wpoven_nobot.Base.{
  text_equality, eqb, if◌then◌else◌, length, take, drop, Text, text_eq, ℕ, ◌*◌, ◌&&◌, Option, none,
  some, List, [], ◌∷◌, ◌++◌,
}
use wpoven_nobot.Net.{mapped}
use wpoven_nobot.Mime.{values}

-- `net.IPNet`: the bytes of an address, and the bits of the mask
pub record IpNet : Type 0 where
  pub ip : Text
  pub ones : ℕ

-- Network
pub record Network : Type 0 where
  pub url : Option Text
  pub file : Option Text
  pub asn : Option ℕ
  pub jq_path : Option Text
  pub regex : Option Text
  pub prefixes : List Text

-- The answers of the outside, `none` for an error: ParseCIDR and ParseIP of the package net, the
-- status and the body of an HTTP response, a file, the whois server, the values of a jq path in a
-- JSON text (`none` for a value that is no text), and the matches of the group "prefix" of a regular
-- expression.
pub record Outside : Type 0 where
  pub parse_cidr : Text → Option IpNet
  pub parse_ip : Text → Option Text
  pub http_get : Text → Option (ℕ × Option Text)
  pub read_file : Text → Option Text
  pub as_nets : ℕ → Option (List IpNet)
  pub run_query : Text → Text → Option (List (Option Text))
  pub find_all : Text → Text → Option (List Text)

-- `ip.To4()`
abbrev pub to4 : Text → Option Text
to4 ip =
    if eqb (length ip) 4
    then some ip
    else if eqb (length ip) 16 && text_eq (take 12 ip) mapped
    then some (drop 12 ip)
    else none

-- a single address
abbrev pub single : Text → IpNet
single ip = record { ip = ip; ones = length ip * 8 }

abbrev pub single_of : Text → Option Text → IpNet
single_of ip none = single ip
single_of ip (some v4) = single v4

abbrev cidr_or : Option IpNet → Option Text → Option IpNet
cidr_or (some net) o = some net
cidr_or none none = none
cidr_or none (some ip) = some (single_of ip (to4 ip))

-- parseCIDROrIP
unfoldable pub parse_cidr_or_ip : Outside → Text → Option IpNet
parse_cidr_or_ip out value = cidr_or (out.parse_cidr value) (out.parse_ip value)

infixl 5 ◌>>=◌
abbrev pub ◌>>=◌ {ℓ κ} : {A : Type ℓ} {B : Type κ} → Option A → (A → Option B) → Option B
none >>= f = none
some a >>= f = f a

-- the loops that parse texts and append them to the output
unfoldable pub parse_all : Outside → List Text → List IpNet → Option (List IpNet)
unfolding parse_cidr_or_ip
parse_all out [] output = some output
parse_all out (value ∷ values) output =
    parse_cidr_or_ip out value >>= λ net. parse_all out values (output ++ net ∷ [])

-- the loop over the values of a jq path, which ends at a value that is no text
unfoldable pub parse_values : Outside → List (Option Text) → List IpNet → Option (List IpNet)
unfolding parse_cidr_or_ip
parse_values out [] output = some output
parse_values out (none ∷ values) output = none
parse_values out (some value ∷ values) output =
    parse_cidr_or_ip out value >>= λ net. parse_values out values (output ++ net ∷ [])

abbrev ok_body : ℕ × Option Text → Option Text
ok_body (status, body) = if eqb status 200 then body else none

-- the filter over the text that was read
abbrev filter_text : Outside → Option Text → Option Text → List IpNet → Text → Option (List IpNet)
filter_text out (some path) regex output text =
    out.run_query path text >>= λ vs. parse_values out vs output
filter_text out none (some expr) output text =
    out.find_all expr text >>= λ ms. parse_all out ms output
filter_text out none none output text = none

-- a network without an URL, a file or an AS number
abbrev prefixes_alone : List IpNet → Option (List IpNet)
prefixes_alone [] = none
prefixes_alone (net ∷ nets) = some (net ∷ nets)

-- the sources, of which the first that is there counts
abbrev from_source :
    Outside
    → Option Text
    → Option Text
    → Option ℕ
    → (Text → Option (List IpNet))
    → List IpNet
    → Option (List IpNet)
from_source out (some url) file asn filtered output =
    out.http_get url >>= λ response. ok_body response >>= filtered
from_source out none (some file) asn filtered output = out.read_file file >>= filtered
from_source out none none (some asn) filtered output = out.as_nets asn
from_source out none none none filtered output = prefixes_alone output

-- Network.FetchPrefixes
unfoldable pub fetch_prefixes : Outside → Network → Option (List IpNet)
unfolding parse_all parse_values
fetch_prefixes out n = parse_all out n.prefixes [] >>= λ output.
    from_source out n.url n.file n.asn (filter_text out n.jq_path n.regex output) output
