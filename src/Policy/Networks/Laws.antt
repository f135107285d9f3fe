-- ===== src/Policy/Networks/Laws.antt =====
-- What FetchPrefixes of lib/policy/network.go returns.
use wpoven_nobot.Base.{
  text_equality, Text, ℕ, ◌≡◌, refl, Option, none, some, List, [], ◌∷◌, ◌++◌, sym, ◌∙◌, arith,
}
use wpoven_nobot.Policy.Networks.{
  parse_all, fetch_prefixes, ◌>>=◌, IpNet, Network, Outside, parse_cidr_or_ip, ok_body, filter_text,
  from_source,
}

parse_all-append :
    (out : Outside) (xs ys : List Text) (output : List IpNet)
    → parse_all out (xs ++ ys) output ≡ (parse_all out xs output >>= parse_all out ys)
unfolding parse_all
parse_all-append out [] ys output = refl
parse_all-append out (x ∷ xs) ys output =
    one_more (parse_cidr_or_ip out x) (λ net. parse_all-append out xs ys (output ++ net ∷ []))
  where
    one_more :
        (o : Option IpNet)
        → ((net : IpNet)
            → parse_all out (xs ++ ys) (output ++ net ∷ [])
              ≡ (parse_all out xs (output ++ net ∷ []) >>= parse_all out ys))
        → (o >>= λ net. parse_all out (xs ++ ys) (output ++ net ∷ []))
          ≡ ((o >>= λ net. parse_all out xs (output ++ net ∷ [])) >>= parse_all out ys)
    one_more none h = refl
    one_more (some net) h = h net

-- The text that a network's URL or, without one, its file gives.
abbrev pub source_text : Outside → Option Text → Option Text → Option Text
source_text out (some url) file = out.http_get url >>= ok_body
source_text out none (some file) = out.read_file file
source_text out none none = none

-- Where the source gives a text, it is the text that is filtered.
of_text :
    (out : Outside) (url file : Option Text) (asn : Option ℕ)
    (filtered : Text → Option (List IpNet)) (output : List IpNet) (text : Text)
    → source_text out url file ≡ some text
    → from_source out url file asn filtered output ≡ filtered text
of_text out (some url) file asn filtered output text e = reply (out.http_get url) e
  where
    reply :
        (o : Option (ℕ × Option Text))
        → (o >>= ok_body) ≡ some text
        → (o >>= λ response. ok_body response >>= filtered) ≡ filtered text
    reply none e = absurd (ground arith)
    reply (some response) e = rw e refl
of_text out none (some file) asn filtered output text e = rw e refl
of_text out none none asn filtered output text e = absurd (ground arith)

-- A network that is read by a regular expression has the prefixes that it lists and those that the
-- expression finds in the text of its source, in this order; an address or prefix among them that
-- cannot be parsed is an error of the whole.
fetch_prefixes-parse_all :
    (out : Outside) (n : Network) (expr text : Text) (matches : List Text)
    → n.jq_path ≡ none
    → n.regex ≡ some expr
    → source_text out n.url n.file ≡ some text
    → out.find_all expr text ≡ some matches
    → fetch_prefixes out n ≡ parse_all out (n.prefixes ++ matches) []
unfolding fetch_prefixes
fetch_prefixes-parse_all out n expr text matches j r s m =
    filtered_by (parse_all out n.prefixes []) ∙ sym (parse_all-append out n.prefixes matches [])
  where
    filtered_by :
        (o : Option (List IpNet))
        → (o >>= λ output.
            from_source out n.url n.file n.asn (filter_text out n.jq_path n.regex output) output)
          ≡ (o >>= parse_all out matches)
    filtered_by none = refl
    filtered_by (some output) =
        of_text out n.url n.file n.asn (filter_text out n.jq_path n.regex output) output text s
        ∙ rw (j, r, m) refl

-- A network with an AS number and neither an URL nor a file has the prefixes of that AS alone: the
-- prefixes that it lists, once they parse, are lost.
fetch_prefixes_asn :
    (out : Outside) (n : Network) (asn : ℕ) (listed : List IpNet)
    → n.url ≡ none
    → n.file ≡ none
    → n.asn ≡ some asn
    → parse_all out n.prefixes [] ≡ some listed
    → fetch_prefixes out n ≡ fetch_prefixes out (record n { prefixes = [] })
unfolding fetch_prefixes parse_all
fetch_prefixes_asn out n asn listed u f a p = rw (p, u, f, a) refl
