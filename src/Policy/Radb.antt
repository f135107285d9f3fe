-- ===== src/Policy/Radb.antt =====
-- utils/radb.go: queries to a whois server, and the routes of an AS among its answers. A connection is
-- the lines that the server sends, with how they end, and the number of writes that succeed.
pub mod Routes
use wpoven_nobot.Base.{
  text_equality, ltb, eqb, if◌then◌else◌, length, is_empty, Text, ascii, ◌==◌, ℕ, zero, suc, ◌+◌,
  Bool, ◌&&◌, ◌||◌, Option, none, some, List, [], ◌∷◌, ◌++◌,
}
use wpoven_nobot.Text.{has_prefix, trim_space, decimal}
use wpoven_nobot.Policy.Networks.{IpNet, to4, ◌>>=◌, single_of}
use wpoven_nobot.Runtime.Dnsbl.{bad}
use wpoven_nobot.Startup.Opening.{opened}

pub record Conn : Type 0 where
  pub incoming : List Text
  pub scan_error : Bool
  pub writable : ℕ
  pub sent : List Text

-- `conn.Write`
abbrev pub write : Text → Conn → Option Conn
write text c = write_left c.writable
  where
    write_left : ℕ → Option Conn
    write_left zero = none
    write_left (suc n) = some (record c { writable = n; sent = c.sent ++ text ∷ [] })

abbrev is_line_end : ℕ → Bool
is_line_end c = eqb c 13 || eqb c 10

-- `bytes.Trim(line, "\r\n")`
abbrev trim_front : Text → Text
trim_front [] = []
trim_front (c ∷ s) = let rest = trim_front s in if is_line_end c then rest else c ∷ s

abbrev trim_back : Text → Text
trim_back [] = []
trim_back (c ∷ s) =
    let rest = trim_back s in if is_line_end c && is_empty rest then [] else c ∷ rest

unfoldable pub trim_line : Text → Text
trim_line s = trim_back (trim_front s)

abbrev pub is_end : Text → Bool
is_end buf = has_prefix buf (ascii "%") || buf == ascii "C"

module _ {ℓ} {A : Type ℓ} where
  -- the inner loop: the records of one answer, numbered, until its end or the end of the lines; the
  -- function gives none for an error
  unfoldable pub read_records :
      (ℕ → Text → A → Option A) → Bool → ℕ → List Text → A → Option (A × List Text)
  unfolding trim_line
  read_records fn bad n [] acc = if bad then none else some (acc, [])
  read_records fn bad n (line ∷ lines) acc =
      let buf = trim_line line in
      let rest = fn n buf acc >>= λ more. read_records fn bad (n + 1) lines more in
      if is_end buf then some (acc, lines) else rest

  -- the loop over the queries
  unfoldable pub run_queries : (ℕ → Text → A → Option A) → List Text → Conn → A → Option (A × Conn)
  unfolding read_records
  run_queries fn [] c acc = some (acc, c)
  run_queries fn (q ∷ qs) c acc = write (trim_space q ++ 10 ∷ []) c >>= λ c'.
      read_records fn c'.scan_error 0 c'.incoming acc >>= λ got.
      run_queries fn qs (record c' { incoming = got.1 }) got.0

  -- RADb.query, on the connection that Dial gives
  unfoldable pub query_server :
      (ℕ → Text → A → Option A) → List Text → Option Conn → A → Option (A × Conn)
  unfolding run_queries
  query_server fn queries dial acc = dial >>= λ c.
      (if ltb 1 (length queries) then write (ascii "!!" ++ 10 ∷ []) c else some c) >>= λ opened.
      run_queries fn queries opened acc >>= λ got.
      (if ltb 1 (length queries) then write (ascii "q" ++ 10 ∷ []) got.1 else some got.1)
      >>= λ closed. some (got.0, closed)

-- the function of FetchIPInfo
abbrev collect_record : ℕ → Text → List Text → Option (List Text)
collect_record n buf result = some (result ++ buf ∷ [])

-- RADb.FetchIPInfo, with the text of a prefix of one address
unfoldable pub fetch_ip_info : (IpNet → Text) → Text → Option Conn → Option (List Text)
unfolding query_server
fetch_ip_info net_string ip dial =
    query_server collect_record
      ((ascii "!r" ++ net_string (single_of ip (to4 ip)) ++ ascii ",l") ∷ []) dial []
    >>= λ got. some got.0

-- the function of FetchASNets: the first record is the length of the answer
abbrev pub collect_routes : ℕ → Text → Text → Option Text
collect_routes n buf text =
    if eqb n 0 then some text else some ((if eqb n 1 then text ++ 32 ∷ [] else text) ++ buf)

-- the loop over the matches
unfoldable pub parse_routes : (Text → Option IpNet) → List Text → Option (List IpNet)
parse_routes parse_cidr [] = some []
parse_routes parse_cidr (m ∷ ms) =
    let rest = parse_routes parse_cidr ms in
    parse_cidr m >>= λ net. rest >>= λ nets. some (net ∷ nets)

-- RADb.FetchASNets; `find_routes` is FindAllSubmatch of whoisRouteRegex, its group "prefix"
unfoldable pub fetch_as_nets :
    (Text → List Text) → (Text → Option IpNet) → ℕ → Option Conn → Option (List IpNet)
unfolding query_server parse_routes
fetch_as_nets find_routes parse_cidr asn dial =
    query_server collect_routes ((ascii "!gas" ++ decimal asn) ∷ (ascii "!6as" ++ decimal asn) ∷ [])
      dial []
    >>= λ got. parse_routes parse_cidr (find_routes got.0)
