-- ===== src/Fingerprint.antt =====
-- utils/fingerprint.go: the JA3N and JA4 fingerprints of a TLS client hello.
pub mod Laws
use wpoven_nobot.Hex
use wpoven_nobot.Base.{
  text_equality, ltb, leb, eqb, if◌then◌else◌, length, take, is_empty, Text, ascii, ℕ, ◌+◌, ◌-◌,
  ◌/◌, ◌%◌, Bool, false, not, ◌&&◌, ◌||◌, List, [], ◌∷◌, ◌++◌, map,
}
use wpoven_nobot.Text.{contains, join, decimal}

-- What the fingerprints read of `tls.ClientHelloInfo`; all numbers are 16 bits wide, points 8.
pub record ClientHello : Type 0 where
  pub supported_versions : List ℕ
  pub cipher_suites : List ℕ
  pub extensions : List ℕ
  pub supported_curves : List ℕ
  pub supported_points : List ℕ
  pub signature_schemes : List ℕ
  pub server_name : Text
  pub supported_protos : List Text

-- `v & greaseMask == greaseValue`: the low halves of both bytes are ten
unfoldable pub is_grease : ℕ → Bool
is_grease v = eqb (v % 16) 10 && eqb (v / 256 % 16) 10

-- the loops that leave GREASE values out
unfoldable pub without_grease : List ℕ → List ℕ
without_grease [] = []
without_grease (v ∷ vs) = let rest = without_grease vs in if is_grease v then rest else v ∷ rest

abbrev has_grease : List ℕ → Bool
has_grease [] = false
has_grease (v ∷ vs) = is_grease v || has_grease vs

-- the loop that looks for the highest version
max_version : List ℕ → ℕ → ℕ
max_version [] best = best
max_version (v ∷ vs) best =
    max_version vs (if is_grease v then best else if ltb best v then v else best)

abbrev pub version_tls12 : ℕ
version_tls12 = 0x0303

abbrev pub extension_supported_versions : ℕ
extension_supported_versions = 43

abbrev pub extension_alpn : ℕ
extension_alpn = 16

abbrev pub extension_server_name : ℕ
extension_server_name = 0

abbrev pub insert_number : ℕ → List ℕ → List ℕ
insert_number n [] = n ∷ []
insert_number n (m ∷ ms) = let rest = insert_number n ms in if leb n m then n ∷ m ∷ ms else m ∷ rest

-- `slices.Sort`
unfoldable pub sort_numbers : List ℕ → List ℕ
sort_numbers [] = []
sort_numbers (n ∷ ns) = insert_number n (sort_numbers ns)

-- the version of the first field, at most TLS 1.2 where the extension and GREASE are there
unfoldable pub ja3_version : ClientHello → ℕ
unfolding max_version
ja3_version hello =
    let v = max_version hello.supported_versions 0 in
    if contains extension_supported_versions hello.extensions
      && has_grease hello.supported_versions
      && ltb version_tls12 v
    then version_tls12
    else v

-- numbers with a dash between them, which is what each loop leaves once its last dash is cut
unfoldable pub dashed : List ℕ → Text
dashed ns = join b'-' (map decimal ns)

-- the text that tlsFingerprintJA3 hashes
unfoldable pub ja3_text : Bool → ClientHello → Text
unfolding ja3_version dashed sort_numbers without_grease
ja3_text sort_extensions hello =
    let extensions = if sort_extensions then sort_numbers hello.extensions else hello.extensions in
    decimal (ja3_version hello)
    ++ b',' ∷ dashed (without_grease hello.cipher_suites)
    ++ b',' ∷ dashed (without_grease extensions)
    ++ b',' ∷ dashed (without_grease hello.supported_curves)
    ++ b',' ∷ dashed hello.supported_points

-- tlsFingerprintJA3
unfoldable pub tls_fingerprint_ja3 : (Text → Text) → Bool → ClientHello → Text
unfolding ja3_text
tls_fingerprint_ja3 md5 sort_extensions hello = md5 (ja3_text sort_extensions hello)

abbrev ja4_version : ℕ → Text
ja4_version v =
    if eqb v 0x0300
    then ascii "s3"
    else if eqb v 0x0301
    then ascii "10"
    else if eqb v 0x0302
    then ascii "11"
    else if eqb v 0x0303
    then ascii "12"
    else if eqb v 0x0304
    then ascii "13"
    else (let w : ℕ = (v + 65536 - 0x0201) % 65536 in decimal (w / 256) ++ decimal (w % 256))

-- a count in two digits, at most 99
unfoldable pub two_digits : ℕ → Text
two_digits n = if ltb n 10 then 48 ∷ decimal n else if ltb 99 n then ascii "99" else decimal n

abbrev last_byte : Text → ℕ → ℕ
last_byte [] b = b
last_byte (c ∷ s) b = last_byte s c

abbrev alpn_part : List Text → Text
alpn_part ((a ∷ b ∷ proto) ∷ protos) = a ∷ last_byte proto b ∷ []
alpn_part _ = ascii "00"

abbrev without_alpn_and_name : List ℕ → List ℕ
without_alpn_and_name [] = []
without_alpn_and_name (x ∷ xs) =
    let rest = without_alpn_and_name xs in
    if eqb x extension_alpn || eqb x extension_server_name then rest else x ∷ rest

-- `%04x`
abbrev hex4 : ℕ → Text
hex4 n = Hex.encode (n / 256 ∷ n % 256 ∷ [])

-- uint16SliceToHex
unfoldable pub uint16_slice_to_hex : List ℕ → Text
uint16_slice_to_hex ns = join b',' (map hex4 ns)

-- ja4SHA256
unfoldable pub ja4_sha256 : (Text → Text) → Text → Text
ja4_sha256 sha256 buf = if is_empty buf then 0 ∷ 0 ∷ 0 ∷ 0 ∷ 0 ∷ 0 ∷ [] else take 6 (sha256 buf)

-- TLSFingerprintJA4
pub record Ja4 : Type 0 where
  pub a : Text
  pub b : Text
  pub c : Text

-- part A of tlsFingerprintJA4; its array has room for ten bytes
unfoldable pub ja4_a : ClientHello → Text
unfolding max_version without_grease two_digits
ja4_a hello = take 10 (
    b't' ∷ ja4_version (max_version hello.supported_versions 0)
    ++ (if contains extension_server_name hello.extensions && not (is_empty hello.server_name)
        then ascii "d"
        else ascii "i")
    ++ two_digits (length (without_grease hello.cipher_suites))
    ++ two_digits (length (without_grease hello.extensions))
    ++ alpn_part hello.supported_protos)

abbrev schemes_part : List ℕ → Text
schemes_part [] = []
schemes_part (s ∷ ss) = b'_' ∷ uint16_slice_to_hex (s ∷ ss)

-- tlsFingerprintJA4
unfoldable pub tls_fingerprint_ja4 : (Text → Text) → ClientHello → Ja4
unfolding ja4_a ja4_sha256 uint16_slice_to_hex sort_numbers without_grease
tls_fingerprint_ja4 sha256 hello = record {
  a = ja4_a hello;
  b = ja4_sha256 sha256 (uint16_slice_to_hex (sort_numbers (without_grease hello.cipher_suites)));
  c = ja4_sha256 sha256 (
      uint16_slice_to_hex (sort_numbers (without_alpn_and_name (without_grease hello.extensions)))
      ++ schemes_part (without_grease hello.signature_schemes));
}
