-- ===== src/Challenge/Verify/Keys.antt =====
-- The verifier and the issuer of NewKeyVerifier of lib/challenge/helper.go.
use wpoven_nobot.Hex
use wpoven_nobot.Base.{
  text_equality, if◌then◌else◌, length, All, Text, text_eq_iff, ◌==◌, ◌≡◌, not, ◌&&◌, none, some,
  arith,
}
use wpoven_nobot.Wasm.{size}
use wpoven_nobot.Hex.Laws.{IsByte, decode-encode}
use wpoven_nobot.Challenge.Key.{key_size, get_flag}
use wpoven_nobot.Challenge.Types.{
  result_fail, result_ok, mismatched_token, mismatched_token_happy_eyeballs,
}
use wpoven_nobot.Challenge.World.{Request}
use wpoven_nobot.Challenge.Verify.{verify_key, issue_key}
use wpoven_nobot.Challenge.Registration.{Key}

-- Of texts that the issuer wrote for keys of full length, the verifier accepts the one of the same
-- key, reports a client that went from IPv4 to IPv6, and refuses every other.
pub verify_key-issue_key :
    (key other : Key) (r : Request)
    → All IsByte other
    → length other ≡ key_size
    → verify_key key (issue_key other) r ≡ (
        if key == other
        then (result_ok, none)
        else if not (get_flag key) && get_flag other
        then (result_ok, some mismatched_token_happy_eyeballs)
        else (result_fail, some mismatched_token))
unfolding verify_key
verify_key-issue_key key other r bytes size = ground (arith, decode-encode other bytes)

-- Whatever the token, an answer without an error means that the token spells the key.
pub verify_key_sound :
    (key : Key) (token : Text) (r : Request)
    → (verify_key key token r).1 ≡ none
    → ((verify_key key token r).0 ≡ result_ok) × (Hex.decode token ≡ (key, none))
unfolding verify_key
verify_key_sound key token r h = ground (arith, text_eq_iff key (Hex.decode token).0)
