-- ===== src/Challenge/Data/Expiry.antt =====
-- RequestData.Expiration of lib/challenge/data.go: when a challenge that is passed now ends.
use wpoven_nobot.Base.{
  text_equality, Text, lookup-insert_self, ℕ, ◌+◌, ◌*◌, ◌≤◌, ◌<◌, ◌≡◌, refl, true, arith,
}
use wpoven_nobot.Time.{Time, Duration, second, unix_epoch, unix, date_time}
use wpoven_nobot.Challenge.Token.{Draw, verify_challenge}
use wpoven_nobot.Challenge.Data.{issue_challenge_token, expiration}
use wpoven_nobot.Challenge.Types.{is_ok}
use wpoven_nobot.Challenge.World.{RequestData, World}
use wpoven_nobot.Challenge.Registration.{Key, Registration}
use wpoven_nobot.Challenge.Token.Accepts.{IsChecked, verify_challenge_accepts}
use wpoven_nobot.Time.Round.{round_window, round_unique}

-- A challenge ends between a half and one and a half durations from now, never before that.
pub expiration_bounds :
    (duration : Duration) (d : RequestData)
    → 0 < duration
    → (2 * d.time + duration < 2 * expiration duration d)
      × (2 * expiration duration d ≤ 2 * d.time + 3 * duration)
unfolding expiration
expiration_bounds duration d pos = omega (arith, round_window duration (d.time + duration) pos)

-- All requests from half a duration before a multiple of the duration up to half a duration after
-- it have one expiration, the multiple after that one; so their keys agree.
pub expiration_window :
    (duration k : ℕ) (d : RequestData)
    → 0 < duration
    → 2 * (k * duration) ≤ 2 * d.time + duration
    → 2 * d.time < 2 * (k * duration) + duration
    → expiration duration d ≡ (k + 1) * duration
unfolding expiration
expiration_window duration k d pos a b =
    round_unique duration (d.time + duration) (k + 1) pos (omega arith) (omega arith)

-- A token that IssueChallengeToken put down as passed is accepted as long as it is in date, by a
-- registration that checks tokens with nothing, or whose check passes what was stored.
pub verify_challenge-issue_challenge_token :
    (reg : Registration) (key : Key) (result : Text) (until : Time) (w : World) (draw : Draw)
    → unix_epoch * second ≤ draw.not_before_now
    → draw.expiry_now ≤ date_time (unix until)
    → IsChecked reg.verify reg.verify_probability
        (record {
          key = key;
          result = result;
          ok = true;
          expiry = unix until;
          not_before = 0;
          issued_at = unix w.now;
        })
        key
        draw
        w.request
    → is_ok
        (verify_challenge reg key draw (issue_challenge_token reg.name key result until true w)).0.0
      ≡ true
unfolding issue_challenge_token
verify_challenge-issue_challenge_token reg key result until w draw a b c =
    verify_challenge_accepts reg key draw (issue_challenge_token reg.name key result until true w)
      (_, lookup-insert_self reg.name _ w.request_data.challenge_map, (b, omega arith, refl, c))
