-- ===== src/Metrics/Laws.antt =====
-- What the counters of lib/metrics.go hold after any events.
use wpoven_nobot.Base.{
  text_equality, if◌then◌else◌, length, keep, Text, ascii, ◌==◌, ℕ, ◌+◌, ◌≡◌, ap, ◌∙◌, Bool, true,
  false, ◌&&◌, List, [], ◌∷◌, arith,
}
use wpoven_nobot.Metrics.{
  Label, label_eq, Metrics, count_rule, count_action, count_challenge, reset_metrics, count_event,
  count_events, CounterVec,
}
use wpoven_nobot.Challenge.World.{
  Event, challenge_failed, challenge_passed, challenge_issued, challenge_checked,
}

-- Whether an event is this result of this challenge.
abbrev pub is_result : Text → Text → Event → Bool
is_result name result (challenge_failed n) = n == name && ascii "fail" == result
is_result name result (challenge_passed n) = n == name && ascii "pass" == result
is_result name result (challenge_issued n) = n == name && ascii "issue" == result
is_result name result (challenge_checked n) = n == name && ascii "check" == result
is_result name result _ = false

-- How many of the events are.
abbrev pub results : Text → Text → List Event → ℕ
results name result events = length (keep (is_result name result) events)

-- What the library documents of its counters: counting one up adds one to it and leaves the others, and
-- a reset sets all of them to nothing.
abbrev pub Counts : {C : Type 0} → CounterVec C → Type 0
Counts {C} v =
    ((l k : Label) (c : C)
      → v.value_of_counter k (v.inc l c) ≡ v.value_of_counter k c + (if label_eq l k then 1 else 0))
    × ((k : Label) (c : C) → v.value_of_counter k (v.clear_all c) ≡ 0)

module _ {C : Type 0} (v : CounterVec C) (counts : Counts v) where
  count_event_challenges :
      (name result : Text) (e : Event) (m : Metrics C)
      → v.value_of_counter (name, result) (count_event v e m).challenge_counts
        ≡ v.value_of_counter (name, result) m.challenge_counts
          + (if is_result name result e then 1 else 0)
  unfolding count_event count_rule count_action count_challenge
  count_event_challenges name result (challenge_failed n) m =
      counts.0 (n, ascii "fail") (name, result) m.challenge_counts
  count_event_challenges name result (challenge_passed n) m =
      counts.0 (n, ascii "pass") (name, result) m.challenge_counts
  count_event_challenges name result (challenge_issued n) m =
      counts.0 (n, ascii "issue") (name, result) m.challenge_counts
  count_event_challenges name result (challenge_checked n) m =
      counts.0 (n, ascii "check") (name, result) m.challenge_counts
  count_event_challenges name result _ m = omega arith

  count_events_challenges :
      (events : List Event) (m : Metrics C) (name result : Text)
      → v.value_of_counter (name, result) (count_events v events m).challenge_counts
        ≡ v.value_of_counter (name, result) m.challenge_counts + results name result events
  unfolding count_events
  count_events_challenges [] m name result = omega arith
  count_events_challenges (e ∷ events) m name result =
      count_events_challenges events (count_event v e m) name result
      ∙ ap (λ (n : ℕ). n + results name result events) (count_event_challenges name result e m)
      ∙ regroup (is_result name result e) (v.value_of_counter (name, result) m.challenge_counts)
    where
      regroup :
          (b : Bool) (n : ℕ)
          → n + (if b then 1 else 0) + length (keep (is_result name result) events)
            ≡ n
              + length (
                  if b
                  then e ∷ keep (is_result name result) events
                  else keep (is_result name result) events)
      regroup true n = omega arith
      regroup false n = omega arith

  -- After a reset and any events, the counter of a challenge and a result holds how many of the events
  -- are that result of that challenge, if the library counts as it documents.
  pub count_events_lem :
      (events : List Event) (m : Metrics C) (name result : Text)
      → v.value_of_counter
          (name, result)
          (count_events v events (reset_metrics v m)).challenge_counts
        ≡ results name result events
  unfolding reset_metrics
  count_events_lem events m name result = omega (
    arith,
    count_events_challenges events (reset_metrics v m) name result,
    counts.1 (name, result) m.challenge_counts,
  )
