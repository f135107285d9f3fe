-- ===== src/Metrics.antt =====
-- lib/metrics.go, and the methods of lib/interface.go that count what happens. The counters are a
-- library's, and a parameter here.
pub mod Laws
use wpoven_nobot.Base.{text_equality, Text, ascii, ◌==◌, ℕ, Bool, ◌&&◌, List, [], ◌∷◌}
use wpoven_nobot.Challenge.World.{
  RuleAction, none_action, pass_action, deny_action, block_action, code_action, drop_action,
  challenge_action, check_action, proxy_action, context_action, Event, rule_hit, rule_miss,
  action_hit, challenge_failed, challenge_passed, challenge_issued, challenge_checked,
}

-- `string(action)`, the constants of lib/policy/rule.go
unfoldable pub action_text : RuleAction → Text
action_text none_action = ascii "NONE"
action_text pass_action = ascii "PASS"
action_text deny_action = ascii "DENY"
action_text block_action = ascii "BLOCK"
action_text code_action = ascii "CODE"
action_text drop_action = ascii "DROP"
action_text challenge_action = ascii "CHALLENGE"
action_text check_action = ascii "CHECK"
action_text proxy_action = ascii "PROXY"
action_text context_action = ascii "CONTEXT"

-- the labels of a counter: a name and a result
abbrev pub Label : Type 0
Label = Text × Text

abbrev pub label_eq : Label → Label → Bool
label_eq (a, b) (c, d) = a == c && b == d

-- A vector of counters of the library, in some state C: counting one of them up, its value, and all of
-- them set to nothing.
pub record CounterVec (C : Type 0) : Type 0 where
  pub inc : Label → C → C
  pub value_of_counter : Label → C → ℕ
  pub clear_all : C → C

-- stateMetrics; the labels of actions have no second part
pub record Metrics (C : Type 0) : Type 0 where
  pub rule_counts : C
  pub action_counts : C
  pub challenge_counts : C

module _ {C : Type 0} (v : CounterVec C) where
  -- stateMetrics.Rule, Action, Challenge and Reset
  unfoldable pub count_rule : Text → Text → Metrics C → Metrics C
  count_rule name result m = record m { rule_counts = v.inc (name, result) m.rule_counts }

  unfoldable pub count_action : RuleAction → Metrics C → Metrics C
  unfolding action_text
  count_action action m = record m {
    action_counts = v.inc (action_text action, []) m.action_counts;
  }

  unfoldable pub count_challenge : Text → Text → Metrics C → Metrics C
  count_challenge name result m = record m {
    challenge_counts = v.inc (name, result) m.challenge_counts;
  }

  unfoldable pub reset_metrics : Metrics C → Metrics C
  reset_metrics m = record {
    rule_counts = v.clear_all m.rule_counts;
    action_counts = v.clear_all m.action_counts;
    challenge_counts = v.clear_all m.challenge_counts;
  }

  -- RuleHit, RuleMiss, ActionHit, ChallengeFailed, ChallengePassed, ChallengeIssued and
  -- ChallengeChecked of a State
  unfoldable pub count_event : Event → Metrics C → Metrics C
  unfolding count_rule count_action count_challenge
  count_event (rule_hit name) m = count_rule name (ascii "hit") m
  count_event (rule_miss name) m = count_rule name (ascii "miss") m
  count_event (action_hit action) m = count_action action m
  count_event (challenge_failed name) m = count_challenge name (ascii "fail") m
  count_event (challenge_passed name) m = count_challenge name (ascii "pass") m
  count_event (challenge_issued name) m = count_challenge name (ascii "issue") m
  count_event (challenge_checked name) m = count_challenge name (ascii "check") m
  count_event _ m = m

  unfoldable pub count_events : List Event → Metrics C → Metrics C
  unfolding count_event
  count_events [] m = m
  count_events (e ∷ events) m = count_events events (count_event e m)
