-- ===== src/Tests/Breakers.antt =====
-- A breaker of two failures and a timeout of ten seconds, for src/asap/transport/circuit_breaker.py.
use asap_protocol.Prelude.{
  ◌*◌, ◌≤◌, true, some, leb, List, [], ◌∷◌, ◌≡◌, refl, arith, second, string_eq,
}
use asap_protocol.Circuit.Breaker.{
  CircuitBreaker, opened, fresh, record_success, record_failure, can_attempt, Event, failure,
  success, step,
}
use asap_protocol.Circuit.Admission.{admitted, admitted-le-one}
use asap_protocol.Circuit.Tripping.{longest_streak, leaves_closed, opens_iff_streak}

abbrev tripped : CircuitBreaker
tripped = record {
  threshold = 2;
  timeout = 10 * second;
  state = opened;
  consecutive_failures = 2;
  last_failure_time = some (5 * second);
  half_open_permit = true;
}

-- two failures in a row, with a success before them
abbrev events : List Event
events = failure 1 ∷ success ∷ failure 2 ∷ failure 3 ∷ []

opens_iff_streak_example :
    leaves_closed events (fresh 2 (10 * second)) ≡ leb 2 (longest_streak 0 events)
opens_iff_streak_example = opens_iff_streak 2 (10 * second) events (omega arith)

opens : leaves_closed events (fresh 2 (10 * second)) ≡ true
unfolding leaves_closed fresh step record_failure record_success
opens = refl

admitted-le-one_example : admitted (20 * second ∷ 21 * second ∷ 22 * second ∷ []) tripped ≤ 1
admitted-le-one_example =
    admitted-le-one (20 * second ∷ 21 * second ∷ 22 * second ∷ []) tripped (λ e. cc)

admits_one : admitted (20 * second ∷ 21 * second ∷ 22 * second ∷ []) tripped ≡ 1
unfolding admitted can_attempt
admits_one = refl
