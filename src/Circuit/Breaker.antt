-- ===== src/Circuit/Breaker.antt =====
-- `CircuitBreaker` of src/asap/transport/circuit_breaker.py.
use asap_protocol.Prelude.{
  ℕ, ◌+◌, Bool, true, false, ◌&&◌, ◌||◌, Option, none, some, leb, if◌then◌else◌, List, [], ◌∷◌,
}

pub data CircuitState : Type 0 where
  closed opened half_open : CircuitState

pub record CircuitBreaker : Type 0 where
  pub threshold : ℕ
  pub timeout : ℕ
  pub state : CircuitState
  pub consecutive_failures : ℕ
  pub last_failure_time : Option ℕ
  pub half_open_permit : Bool

-- __init__
unfoldable pub fresh : ℕ → ℕ → CircuitBreaker
fresh threshold timeout = record {
  threshold = threshold;
  timeout = timeout;
  state = closed;
  consecutive_failures = 0;
  last_failure_time = none;
  half_open_permit = true;
}

abbrev pub is_closed : CircuitState → Bool
is_closed closed = true
is_closed _ = false

abbrev pub is_half_open : CircuitState → Bool
is_half_open half_open = true
is_half_open _ = false

abbrev pub is_open : CircuitState → Bool
is_open opened = true
is_open _ = false

unfoldable pub record_success : CircuitBreaker → CircuitBreaker
record_success b =
    let b' = record b { consecutive_failures = 0 } in
    if is_half_open b.state then record b' { state = closed; last_failure_time = none } else b'

unfoldable pub record_failure : ℕ → CircuitBreaker → CircuitBreaker
record_failure now b =
    let n = b.consecutive_failures + 1 in
    let b' = record b { consecutive_failures = n; last_failure_time = some now } in
    let threshold_reached = leb b.threshold n && is_closed b.state in
    if is_half_open b.state || threshold_reached then record b' { state = opened } else b'

-- `time.time() - last >= timeout` over the integers is `last + timeout <= now`
unfoldable pub timed_out : ℕ → CircuitBreaker → Bool
timed_out now b = elim b.last_failure_time [ none ↦ false | some t ↦ leb (t + b.timeout) now ]

-- the first branch of `can_attempt`: an open circuit becomes half open after its timeout
unfoldable pub probe : ℕ → CircuitBreaker → CircuitBreaker
unfolding timed_out
probe now b =
    if is_open b.state && timed_out now b
    then record b { state = half_open; half_open_permit = true }
    else b

-- the rest of it, over the state that the first branch leaves
unfoldable pub admit : CircuitBreaker → CircuitBreaker × Bool
admit b =
    if is_open b.state
    then (b, false)
    else if is_half_open b.state
    then (if b.half_open_permit then (record b { half_open_permit = false }, true) else (b, false))
    else (b, true)

unfoldable pub can_attempt : ℕ → CircuitBreaker → CircuitBreaker × Bool
unfolding probe admit
can_attempt now b = admit (probe now b)

-- What the clients do to a shared breaker, at the times that they do it.
pub data Event : Type 0 where
  attempt failure : ℕ → Event
  success : Event

unfoldable pub step : Event → CircuitBreaker → CircuitBreaker
step (attempt now) b = (can_attempt now b).0
step (failure now) b = record_failure now b
step success b = record_success b

unfoldable pub run : List Event → CircuitBreaker → CircuitBreaker
run [] b = b
run (e ∷ es) b = run es (step e b)
