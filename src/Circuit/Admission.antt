-- ===== src/Circuit/Admission.antt =====
-- Which requests a breaker lets through.
use asap_protocol.Prelude.{
  ℕ, ◌+◌, ◌≤◌, ◌<◌, true, false, none, some, if◌then◌else◌, arith, List, [], ◌∷◌, ◌≡◌, ◌≢◌, refl,
  ◌⊎◌, inl, inr, Bool-cases, length,
}
use asap_protocol.Circuit.Breaker.{
  CircuitBreaker, closed, opened, half_open, fresh, record_success, record_failure, can_attempt,
  Event, attempt, failure, success, step, run,
}

-- What holds of a breaker between two operations.
pub record IsValid (b : CircuitBreaker) : Type 0 where
  pub positive : 0 < b.threshold
  pub below : b.state ≡ closed → b.consecutive_failures < b.threshold
  pub failed : b.state ≢ closed → b.last_failure_time ≢ none

fresh-IsValid : (threshold timeout : ℕ) → 0 < threshold → IsValid (fresh threshold timeout)
unfolding fresh
fresh-IsValid threshold timeout h = ground arith

step-IsValid : (e : Event) (b : CircuitBreaker) → IsValid b → IsValid (step e b)
unfolding step can_attempt record_success record_failure
step-IsValid (attempt now) b h = ground arith
step-IsValid (failure now) b h = ground arith
step-IsValid success b h = ground arith

run-IsValid : (es : List Event) (b : CircuitBreaker) → IsValid b → IsValid (run es b)
unfolding run
run-IsValid [] b h = h
run-IsValid (e ∷ es) b h = run-IsValid es (step e b) (step-IsValid e b h)

-- Whatever the clients do with a new breaker of a positive threshold, a closed circuit has fewer
-- consecutive failures than the threshold, and a circuit that is not closed knows the time of its
-- last failure.
pub run-fresh-IsValid :
    (threshold timeout : ℕ) (es : List Event)
    → 0 < threshold
    → IsValid (run es (fresh threshold timeout))
run-fresh-IsValid threshold timeout es h =
    run-IsValid es (fresh threshold timeout) (fresh-IsValid threshold timeout h)

-- An open circuit that failed at `t` lets a request at `now` through exactly from `t + timeout` on;
-- it is then half open with its permit spent, and unchanged before.
pub can_attempt-opened :
    (now t : ℕ) (b : CircuitBreaker)
    → b.state ≡ opened
    → b.last_failure_time ≡ some t
    → ((t + b.timeout ≤ now)
        × (can_attempt now b ≡ (record b { state = half_open; half_open_permit = false }, true)))
      ⊎ ((now < t + b.timeout) × (can_attempt now b ≡ (b, false)))
unfolding can_attempt
can_attempt-opened now t b h k = ground arith

-- The answers to a sequence of requests, with no outcome recorded between them.
unfoldable pub admitted : List ℕ → CircuitBreaker → ℕ
admitted [] b = 0
admitted (now ∷ ts) b =
    let (b', allowed) = can_attempt now b in (if allowed then 1 else 0) + admitted ts b'

abbrev pub IsSpent : CircuitBreaker → Type 0
IsSpent b = (b.state ≡ half_open) × (b.half_open_permit ≡ false)

pub can_attempt_of_IsSpent :
    (now : ℕ) (b : CircuitBreaker) → IsSpent b → can_attempt now b ≡ (b, false)
unfolding can_attempt
can_attempt_of_IsSpent now b h = ground arith

-- A half-open circuit whose permit is spent lets no request through, however long the requests go
-- on, as long as no outcome is recorded.
pub admitted_of_IsSpent : (ts : List ℕ) (b : CircuitBreaker) → IsSpent b → admitted ts b ≡ 0
unfolding admitted
admitted_of_IsSpent [] b h = refl
admitted_of_IsSpent (now ∷ ts) b h =
    rw (can_attempt_of_IsSpent now b h) (rw (admitted_of_IsSpent ts b h) (omega arith))

can_attempt-ne-closed :
    (now : ℕ) (b : CircuitBreaker)
    → b.state ≢ closed
    → ((can_attempt now b).1 ≡ true → IsSpent (can_attempt now b).0)
      × ((can_attempt now b).0.state ≢ closed)
unfolding can_attempt
can_attempt-ne-closed now b h = (λ p. ground arith, λ p. ground arith)

-- From a circuit that is not closed, at most one request of any sequence gets through before an
-- outcome is recorded.
pub admitted-le-one : (ts : List ℕ) (b : CircuitBreaker) → b.state ≢ closed → admitted ts b ≤ 1
unfolding admitted
admitted-le-one [] b h = omega arith
admitted-le-one (now ∷ ts) b h = elim (Bool-cases (can_attempt now b).1) [
  | inl through ↦
      let none_after =
        admitted_of_IsSpent ts (can_attempt now b).0 ((can_attempt-ne-closed now b h).0 through) in
      ground (arith, none_after)
  | inr refused ↦
      let one_after = admitted-le-one ts (can_attempt now b).0 (can_attempt-ne-closed now b h).1 in
      ground (arith, one_after)
]

-- A closed circuit lets every request through and is not changed by it.
pub admitted_of_closed :
    (ts : List ℕ) (b : CircuitBreaker) → b.state ≡ closed → admitted ts b ≡ length ts
unfolding admitted can_attempt
admitted_of_closed [] b h = refl
admitted_of_closed (now ∷ ts) b h = ground (arith, admitted_of_closed ts b h)
