-- ===== src/Circuit/Tripping.antt =====
-- When a breaker opens and closes.
use asap_protocol.Prelude.{
  ℕ, ◌+◌, ◌≤◌, ◌<◌, Bool, true, false, some, if◌then◌else◌, arith, List, [], ◌∷◌, ◌≡◌, refl, leb,
  not,
}
use asap_protocol.Circuit.Breaker.{
  is_closed, CircuitBreaker, closed, opened, fresh, record_success, record_failure, can_attempt,
  Event, attempt, failure, success, step,
}

-- The longest run of failures that no success interrupts, `n` of them so far.
unfoldable pub longest_streak : ℕ → List Event → ℕ
longest_streak n [] = n
longest_streak n (attempt _ ∷ es) = longest_streak n es
longest_streak n (failure _ ∷ es) = longest_streak (n + 1) es
longest_streak n (success ∷ es) = let rest = longest_streak 0 es in if leb n rest then rest else n

longest_streak-le : (n : ℕ) (es : List Event) → n ≤ longest_streak n es
unfolding longest_streak
longest_streak-le n [] = omega arith
longest_streak-le n (attempt _ ∷ es) = longest_streak-le n es
longest_streak-le n (failure _ ∷ es) = omega (arith, longest_streak-le (n + 1) es)
longest_streak-le n (success ∷ es) = ground arith

-- Whether the circuit is seen not closed at some point of a run.
unfoldable pub leaves_closed : List Event → CircuitBreaker → Bool
leaves_closed [] b = not (is_closed b.state)
leaves_closed (e ∷ es) b =
    let rest = leaves_closed es (step e b) in if is_closed b.state then rest else true

leaves_closed-ne :
    (es : List Event) (b : CircuitBreaker) → is_closed b.state ≡ false → leaves_closed es b ≡ true
unfolding leaves_closed
leaves_closed-ne [] b h = ground arith
leaves_closed-ne (e ∷ es) b h = ground arith

attempt_closed : (now : ℕ) (b : CircuitBreaker) → b.state ≡ closed → step (attempt now) b ≡ b
unfolding step can_attempt
attempt_closed now b h = ground arith

leaves_closed_lem :
    (es : List Event) (b : CircuitBreaker)
    → b.state ≡ closed
    → b.consecutive_failures < b.threshold
    → leaves_closed es b ≡ leb b.threshold (longest_streak b.consecutive_failures es)
unfolding leaves_closed longest_streak step record_success record_failure
leaves_closed_lem [] b h k = ground arith
leaves_closed_lem (attempt now ∷ es) b h k =
    ground (arith, attempt_closed now b h, leaves_closed_lem es b h k)
leaves_closed_lem (failure now ∷ es) b h k = ground (
  arith,
  longest_streak-le (b.consecutive_failures + 1) es,
  leaves_closed-ne es (step (failure now) b),
  leaves_closed_lem es (step (failure now) b),
)
leaves_closed_lem (success ∷ es) b h k = ground (arith, leaves_closed_lem es (step success b))

-- A new breaker of a positive threshold leaves the closed state in a run exactly when, somewhere
-- in it, `threshold` failures are recorded with no success between them.
pub opens_iff_streak :
    (threshold timeout : ℕ) (es : List Event)
    → 0 < threshold
    → leaves_closed es (fresh threshold timeout) ≡ leb threshold (longest_streak 0 es)
unfolding fresh
opens_iff_streak threshold timeout es h = leaves_closed_lem es (fresh threshold timeout) refl h

-- The probe of an open circuit whose timeout has passed decides: a success closes it with no
-- failure counted, and a failure at `later` opens it again, so that until `later + timeout` every
-- request is refused.
pub probe_outcome :
    (now t later again : ℕ) (b : CircuitBreaker)
    → b.state ≡ opened
    → b.last_failure_time ≡ some t
    → t + b.timeout ≤ now
    → let probing = (can_attempt now b).0 in
      ((record_success probing).state ≡ closed)
      × ((record_success probing).consecutive_failures ≡ 0)
      × ((record_failure later probing).state ≡ opened)
      × (again < later + b.timeout → (can_attempt again (record_failure later probing)).1 ≡ false)
unfolding can_attempt record_success record_failure
probe_outcome now t later again b h k l =
    (ground arith, ground arith, ground arith, λ m. ground arith)
