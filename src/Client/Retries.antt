-- ===== src/Client/Retries.antt =====
-- How often `send` posts, and when it gives up.
use asap_protocol.Prelude.{
  ℕ, zero, suc, ◌+◌, ◌≤◌, ◌<◌, Bool, true, false, Option, none, some, leb, nat_beq, arith, ◌≡◌, ◌≢◌,
  ◌-◌, ok, if◌then◌else◌, subst,
}
use native.Mathlib.Nat.{add-zero}
use asap_protocol.Client.Send.{
  bound, Arrival, response, connect_error, timeout, unexpected, connection_error, timeout_error,
  returned, raised, again, SendError, Breaker, fail_at, handle, send_loop, pass_breaker, send,
}

posts_loop :
    (network : ℕ → ℕ × Arrival) (m rounds attempt : ℕ) (last : Option SendError) (b : Breaker)
    → (send_loop network m rounds attempt last b).posts ≤ attempt + rounds
unfolding send_loop
posts_loop network m zero attempt last b = omega arith
posts_loop network m (suc rounds) attempt last b =
    let rest = λ (e : SendError).
      posts_loop network m rounds (attempt + 1) (some e) (handle m attempt (network attempt) b).0 in
    grind (arith, rest)

-- `send` makes at most `max_retries` POSTs, whatever the network does.
pub posts-send-le :
    (network : ℕ → ℕ × Arrival) (m now : ℕ) (b : Breaker) → (send network m now b).posts ≤ m
unfolding send
posts-send-le network m now b = ground (arith, posts_loop network m m 0 none (pass_breaker now b).0)

-- An arrival that the client retries while it has attempts left, and that records nothing then.
abbrev pub is_transient : Arrival → Bool
is_transient (response status body) = if leb 500 status then true else nat_beq status 429
is_transient connect_error = true
is_transient timeout = true
is_transient unexpected = false

handle_transient :
    (m attempt now : ℕ) (x : Arrival) (b : Breaker)
    → is_transient x ≡ true
    → attempt + 1 < m
    → (e : SendError) × (handle m attempt (now, x) b ≡ (b, again e))
unfolding handle
handle_transient m attempt now (response status body) b h k = (connection_error, ground arith)
handle_transient m attempt now connect_error b h k = (connection_error, ground arith)
handle_transient m attempt now timeout b h k = (timeout_error, ground arith)
handle_transient m attempt now unexpected b h k = cc

handle_bound :
    (m attempt now status : ℕ) (b : Breaker)
    → status < 400
    → (handle m attempt (now, response status bound) b).1 ≡ returned
unfolding handle
handle_bound m attempt now status b h = ground arith

reaches :
    (network : ℕ → ℕ × Arrival) (m k : ℕ) (rounds attempt : ℕ) (last : Option SendError)
    (b : Breaker) (now status : ℕ)
    → ((i : ℕ) → i < attempt + k → is_transient (network i).1 ≡ true)
    → network (attempt + k) ≡ (now, response status bound)
    → status < 400
    → attempt + rounds ≡ m
    → k < rounds
    → let out = send_loop network m rounds attempt last b in
      (out.posts ≡ attempt + k + 1) × (out.result ≡ ok tt)
unfolding send_loop
reaches network m k zero attempt last b now status before at below sum less = elim less [ ]
reaches network m zero (suc rounds) attempt last b now status before at below sum less =
    let here : network attempt ≡ (now, response status bound) =
      subst (λ n. network n ≡ (now, response status bound)) (add-zero attempt) at in
    ground (arith, here, handle_bound m attempt now status b below)
reaches network m (suc k) (suc rounds) attempt last b now status before at below sum less =
    let (e, moved) =
      handle_transient m attempt (network attempt).0 (network attempt).1 b
        (before attempt (omega arith)) (omega arith) in
    let one_on : attempt + suc k ≡ attempt + 1 + k = omega arith in
    let later =
      reaches network m k rounds (attempt + 1) (some e) b now status (λ i h. before i (omega arith))
        (subst (λ n. network n ≡ (now, response status bound)) one_on at) below (omega arith)
        (omega arith) in
    ground (arith, moved, later)

-- Where the breaker lets the call through, transient failures (5xx, 429, connection errors,
-- timeouts) before attempt `k`, one of the `max_retries`, and the response envelope of this
-- request to it make `send` return after `k + 1` POSTs.
pub send-returns :
    (network : ℕ → ℕ × Arrival) (m k now at_time status : ℕ) (b : Breaker)
    → (pass_breaker now b).1 ≡ true
    → ((i : ℕ) → i < k → is_transient (network i).1 ≡ true)
    → network k ≡ (at_time, response status bound)
    → status < 400
    → k < m
    → ((send network m now b).posts ≡ k + 1) × ((send network m now b).result ≡ ok tt)
unfolding send
send-returns network m k now at_time status b allowed before at below less =
    let zero_on : k ≡ 0 + k = omega arith in
    let found =
      reaches network m k m 0 none (pass_breaker now b).0 at_time status
        (λ i h. before i (omega arith))
        (subst (λ n. network n ≡ (at_time, response status bound)) zero_on at) below (omega arith)
        less in
    ground (arith, found, allowed)

handle_last :
    (m attempt now : ℕ) (x : Arrival) (b : Breaker)
    → is_transient x ≡ true
    → attempt + 1 ≡ m
    → (e : SendError) × (handle m attempt (now, x) b ≡ (fail_at now b, raised e))
unfolding handle
handle_last m attempt now (response status body) b h k = (connection_error, ground arith)
handle_last m attempt now connect_error b h k = (connection_error, ground arith)
handle_last m attempt now timeout b h k = (timeout_error, ground arith)
handle_last m attempt now unexpected b h k = cc

exhausts :
    (network : ℕ → ℕ × Arrival) (m rounds attempt : ℕ) (last : Option SendError) (b : Breaker)
    → ((i : ℕ) → i < m → is_transient (network i).1 ≡ true)
    → attempt + suc rounds ≡ m
    → let out = send_loop network m (suc rounds) attempt last b in
      (out.posts ≡ m) × (out.breaker ≡ fail_at (network (m - 1)).0 b) × (out.result ≢ ok tt)
unfolding send_loop
exhausts network m zero attempt last b all sum =
    let (e, moved) =
      handle_last m attempt (network attempt).0 (network attempt).1 b (all attempt (omega arith))
        (omega arith) in
    let here : attempt ≡ m - 1 = omega arith in rw (← here) (ground (arith, moved))
exhausts network m (suc rounds) attempt last b all sum =
    let (e, moved) =
      handle_transient m attempt (network attempt).0 (network attempt).1 b
        (all attempt (omega arith)) (omega arith) in
    ground (arith, moved, exhausts network m rounds (attempt + 1) (some e) b all (omega arith))

-- Where every attempt meets a transient failure, `send` posts `max_retries` times, raises, and
-- records one failure with the breaker, at the time of the last attempt.
pub send-exhausts :
    (network : ℕ → ℕ × Arrival) (m now : ℕ) (b : Breaker)
    → (pass_breaker now b).1 ≡ true
    → ((i : ℕ) → i < suc m → is_transient (network i).1 ≡ true)
    → let out = send network (suc m) now b in
      (out.posts ≡ suc m)
      × (out.breaker ≡ fail_at (network m).0 (pass_breaker now b).0)
      × (out.result ≢ ok tt)
unfolding send
send-exhausts network m now b allowed all =
    let last : suc m - 1 ≡ m = omega arith in
    let found = exhausts network (suc m) m 0 none (pass_breaker now b).0 all (omega arith) in
    rw allowed (rw last at found)
