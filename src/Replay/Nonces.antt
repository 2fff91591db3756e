-- ===== src/Replay/Nonces.antt =====
-- `InMemoryNonceStore` of src/asap/transport/validators.py: nonces with the time at which each
-- expires. An operation reads `time.time()` up to three times, and the random draw of the cleanup
-- is an argument.
use native.Mathlib.Nat.{le_refl}
use asap_protocol.Prelude.{
  ℕ, ◌+◌, ◌≤◌, String, Bool, true, false, ◌&&◌, some, ltb, leb, if◌then◌else◌, arith, ◌≡◌, Dict,
  lookup, insert, prune, holds_at, length, IsUnique, lookup-insert, lookup-prune, prune-IsUnique,
  insert-IsUnique, string_eq, beq_refl,
}

abbrev pub NonceStore : Type 0
NonceStore = Dict String ℕ

abbrev pub max_nonce_store_size : ℕ
max_nonce_store_size = 50000

-- What one operation reads from its environment: three times, in this order, and whether the random
-- draw says to skip the cleanup.
pub record Reading : Type 0 where
  pub cleanup_at : ℕ
  pub check_at : ℕ
  pub mark_at : ℕ
  pub draw_skips : Bool

unfoldable pub cleanup_expired : Reading → NonceStore → NonceStore
cleanup_expired r store =
    if leb (length store) max_nonce_store_size && r.draw_skips
    then store
    else prune (λ expiry. ltb expiry r.cleanup_at) store

-- `nonce in self._store and self._store[nonce] >= time.time()`
unfoldable pub is_used : ℕ → String → NonceStore → Bool
is_used now nonce store = holds_at (λ expiry. leb now expiry) (lookup nonce store)

-- the new store, and whether the nonce had been used
unfoldable pub check_and_mark : Reading → String → ℕ → NonceStore → NonceStore × Bool
unfolding cleanup_expired is_used
check_and_mark r nonce ttl store =
    let store' = cleanup_expired r store in
    if is_used r.check_at nonce store'
    then (store', true)
    else (insert nonce (r.mark_at + ttl) store', false)

-- The nonce is recorded until `t` at least.
abbrev pub IsHeld : String → ℕ → NonceStore → Type 0
IsHeld n t store = (expiry : ℕ) × (lookup n store ≡ some expiry) × (t ≤ expiry)

cleanup_expired-IsUnique :
    (r : Reading) (store : NonceStore) → IsUnique store → IsUnique (cleanup_expired r store)
unfolding cleanup_expired
cleanup_expired-IsUnique r store h =
    ground (arith, prune-IsUnique (λ (x : ℕ). ltb x r.cleanup_at) store h)

pub check_and_mark-IsUnique :
    (r : Reading) (n : String) (ttl : ℕ) (store : NonceStore)
    → IsUnique store
    → IsUnique (check_and_mark r n ttl store).0
unfolding check_and_mark
check_and_mark-IsUnique r n ttl store h =
    let cleaned = cleanup_expired-IsUnique r store h in
    ground (arith, cleaned, insert-IsUnique n (r.mark_at + ttl) (cleanup_expired r store) cleaned)

cleanup_expired-IsHeld :
    (r : Reading) (n : String) (t : ℕ) (store : NonceStore)
    → IsUnique store
    → r.cleanup_at ≤ t
    → IsHeld n t store
    → IsHeld n t (cleanup_expired r store)
unfolding cleanup_expired
cleanup_expired-IsHeld r n t store u h (expiry, at, le) =
    (expiry, ground (arith, lookup-prune (λ (x : ℕ). ltb x r.cleanup_at) n store u), le)

-- A nonce that is held until `t` is still held until `t` after any operation up to `t`.
pub check_and_mark-IsHeld :
    (r : Reading) (n m : String) (t ttl : ℕ) (store : NonceStore)
    → IsUnique store
    → r.cleanup_at ≤ t
    → r.check_at ≤ t
    → IsHeld n t store
    → IsHeld n t (check_and_mark r m ttl store).0
unfolding check_and_mark is_used
check_and_mark-IsHeld r n m t ttl store u h k held =
    let (expiry, at, le) = cleanup_expired-IsHeld r n t store u h held in
    (
      expiry,
      ground (
        arith,
        at,
        lookup-insert m n (r.mark_at + ttl) (cleanup_expired r store),
        string_eq.beq_iff m n,
      ),
      le,
    )

-- Where each nonce is recorded once and the check reads the clock no earlier than the cleanup, the
-- answer is that of the nonce's record, with the cleanup or without: the nonce counts as used
-- exactly when it is recorded with an expiry that the check has not passed.
pub check_and_mark_exact :
    (r : Reading) (n : String) (ttl : ℕ) (store : NonceStore)
    → IsUnique store
    → r.cleanup_at ≤ r.check_at
    → (check_and_mark r n ttl store).1 ≡ is_used r.check_at n store
unfolding check_and_mark cleanup_expired is_used
check_and_mark_exact r n ttl store u h =
    ground (arith, lookup-prune (λ (x : ℕ). ltb x r.cleanup_at) n store u)

pub check_and_mark_held :
    (r : Reading) (n : String) (t ttl : ℕ) (store : NonceStore)
    → IsUnique store
    → r.cleanup_at ≤ t
    → r.check_at ≤ t
    → IsHeld n t store
    → (check_and_mark r n ttl store).1 ≡ true
unfolding check_and_mark is_used
check_and_mark_held r n t ttl store u h k held =
    let (expiry, at, le) = cleanup_expired-IsHeld r n t store u h held in ground (arith, at)

pub check_and_mark_fresh :
    (r : Reading) (n : String) (ttl : ℕ) (store : NonceStore)
    → (check_and_mark r n ttl store).1 ≡ false
    → IsHeld n (r.mark_at + ttl) (check_and_mark r n ttl store).0
unfolding check_and_mark
check_and_mark_fresh r n ttl store h = (
  r.mark_at + ttl,
  ground (arith, lookup-insert n n (r.mark_at + ttl) (cleanup_expired r store), beq_refl n),
  le_refl _,
)
