-- ===== src/Replay/Jti.antt =====
-- `JtiReplayCache` of src/asap/auth/agent_jwt.py: the `jti` claims seen, each with its expiry, under
-- a partition key. An operation reads the clock once.
use native.Mathlib.Nat.{le_refl}
pub mod Uses
use asap_protocol.Replay.Eviction.{
  evict_to_max_size, evict_to_max_size-length, evict_to_max_size-IsUnique, evict_to_max_size_fits,
}
use asap_protocol.Prelude.{
  is_blank, ℕ, zero, suc, ◌+◌, ◌≤◌, ◌<◌, String, Bool, true, false, ◌&&◌, ◌||◌, Option, none, some,
  ltb, leb, nat_beq, if◌then◌else◌, arith, ◌≡◌, ◌≢◌, refl, Dict, lookup, insert, erase, prune,
  holds_at, length, IsUnique, lookup-insert, lookup-erase, lookup-prune, prune-IsUnique,
  insert-IsUnique, erase-IsUnique, pair_eq, string_eq, List, [], ◌∷◌, ◌⊎◌, inl, inr, pair_beq_iff,
  All, beq_refl, subst, sym, length-erase-lt, length-prune-le, length-insert,
}

abbrev pub Key : Type 0
Key = String × String

pub record JtiReplayCache : Type 0 where
  pub ttl : ℕ
  pub max_size : ℕ
  pub expiry_by_key : Dict Key ℕ

unfoldable pub prune_expired : ℕ → Dict Key ℕ → Dict Key ℕ
prune_expired now d = prune (λ exp. leb exp now) d

-- `key in d and d[key] > now`
unfoldable pub is_recorded : ℕ → Key → Dict Key ℕ → Bool
is_recorded now key d = holds_at (λ exp. ltb now exp) (lookup key d)

unfoldable pub contains_jti : ℕ → String → String → JtiReplayCache → JtiReplayCache × Bool
unfolding prune_expired is_recorded
contains_jti now partition jti c =
    if is_blank jti
    then (c, false)
    else let d = prune_expired now c.expiry_by_key in
      (record c { expiry_by_key = d }, is_recorded now (partition, jti) d)

-- the new cache, and whether this is the first use
unfoldable pub check_and_record : ℕ → String → String → JtiReplayCache → JtiReplayCache × Bool
unfolding prune_expired is_recorded evict_to_max_size
check_and_record now partition jti c =
    if is_blank jti
    then (c, false)
    else let d = prune_expired now c.expiry_by_key in
      if is_recorded now (partition, jti) d then (record c { expiry_by_key = d }, false) else (
        record c {
          expiry_by_key = evict_to_max_size c.max_size (insert (partition, jti) (now + c.ttl) d);
        },
        true,
      )

-- What holds of a cache between two operations.
pub record IsValid (c : JtiReplayCache) : Type 0 where
  pub unique : IsUnique c.expiry_by_key
  pub bounded : length c.expiry_by_key ≤ c.max_size

prune_expired-IsUnique : (now : ℕ) (d : Dict Key ℕ) → IsUnique d → IsUnique (prune_expired now d)
unfolding prune_expired
prune_expired-IsUnique now d u = prune-IsUnique (λ exp. leb exp now) d u

prune_expired-length : (now : ℕ) (d : Dict Key ℕ) → length (prune_expired now d) ≤ length d
unfolding prune_expired
prune_expired-length now d = length-prune-le (λ exp. leb exp now) d

-- `check_and_record` keeps each key once and no more than `max_size` of them.
pub check_and_record-IsValid :
    (now : ℕ) (partition jti : String) (c : JtiReplayCache)
    → IsValid c
    → IsValid (check_and_record now partition jti c).0
unfolding check_and_record
check_and_record-IsValid now partition jti c v =
    let pruned = prune_expired-IsUnique now c.expiry_by_key v.unique in
    let d = prune_expired now c.expiry_by_key in
    let grown = insert-IsUnique (partition, jti) (now + c.ttl) d pruned in
    let d' = insert (partition, jti) (now + c.ttl) d in
    ground (
      arith,
      pruned,
      prune_expired-length now c.expiry_by_key,
      evict_to_max_size-IsUnique c.max_size d' grown,
      evict_to_max_size-length c.max_size d' grown,
    )
