-- ===== src/Replay/Jti/Uses.antt =====
-- Sequences of uses of tokens against one `jti` cache.
use mathlib.Core.Path.{ap₂}
use native.Mathlib.Nat.{le_refl}
use asap_protocol.Prelude.{
  ℕ, suc, ◌+◌, ◌≤◌, ◌<◌, String, true, false, some, leb, arith, ◌≡◌, Dict, lookup, insert, length,
  IsUnique, lookup-insert, lookup-prune, insert-IsUnique, pair_eq, string_eq, List, [], ◌∷◌, ◌⊎◌,
  inl, inr, pair_beq_iff, All, beq_refl, subst, sym, length-insert,
}
use asap_protocol.Replay.Eviction.{evict_to_max_size_fits}
use asap_protocol.Replay.Jti.{
  Key, JtiReplayCache, prune_expired, is_recorded, check_and_record, prune_expired-IsUnique,
  prune_expired-length,
}

-- A use of a token: when, and under which key.
pub record Use : Type 0 where
  pub at_time : ℕ
  pub partition : String
  pub jti : String

-- the cache after a sequence of uses
unfoldable pub use_all : List Use → JtiReplayCache → JtiReplayCache
use_all [] c = c
use_all (u ∷ us) c = use_all us (check_and_record u.at_time u.partition u.jti c).0

-- Recorded until after `t`, with room for `room` more keys.
record IsKept (k : Key) (t room : ℕ) (c : JtiReplayCache) : Type 0 where
  unique : IsUnique c.expiry_by_key
  fits : length c.expiry_by_key + room ≤ c.max_size
  held : (expiry : ℕ) × (lookup k c.expiry_by_key ≡ some expiry) × (t ≤ expiry)

prune_expired_held :
    (now t : ℕ) (k : Key) (d : Dict Key ℕ) (expiry : ℕ)
    → IsUnique d
    → now < t
    → t ≤ expiry
    → lookup k d ≡ some expiry
    → lookup k (prune_expired now d) ≡ some expiry
unfolding prune_expired
prune_expired_held now t k d expiry u h le at =
    ground (arith, lookup-prune (λ (x : ℕ). leb x now) k d u)

abbrev grow : ℕ → Key → JtiReplayCache → Dict Key ℕ
grow now k c = insert k (now + c.ttl) (prune_expired now c.expiry_by_key)

check_and_record-grow :
    (now : ℕ) (partition jti : String) (c : JtiReplayCache)
    → length c.expiry_by_key + 1 ≤ c.max_size
    → ((check_and_record now partition jti c
          ≡ (record c { expiry_by_key = grow now (partition, jti) c }, true))
        × (is_recorded now (partition, jti) (prune_expired now c.expiry_by_key) ≡ false))
      ⊎ ((check_and_record now partition jti c
            ≡ (record c { expiry_by_key = prune_expired now c.expiry_by_key }, false))
          ⊎ (check_and_record now partition jti c ≡ (c, false)))
unfolding check_and_record
check_and_record-grow now partition jti c fits = ground (
  arith,
  prune_expired-length now c.expiry_by_key,
  evict_to_max_size_fits c.max_size (grow now (partition, jti) c),
  length-insert (partition, jti) (now + c.ttl) (prune_expired now c.expiry_by_key),
)

grow-IsKept :
    (now : ℕ) (i k : Key) (t room : ℕ) (c : JtiReplayCache)
    → now < t
    → is_recorded now i (prune_expired now c.expiry_by_key) ≡ false
    → IsKept k t (suc room) c
    → IsKept k t room (record c { expiry_by_key = grow now i c })
unfolding is_recorded
grow-IsKept now i k t room c soon fresh kept =
    let d = prune_expired now c.expiry_by_key in
    let (expiry, at, le) = kept.held in
    let still = prune_expired_held now t k c.expiry_by_key expiry kept.unique soon le at in
    record {
      unique =
          insert-IsUnique i (now + c.ttl) d
            (prune_expired-IsUnique now c.expiry_by_key kept.unique);
      fits = ground (
        arith,
        kept.fits,
        length-insert i (now + c.ttl) d,
        prune_expired-length now c.expiry_by_key,
      );
      held =
          (expiry, ground (arith, still, lookup-insert i k (now + c.ttl) d, pair_beq_iff i k), le);
    }

pruned-IsKept :
    (now : ℕ) (k : Key) (t room : ℕ) (c : JtiReplayCache)
    → now < t
    → IsKept k t (suc room) c
    → IsKept k t room (record c { expiry_by_key = prune_expired now c.expiry_by_key })
pruned-IsKept now k t room c soon kept =
    let (expiry, at, le) = kept.held in
    record {
      unique = prune_expired-IsUnique now c.expiry_by_key kept.unique;
      fits = omega (arith, kept.fits, prune_expired-length now c.expiry_by_key);
      held = (expiry, prune_expired_held now t k c.expiry_by_key expiry kept.unique soon le at, le);
    }

check_and_record-IsKept :
    (u : Use) (k : Key) (t room : ℕ) (c : JtiReplayCache)
    → u.at_time < t
    → IsKept k t (suc room) c
    → IsKept k t room (check_and_record u.at_time u.partition u.jti c).0
check_and_record-IsKept u k t room c soon kept =
    elim (check_and_record-grow u.at_time u.partition u.jti c (omega (arith, kept.fits))) [
      | inl (grown, fresh) ↦
          rw grown (grow-IsKept u.at_time (u.partition, u.jti) k t room c soon fresh kept)
      | inr (inl pruned) ↦ rw pruned (pruned-IsKept u.at_time k t room c soon kept)
      | inr (inr same) ↦
          rw same
            (record { unique = kept.unique; fits = omega (arith, kept.fits); held = kept.held })
    ]

use_all-IsKept :
    (us : List Use) (k : Key) (t : ℕ) (c : JtiReplayCache)
    → All (λ u. u.at_time < t) us
    → IsKept k t (length us) c
    → IsKept k t 0 (use_all us c)
unfolding use_all
use_all-IsKept [] k t c soon kept = kept
use_all-IsKept (u ∷ us) k t c soon kept =
    use_all-IsKept us k t (check_and_record u.at_time u.partition u.jti c).0 soon.1
      (check_and_record-IsKept u k t (length us) c soon.0 kept)

recorded-IsKept :
    (u : Use) (room : ℕ) (c : JtiReplayCache)
    → IsUnique c.expiry_by_key
    → length c.expiry_by_key + suc room ≤ c.max_size
    → (check_and_record u.at_time u.partition u.jti c).1 ≡ true
    → IsKept
        (u.partition, u.jti)
        (u.at_time + c.ttl)
        room
        (check_and_record u.at_time u.partition u.jti c).0
recorded-IsKept u room c unique fits new =
    elim (check_and_record-grow u.at_time u.partition u.jti c (omega arith)) [
      | inl (grown, fresh) ↦
          let k : Key = (u.partition, u.jti) in
          let d = prune_expired u.at_time c.expiry_by_key in
          rw grown (record {
            unique =
                insert-IsUnique k (u.at_time + c.ttl) d
                  (prune_expired-IsUnique u.at_time c.expiry_by_key unique);
            fits = ground (
              arith,
              length-insert k (u.at_time + c.ttl) d,
              prune_expired-length u.at_time c.expiry_by_key,
            );
            held = (
              u.at_time + c.ttl,
              ground (arith, lookup-insert k k (u.at_time + c.ttl) d, beq_refl k),
              le_refl _,
            );
          })
      | inr (inl pruned) ↦ absurd (ground (arith, pruned))
      | inr (inr same) ↦ absurd (ground (arith, same))
    ]

kept_is_refused :
    (u : Use) (t room : ℕ) (c : JtiReplayCache)
    → u.at_time < t
    → IsKept (u.partition, u.jti) t room c
    → (check_and_record u.at_time u.partition u.jti c).1 ≡ false
unfolding check_and_record is_recorded
kept_is_refused u t room c soon kept =
    let (expiry, at, le) = kept.held in
    ground (
      arith,
      prune_expired_held u.at_time t (u.partition, u.jti) c.expiry_by_key expiry kept.unique soon le
          at,
    )

-- No double use: once a token is accepted, where the cache holds each key once and has room for it
-- and for all the uses between, and these come within its window of `ttl`, every use of it within that
-- window is refused.
pub no_double_use :
    (first again : Use) (between : List Use) (c : JtiReplayCache)
    → IsUnique c.expiry_by_key
    → length c.expiry_by_key + suc (length between) ≤ c.max_size
    → (check_and_record first.at_time first.partition first.jti c).1 ≡ true
    → again.partition ≡ first.partition
    → again.jti ≡ first.jti
    → again.at_time < first.at_time + c.ttl
    → All (λ u. u.at_time < first.at_time + c.ttl) between
    → let c' = use_all between (check_and_record first.at_time first.partition first.jti c).0 in
      (check_and_record again.at_time again.partition again.jti c').1 ≡ false
no_double_use first again between c unique fits new p j soon all =
    let t = first.at_time + c.ttl in
    let kept =
      use_all-IsKept between (first.partition, first.jti) t _ all
        (recorded-IsKept first (length between) c unique fits new) in
    let c' = use_all between (check_and_record first.at_time first.partition first.jti c).0 in
    kept_is_refused again t 0 c' soon
      (subst (λ k. IsKept k t 0 c') (sym (ap₂ (λ a b. (a, b)) p j)) kept)
