-- ===== src/Limits/Rates.antt =====
-- How much a token bucket lets through, for src/asap/transport/rate_limit.py and
-- src/asap/transport/webhook.py.
use asap_protocol.Prelude.{
  ℕ, zero, suc, ◌+◌, ◌-◌, ◌*◌, ◌≤◌, ◌<◌, true, false, if◌then◌else◌, leb, List, [], ◌∷◌, arith, ◌≡◌,
  refl, subst, Bool-cases, inl, inr,
}
use asap_protocol.Limits.Bucket.{TokenBucket, refill, consume, missing}

-- the bucket after requests for tokens, each with its time, and how many tokens were let through
unfoldable pub consume_all : List (ℕ × ℕ) → TokenBucket → TokenBucket × ℕ
consume_all [] b = (b, 0)
consume_all ((now, n) ∷ calls) b =
    let (b', ok) = consume now n b in
    let (b'', total) = consume_all calls b' in (b'', (if ok then n else 0) + total)

-- The times do not decrease from `t`.
abbrev pub IsOrdered : ℕ → List (ℕ × ℕ) → Type 0
IsOrdered t [] = Unit {0}
IsOrdered t ((now, n) ∷ calls) = (t ≤ now) × IsOrdered now calls

abbrev pub last_time : ℕ → List (ℕ × ℕ) → ℕ
last_time t [] = t
last_time t ((now, n) ∷ calls) = last_time now calls

sub_mul : (a b r : ℕ) → a ≤ b → (b - a) * r + a * r ≡ b * r
sub_mul a b zero h = omega arith
sub_mul a b (suc r) h = omega (arith, sub_mul a b r h)

leb_le : (a b : ℕ) → leb a b ≡ true → a ≤ b
leb_le a b h = ground arith

-- What a request takes and what it leaves is no more than what was there and what has come in.
consume-spends :
    (now n : ℕ) (b : TokenBucket)
    → b.last_refill ≤ now
    → let (b', ok) = consume now n b in
      ((if ok then n else 0) * b.one + b'.tokens + b.last_refill * b.rate
        ≤ b.tokens + b'.last_refill * b.rate)
      × (b'.last_refill ≤ now)
      × (b'.rate ≡ b.rate)
      × (b'.one ≡ b.one)
unfolding consume refill
consume-spends now zero b h = (omega arith, h, refl, refl)
consume-spends now (suc m) b h = elim (Bool-cases (leb (suc m * b.one) (refill now b).tokens)) [
  | inl enough ↦ rw enough (
    omega (
      arith,
      sub_mul b.last_refill now b.rate h,
      leb_le (suc m * b.one) (refill now b).tokens enough,
    ),
    omega arith,
    refl,
    refl,
  )
  | inr short ↦
      rw short (omega (arith, sub_mul b.last_refill now b.rate h), omega arith, refl, refl)
]

both_spend :
    (x y o o' r r' l l' l'' t t' t'' : ℕ)
    → o' ≡ o
    → r' ≡ r
    → x * o + t' + l * r ≤ t + l' * r
    → y * o' + t'' + l' * r' ≤ t' + l'' * r'
    → (x + y) * o + t'' + l * r ≤ t + l'' * r
both_spend x y o o' r r' l l' l'' t t' t'' p q h k =
    let k' : y * o + t'' + l' * r ≤ t' + l'' * r =
      subst (λ z. y * z + t'' + l' * r ≤ t' + l'' * r) p
        (subst (λ z. y * o' + t'' + l' * z ≤ t' + l'' * z) q k) in
    omega (arith, h, k')

consume_all-spends :
    (calls : List (ℕ × ℕ)) (t : ℕ) (b : TokenBucket)
    → b.last_refill ≤ t
    → IsOrdered t calls
    → let (b', total) = consume_all calls b in
      (total * b.one + b'.tokens + b.last_refill * b.rate ≤ b.tokens + b'.last_refill * b.rate)
      × (b'.last_refill ≤ last_time t calls)
unfolding consume_all
consume_all-spends [] t b h o = (omega arith, h)
consume_all-spends ((now, n) ∷ calls) t b h (le, o) =
    let b' = (consume now n b).0 in
    let (spent, before, same_rate, same_one) = consume-spends now n b (omega arith) in
    let (spends, late) = consume_all-spends calls now b' before o in
    (
      both_spend (if (consume now n b).1 then n else 0) (consume_all calls b').1 b.one b'.one b.rate
          b'.rate b.last_refill b'.last_refill (consume_all calls b').0.last_refill b.tokens
          b'.tokens (consume_all calls b').0.tokens same_one same_rate spent spends,
      late,
    )

mul_le : (r u v : ℕ) → u ≤ v → u * r ≤ v * r
mul_le zero u v h = omega arith
mul_le (suc r) u v h = omega (arith, mul_le r u v h, h)

ordered-le : (calls : List (ℕ × ℕ)) (t : ℕ) → IsOrdered t calls → t ≤ last_time t calls
ordered-le [] t o = omega arith
ordered-le ((now, n) ∷ calls) t (le, o) = omega (arith, le, ordered-le calls now o)

-- In any run of requests over a clock that does not run backwards, the tokens let through are no
-- more than those that were there and those that came in between the last refill and the last
-- request, at the rate of the bucket.
pub consume_all-le :
    (calls : List (ℕ × ℕ)) (b : TokenBucket)
    → IsOrdered b.last_refill calls
    → (consume_all calls b).1 * b.one
      ≤ b.tokens + (last_time b.last_refill calls - b.last_refill) * b.rate
consume_all-le calls b o =
    let (spends, late) = consume_all-spends calls b.last_refill b (omega arith) o in
    let T = last_time b.last_refill calls in
    let start = ordered-le calls b.last_refill o in
    omega (
      arith,
      spends,
      mul_le b.rate (consume_all calls b).0.last_refill T late,
      sub_mul b.last_refill T b.rate start,
    )

le_leb : (a b : ℕ) → a ≤ b → leb a b ≡ true
le_leb a b h = ground arith

lack : (a t d : ℕ) → leb a t ≡ false → (if leb a t then 0 else a - t) ≤ d → a ≤ t + d
lack a t d h k = ground arith

-- A token is there as soon as the missing parts have come in, where the bucket can hold one: the wait that
-- the bucket tells is long enough.
pub missing-consume :
    (now later : ℕ) (b : TokenBucket)
    → now ≤ later
    → b.one ≤ b.capacity
    → (missing now b).1 ≤ (later - now) * b.rate
    → (consume later 1 (missing now b).0).1 ≡ true
unfolding consume missing refill
missing-consume now later b h room wait = elim (Bool-cases (leb b.one (refill now b).tokens)) [
  | inl there ↦
      rw
        (le_leb (1 * b.one) (refill later (refill now b)).tokens
          (omega (arith, leb_le b.one (refill now b).tokens there)))
        refl
  | inr short ↦
      rw
        (le_leb (1 * b.one) (refill later (refill now b)).tokens (
          omega
            (arith, lack b.one (refill now b).tokens ((later - now) * b.rate) short wait, room)))
        refl
]

consume-none :
    (now n : ℕ) (b : TokenBucket)
    → b.capacity < b.one
    → ((if (consume now n b).1 then n else 0) ≡ 0)
      × ((consume now n b).0.capacity < (consume now n b).0.one)
unfolding consume refill
consume-none now zero b h = (refl, h)
consume-none now (suc m) b h = elim (Bool-cases (leb (suc m * b.one) (refill now b).tokens)) [
  | inl enough ↦
      let wrong = leb_le (suc m * b.one) (refill now b).tokens enough in
      absurd (omega (arith, h, wrong))
  | inr short ↦ rw short (refl, h)
]

-- A bucket that cannot hold a whole token lets no token through, whenever it is asked.
pub consume_all-none :
    (calls : List (ℕ × ℕ)) (b : TokenBucket) → b.capacity < b.one → (consume_all calls b).1 ≡ 0
unfolding consume_all
consume_all-none [] b h = refl
consume_all-none ((now, n) ∷ calls) b h =
    let (nothing, kept) = consume-none now n b h in
    omega (arith, nothing, consume_all-none calls (consume now n b).0 kept)
