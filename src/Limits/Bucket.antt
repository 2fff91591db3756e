-- ===== src/Limits/Bucket.antt =====
-- `WebSocketTokenBucket` of src/asap/transport/rate_limit.py and `_URLTokenBucket` of
-- src/asap/transport/webhook.py, which have one body. Tokens are counted in parts, of which `one` make a
-- token, and the rate is in parts for each microsecond, so that a rate need not be a whole number.
use asap_protocol.Prelude.{
  ℕ, zero, suc, ◌+◌, ◌-◌, ◌*◌, min, Bool, true, false, Option, none, some, if◌then◌else◌, leb,
  second,
}

pub record TokenBucket : Type 0 where
  pub one : ℕ
  pub rate : ℕ
  pub capacity : ℕ
  pub tokens : ℕ
  pub last_refill : ℕ

-- A bucket holds as many tokens as come in a second, unless a capacity is given.
abbrev pub capacity_or : Option ℕ → ℕ → ℕ
capacity_or none rate = rate * second
capacity_or (some c) rate = c

-- none where the rate is not positive
unfoldable pub new_bucket : ℕ → ℕ → Option ℕ → ℕ → Option TokenBucket
new_bucket one zero capacity now = none
new_bucket one (suc r) capacity now = some (record {
  one = one;
  rate = suc r;
  capacity = capacity_or capacity (suc r);
  tokens = capacity_or capacity (suc r);
  last_refill = now;
})

-- the monotonic clock does not run backwards, so nothing is lost in the subtraction
unfoldable pub refill : ℕ → TokenBucket → TokenBucket
refill now b = record b {
  tokens = min b.capacity (b.tokens + (now - b.last_refill) * b.rate);
  last_refill = now;
}

-- `n <= 0` is let through
unfoldable pub consume : ℕ → ℕ → TokenBucket → TokenBucket × Bool
unfolding refill
consume now zero b = (b, true)
consume now (suc m) b =
    let r = refill now b in
    if leb (suc m * b.one) r.tokens
    then (record r { tokens = r.tokens - suc m * b.one }, true)
    else (r, false)

-- `seconds_until_available`, times the rate: the parts that are missing, and none where a token is there
unfoldable pub missing : ℕ → TokenBucket → TokenBucket × ℕ
unfolding refill
missing now b = let r = refill now b in (r, if leb b.one r.tokens then 0 else b.one - r.tokens)
