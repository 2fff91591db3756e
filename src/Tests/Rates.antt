-- ===== src/Tests/Rates.antt =====
-- Token buckets, for src/asap/transport/rate_limit.py and src/asap/transport/webhook.py. A token has ten parts.
use asap_protocol.Prelude.{ℕ, ◌+◌, ◌-◌, ◌*◌, ◌≤◌, arith, [], ◌∷◌, List, ◌≡◌, refl}
use asap_protocol.Limits.Bucket.{TokenBucket, consume}
use asap_protocol.Limits.Rates.{consume_all, last_time, consume_all-le, consume_all-none}

abbrev bucket : TokenBucket
bucket = record { one = 10; rate = 2; capacity = 20; tokens = 20; last_refill = 100 }

abbrev calls : List (ℕ × ℕ)
calls = (100, 1) ∷ (101, 2) ∷ (103, 1) ∷ (104, 1) ∷ (110, 1) ∷ []

let_through : (consume_all calls bucket).1 ≡ 3
unfolding consume_all consume
let_through = refl

consume_all-le_example : (consume_all calls bucket).1 * 10 ≤ 20 + (last_time 100 calls - 100) * 2
consume_all-le_example =
    consume_all-le calls bucket
      (omega arith, (omega arith, (omega arith, (omega arith, (omega arith, tt)))))

-- half a token each second is the rate, and the capacity
abbrev small : TokenBucket
small = record { one = 10; rate = 1; capacity = 5; tokens = 5; last_refill = 100 }

consume_all-none_example : (consume_all calls small).1 ≡ 0
consume_all-none_example = consume_all-none calls small (omega arith)
