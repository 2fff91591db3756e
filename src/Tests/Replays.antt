-- ===== src/Tests/Replays.antt =====
-- Envelopes and tokens seen twice, for src/asap/transport/validators.py and
-- src/asap/auth/agent_jwt.py.
use asap_protocol.Prelude.{
  ℕ, ◌+◌, ◌*◌, String, false, some, [], ◌∷◌, Dict, lookup, ◌≡◌, ◌≢◌, refl, arith, ok, second,
  string_eq, prune, erase_all, keys_where, is_blank,
}
use asap_protocol.Replay.Nonces.{NonceStore, Reading, check_and_mark}
use asap_protocol.Replay.Envelopes.{
  text, Envelope, Request, validate, validate_all, validate_envelope_timestamp,
  validate_envelope_nonce, no_replay,
}
use asap_protocol.Replay.Jti.{JtiReplayCache, check_and_record}
use asap_protocol.Replay.Jti.Uses.{Use, use_all, no_double_use}

abbrev at_second : ℕ → Reading
at_second n = record {
  cleanup_at = n * second;
  check_at = n * second + 1;
  mark_at = n * second + 2;
  draw_skips = false;
}

abbrev hello : Envelope
hello = record { id = "e1"; timestamp = some (100 * second); nonce = text "n1" }

abbrev other : Envelope
other = record { id = "e2"; timestamp = some (110 * second); nonce = text "n2" }

abbrev sent : ℕ → Envelope → Request
sent n e = record { now = n * second; reading = at_second n; envelope = e }

no_replay_example :
    (validate
      (sent 390 hello)
      (validate_all (sent 111 other ∷ []) (validate (sent 101 hello) (some [])).0)).1
    ≢ ok tt
unfolding validate validate_envelope_timestamp validate_envelope_nonce check_and_mark lookup prune
    erase_all keys_where
no_replay_example =
    no_replay (sent 101 hello) (sent 390 hello) (sent 111 other ∷ []) "n1" [] tt refl refl refl refl
      (omega arith) ((omega arith, omega arith), tt) (omega arith, omega arith)

abbrev nonces : NonceStore
nonces = ("n1", 200 * second) ∷ ("n2", 50 * second) ∷ []

abbrev expiries : Dict String ℕ
expiries = ("a", 30) ∷ ("b", 10) ∷ ("c", 20) ∷ []

abbrev tokens : JtiReplayCache
tokens = record { ttl = 60; max_size = 3; expiry_by_key = (("agent", "j0"), 70) ∷ [] }

abbrev use_of : ℕ → String → Use
use_of t jti = record { at_time = t; partition = "agent"; jti = jti }

no_double_use_example :
    let c' = use_all (use_of 25 "j2" ∷ []) (check_and_record 20 "agent" "j1" tokens).0 in
    (check_and_record 79 "agent" "j1" c').1 ≡ false
unfolding lookup check_and_record is_blank prune erase_all keys_where
no_double_use_example =
    no_double_use (use_of 20 "j1") (use_of 79 "j1") (use_of 25 "j2" ∷ []) tokens (refl, tt)
      (omega arith) refl refl refl (omega arith) (omega arith, tt)
