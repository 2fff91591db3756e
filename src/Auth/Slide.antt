-- ===== src/Auth/Slide.antt =====
-- `slide_session_if_still_current` and its tests, of src/asap/auth/agent_jwt_session.py.
use asap_protocol.Prelude.{
  ℕ, String, Bool, not, Option, none, some, Dict, lookup, ◌==◌, string_eq, Result, ok, err, ◌>>◌,
  raise_if,
}
use asap_protocol.Identity.Keys.{jwk_thumbprint_sha256}
use asap_protocol.Identity.Sessions.{
  AgentSession, AgentSessionStatus, is_active, check_agent_expiry,
}
use asap_protocol.Identity.Agents.{Store, touch_if_current}
use asap_protocol.Auth.Claims.{
  VerifyError, unusable_agent, agent_revoked, agent_expired, unknown_agent, host_changed,
  key_changed, session_changed, raised,
}

-- every status but active is in `_UNUSABLE_AGENT_STATUSES`
unfoldable pub unusable_agent_error : AgentSession → Result VerifyError (Unit {0})
unusable_agent_error agent = raise_if (not (is_active agent.status)) (unusable_agent agent.status)

unfoldable pub expired_agent_error : ℕ → AgentSession → Result VerifyError (Unit {0})
unfolding check_agent_expiry
expired_agent_error now agent = elim (check_agent_expiry now agent) [
  | AgentSessionStatus.revoked ↦ err agent_revoked
  | AgentSessionStatus.expired ↦ err agent_expired
  | _ ↦ ok tt
]

-- The readings of the clock in one verification, each the name of what it is read for.
pub record Clock : Type 0 where
  pub claims_at : ℕ
  pub recorded_at : ℕ
  pub checked_at : ℕ
  pub reread_at : ℕ
  pub used_at : ℕ
  pub touched_at : ℕ

module _ (digest : Dict String String → String) where
  -- none where a thumbprint raises
  unfoldable pub agent_public_key_changed : AgentSession → AgentSession → Option Bool
  agent_public_key_changed current verified =
      elim (jwk_thumbprint_sha256 digest current.public_key) [
        | none ↦ none
        | some a ↦ elim (jwk_thumbprint_sha256 digest verified.public_key) [
          | none ↦ none
          | some b ↦ some (not (a == b))
        ]
      ]

  unfoldable pub key_unchanged : AgentSession → AgentSession → Result VerifyError (Unit {0})
  unfolding agent_public_key_changed
  key_unchanged current verified = elim (agent_public_key_changed current verified) [
    | none ↦ err raised
    | some changed ↦ raise_if changed key_changed
  ]

  -- the tests of the row that is read again
  unfoldable pub check_current : ℕ → AgentSession → AgentSession → Result VerifyError (Unit {0})
  unfolding unusable_agent_error expired_agent_error key_unchanged
  check_current now verified current = do
    unusable_agent_error current
    raise_if (not (current.host_id == verified.host_id)) host_changed
    key_unchanged current verified
    expired_agent_error now current

  unfoldable pub slide_session_if_still_current :
      Clock → AgentSession → Store → Store × Result VerifyError AgentSession
  unfolding check_current
  slide_session_if_still_current clock verified agents = elim (lookup verified.agent_id agents) [
    | none ↦ (agents, err unknown_agent)
    | some current ↦ elim (check_current clock.reread_at verified current) [
      | err e ↦ (agents, err e)
      | ok _ ↦
          let (agents', touched) =
            touch_if_current digest clock.touched_at verified.agent_id verified.public_key
              clock.used_at verified.host_id agents in
          (agents', elim touched [ none ↦ err session_changed | some session ↦ ok session ])
    ]
  ]
