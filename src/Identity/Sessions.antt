-- ===== src/Identity/Sessions.antt =====
-- `AgentSession`, its expiry and its reactivation, of src/asap/auth/identity.py. Times and durations
-- are microseconds, and no duration is negative.
use asap_protocol.Prelude.{
  ℕ, ◌+◌, String, Bool, true, false, not, Option, none, some, ltb, if◌then◌else◌, arith, ◌≡◌, refl,
  ◌↔◌, ◌⊎◌, Result, ok, err,
}
use asap_protocol.Identity.Keys.{Jwk}

pub data AgentMode : Type 0 where
  delegated autonomous : AgentMode

pub data AgentSessionStatus : Type 0 where
  pending active expired revoked rejected : AgentSessionStatus

pub record AgentSession : Type 0 where
  pub agent_id : String
  pub host_id : String
  pub public_key : Jwk
  pub mode : AgentMode
  pub status : AgentSessionStatus
  pub session_ttl : Option ℕ
  pub max_lifetime : Option ℕ
  pub absolute_lifetime : Option ℕ
  pub activated_at : Option ℕ
  pub last_used_at : Option ℕ
  pub created_at : ℕ

abbrev pub is_active : AgentSessionStatus → Bool
is_active active = true
is_active _ = false

abbrev pub is_revoked : AgentSessionStatus → Bool
is_revoked revoked = true
is_revoked _ = false

-- `limit is not None and start is not None and now - start > limit`
unfoldable pub exceeds : ℕ → Option ℕ → Option ℕ → Bool
exceeds now (some start) (some limit) = ltb (start + limit) now
exceeds now _ _ = false

unfoldable pub check_agent_expiry : ℕ → AgentSession → AgentSessionStatus
unfolding exceeds
check_agent_expiry now agent =
    if exceeds now (some agent.created_at) agent.absolute_lifetime
    then revoked
    else if exceeds now agent.activated_at agent.max_lifetime
    then expired
    else if exceeds now agent.last_used_at agent.session_ttl
    then expired
    else active

unfoldable pub extend_session : ℕ → AgentSession → AgentSession
extend_session now agent = record agent { last_used_at = some now }

-- `_REACTIVATABLE_AGENT_STATUSES`
unfoldable pub is_reactivatable : AgentSessionStatus → Bool
is_reactivatable active = true
is_reactivatable expired = true
is_reactivatable _ = false

-- The two `ValueError`s of `reactivate_agent`.
pub data ReactivateError : Type 0 where
  refused_status : AgentSessionStatus → ReactivateError
  exceeded_lifetime : ReactivateError

unfoldable pub reactivate_agent : ℕ → AgentSession → Result ReactivateError AgentSession
unfolding is_reactivatable exceeds
reactivate_agent now agent =
    if not (is_reactivatable agent.status)
    then err (refused_status agent.status)
    else if exceeds now (some agent.created_at) agent.absolute_lifetime
    then err exceeded_lifetime
    else ok (record agent { status = active; activated_at = some now; last_used_at = some now })

exceeds_now : (now : ℕ) (limit : Option ℕ) → exceeds now (some now) limit ≡ false
unfolding exceeds
exceeds_now now none = refl
exceeds_now now (some limit) = ground arith

-- Reactivation succeeds exactly where the status is active or expired and the absolute lifetime is
-- not over, and a session that it returns is active and has not expired at that time.
pub reactivate_agent-ok_iff :
    (now : ℕ) (agent : AgentSession)
    → ((reactivate_agent now agent
          ≡ ok (record agent { status = active; activated_at = some now; last_used_at = some now }))
        ↔ (((agent.status ≡ active) ⊎ (agent.status ≡ expired))
            × (exceeds now (some agent.created_at) agent.absolute_lifetime ≡ false)))
      × ((b : AgentSession)
          → reactivate_agent now agent ≡ ok b
          → (b.status ≡ active) × (check_agent_expiry now b ≡ active))
unfolding reactivate_agent is_reactivatable check_agent_expiry
reactivate_agent-ok_iff now agent = (
  (λ h. ground arith, λ h. ground arith),
  λ b h. ground (arith, exceeds_now now agent.max_lifetime, exceeds_now now agent.session_ttl),
)
