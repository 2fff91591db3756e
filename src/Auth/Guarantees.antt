-- ===== src/Auth/Guarantees.antt =====
-- What an accepted agent token shows, and what is never accepted again, for
-- src/asap/auth/agent_jwt.py with its stores and its replay cache.
use asap_protocol.Prelude.{
  ℕ, suc, ◌+◌, ◌≤◌, ◌<◌, String, Bool, true, false, Option, none, some, if◌then◌else◌, pair_eq,
  List, Dict, lookup, lookup-insert, ◌==◌, string_eq, Result, ok, arith, ◌≡◌, ◌≢◌, ◌⊎◌, inl, inr,
  refl, sym, ap, ◌∙◌, subst, length, IsUnique, All, holds_at, Bool-cases,
}
use asap_protocol.Json.{ℤ, Value, Fields, get_field}
use asap_protocol.Identity.Sessions.{
  AgentSession, AgentSessionStatus, check_agent_expiry, is_revoked,
}
use asap_protocol.Identity.Agents.{Store, same_thumbprint}
use asap_protocol.Identity.Hosts.{Hosts, HostIdentity, is_revoked_host, revoke_host}
use asap_protocol.Identity.Cascade.{IsValid, lookup-IsKeyed, revoke_host_cascades}
use asap_protocol.Identity.Revocation.{Op, run, is_dead, revoked_row, revoked_stays}
use asap_protocol.Identity.Rotation.{is_current_iff}
use asap_protocol.Replay.Jti.{JtiReplayCache, check_and_record}
use asap_protocol.Replay.Jti.Uses.{Use, use_all, no_double_use}
use asap_protocol.Auth.Claims.{VerifyError, text_of}
use asap_protocol.Auth.Slide.{Clock}
use asap_protocol.Auth.Verify.{VerifiedAgent, use_jti, verify_agent_jwt}
use asap_protocol.Auth.Authentic.{IsAuthentic, agent_claims-IsAuthentic}
use asap_protocol.Auth.Accepted.{IsAccepted, touched_row, verify_agent_jwt-outcomes}

sub_in : Option (Fields × Fields) → Option String
sub_in none = none
sub_in (some (header, payload)) = text_of (get_field "sub" payload)

dead_at : Store → Option String → Bool
dead_at agents none = false
dead_at agents (some id) = is_dead (lookup id agents)

of_host :
    (host_id : String) (agent : AgentSession) (o : Option AgentSession)
    → o ≡ some agent
    → agent.host_id ≡ host_id
    → is_dead (if holds_at (λ a. a.host_id == host_id) o then revoked_row o else o) ≡ true
of_host host_id agent none p h = cc
of_host host_id agent (some a) p h =
    let same : a ≡ agent = cc in
    let home : (a.host_id == host_id) ≡ true =
      (string_eq.beq_iff a.host_id host_id).1 (ap (λ x. x.host_id) same ∙ h) in
    rw home (ground arith)

module _ (digest : Dict String String → String) (float : Value → Option ℤ)
    (unverified : String → Option (Fields × Fields))
    (decode : Fields → String → Option Fields) where
  abbrev answer_of :
      Clock
      → Option (List String)
      → String
      → Hosts
      → Store
      → Store
      → Option JtiReplayCache
      → Option JtiReplayCache × Store × Result VerifyError VerifiedAgent
  answer_of clock audience token hosts agents later cache =
      verify_agent_jwt digest float unverified decode clock audience token hosts agents later cache

  module _ (clock : Clock) (audience : Option (List String)) (token : String) (hosts : Hosts)
      (agents later : Store) (cache : Option JtiReplayCache) where
    -- an acceptance, taken apart
    outcome_parts :
        (w : VerifiedAgent)
        → (answer_of clock audience token hosts agents later cache).2 ≡ ok w
        → (v : VerifiedAgent) × (current : AgentSession) × IsAccepted digest float unverified decode
            clock audience token hosts agents later cache v current
          × (w ≡ record v { agent = touched_row clock current })
          × ((answer_of clock audience token hosts agents later cache).0
              ≡ (use_jti clock.recorded_at true v.agent.agent_id v.jti cache).0)
    outcome_parts w h =
        elim (verify_agent_jwt-outcomes digest float unverified decode clock audience token hosts
          agents later cache) [
            | inl (c, e, q) ↦ let wrong = sym h ∙ ap (λ x. x.2) q in cc
            | inr (v, current, is, q) ↦
                let same = sym h ∙ ap (λ x. x.2) q in (v, current, is, cc, ap (λ x. x.0) q)
          ]

    -- An accepted token is authentic. In the store as it is read again the agent's row is active and not
    -- expired, and has the host and the key that the token was verified with.
    pub verify_agent_jwt-IsAuthentic :
        (w : VerifiedAgent)
        → (answer_of clock audience token hosts agents later cache).2 ≡ ok w
        → (v : VerifiedAgent) × (current : AgentSession) × (w
            ≡ record v { agent = record current { last_used_at = some clock.used_at } })
          × IsAuthentic digest float unverified decode clock.claims_at audience token hosts agents v
          × (lookup v.agent.agent_id later ≡ some current)
          × (current.status ≡ AgentSessionStatus.active)
          × (current.host_id ≡ v.agent.host_id)
          × (same_thumbprint digest v.agent.public_key current.public_key ≡ true)
          × (check_agent_expiry clock.touched_at current ≡ AgentSessionStatus.active)
    verify_agent_jwt-IsAuthentic w h =
        let (v, current, is, same, _) = outcome_parts w h in
        let (live, home, key, young) =
          (is_current_iff digest clock.touched_at v.agent.public_key v.agent.host_id current).0
            is.slid.touched in
        (
          v,
          current,
          same,
          agent_claims-IsAuthentic digest float unverified decode clock.claims_at audience token
              hosts agents v is.claimed,
          is.slid.there,
          live,
          home,
          key,
          young,
        )

    -- A verification leaves every agent's row as it is, but that it may set the time of use of one.
    pub verify_agent_jwt-touches :
        (id : String)
        → let later' = (answer_of clock audience token hosts agents later cache).1 in
          (lookup id later' ≡ lookup id later)
          ⊎ ((current : AgentSession) × (lookup id later ≡ some current)
              × (lookup id later' ≡ some (record current { last_used_at = some clock.used_at })))
    verify_agent_jwt-touches id =
        elim (verify_agent_jwt-outcomes digest float unverified decode clock audience token hosts
          agents later cache) [
            | inl (c, e, q) ↦ inl (ap (λ x. lookup id x.1) q)
            | inr (v, current, is, q) ↦
                let found =
                  ap (λ x. lookup id x.1) q
                  ∙ lookup-insert v.agent.agent_id id (touched_row clock current) later in
                elim (Bool-cases (v.agent.agent_id == id)) [
                  | inl same ↦ inr (
                    current,
                    subst (λ k. lookup k later ≡ some current)
                        ((string_eq.beq_iff v.agent.agent_id id).0 same) is.slid.there,
                    found ∙ rw same refl,
                  )
                  | inr other ↦ inl (found ∙ rw other refl)
                ]
          ]

  -- Once a host that is stored and not revoked is revoked, no token that names one of its agents is
  -- accepted, whatever is done to the store of agents afterwards and with it during the verification.
  pub revoke_host-refuses :
      (now : ℕ) (host_id sub : String) (hs : Hosts) (host : HostIdentity) (agent : AgentSession)
      (ops : List Op) (clock : Clock) (audience : Option (List String)) (token : String)
      (header payload : Fields) (hosts : Hosts) (later : Store) (cache : Option JtiReplayCache)
      (w : VerifiedAgent)
      → IsValid hs.agents
      → lookup host_id hs.hosts ≡ some host
      → is_revoked_host host.status ≡ false
      → lookup sub hs.agents ≡ some agent
      → agent.host_id ≡ host_id
      → unverified token ≡ some (header, payload)
      → text_of (get_field "sub" payload) ≡ some sub
      → (answer_of clock audience token hosts
          (run digest ops (revoke_host now host_id hs).agents)
          later
          cache).2
        ≢ ok w
  unfolding sub_in dead_at
  revoke_host-refuses now host_id sub hs host agent ops clock audience token header payload hosts
        later cache w valid stored live row home parsed named h =
      let after = run digest ops (revoke_host now host_id hs).agents in
      let (v, _, _, auth, _, _, _, _, _) =
        verify_agent_jwt-IsAuthentic clock audience token hosts after later cache w h in
      let cascaded = revoke_host_cascades now host_id hs host sub stored live valid in
      let revoked_then : is_dead (lookup sub (revoke_host now host_id hs).agents) ≡ true =
        ap is_dead cascaded ∙ of_host host_id agent (lookup sub hs.agents) row home in
      let dead = revoked_stays digest ops sub (revoke_host now host_id hs).agents revoked_then in
      let renamed = sym named ∙ ap sub_in (sym parsed ∙ auth.parsed) ∙ auth.named in
      let gone : is_dead (lookup auth.sub after) ≡ true = sym (ap (dead_at after) renamed) ∙ dead in
      let wrong : is_revoked v.agent.status ≡ true = ap is_dead (sym auth.stored) ∙ gone in
      ground (arith, wrong, auth.usable)

  fresh_in : ℕ → String → String → List Use → Option JtiReplayCache → Bool
  fresh_in now partition jti between none = true
  fresh_in now partition jti between (some c) =
      (check_and_record now partition jti (use_all between c)).1

  -- Within the cache's time to live, and where the cache has room for the uses between, the `jti` of an
  -- accepted token is not accepted again for its agent.
  pub verify_agent_jwt-once :
      (clock again : Clock) (audience : Option (List String)) (token token' : String)
      (hosts hosts' : Hosts) (agents later agents' later' : Store) (c c' : JtiReplayCache)
      (between : List Use) (w w' : VerifiedAgent)
      → IsValid later
      → IsValid later'
      → IsUnique c.expiry_by_key
      → length c.expiry_by_key + suc (length between) ≤ c.max_size
      → again.recorded_at < clock.recorded_at + c.ttl
      → All (λ u. u.at_time < clock.recorded_at + c.ttl) between
      → (answer_of clock audience token hosts agents later (some c)).2 ≡ ok w
      → (answer_of clock audience token hosts agents later (some c)).0 ≡ some c'
      → w'.agent.agent_id ≡ w.agent.agent_id
      → w'.jti ≡ w.jti
      → (answer_of again audience token' hosts' agents' later' (some (use_all between c'))).2
        ≢ ok w'
  unfolding fresh_in use_jti
  verify_agent_jwt-once clock again audience token token' hosts hosts' agents later agents' later' c
        c' between w w' valid valid' unique room soon all first kept id jti second =
      let (v, current, is, same, left) =
        outcome_parts clock audience token hosts agents later (some c) w first in
      let (v', current', is', same', _) =
        outcome_parts again audience token' hosts' agents' later' (some (use_all between c')) w'
          second in
      let own = lookup-IsKeyed v.agent.agent_id current later valid.0 is.slid.there in
      let own' = lookup-IsKeyed v'.agent.agent_id current' later' valid'.0 is'.slid.there in
      let one_id : v'.agent.agent_id ≡ v.agent.agent_id =
        sym own'
        ∙ sym (ap (λ x. x.agent.agent_id) same')
        ∙ id
        ∙ ap (λ x. x.agent.agent_id) same
        ∙ own in
      let one_jti : v'.jti ≡ v.jti = sym (ap (λ x. x.jti) same') ∙ jti ∙ ap (λ x. x.jti) same in
      let before : Use = record {
        at_time = clock.recorded_at;
        partition = v.agent.agent_id;
        jti = v.jti;
      } in
      let now : Use = record {
        at_time = again.recorded_at;
        partition = v'.agent.agent_id;
        jti = v'.jti;
      } in
      let refused =
        no_double_use before now between c unique room is.fresh one_id one_jti soon all in
      let recorded : some (check_and_record clock.recorded_at v.agent.agent_id v.jti c).0
          ≡ some c' =
        sym left ∙ kept in
      let wrong : false ≡ true =
        sym refused
        ∙ ap (fresh_in again.recorded_at v'.agent.agent_id v'.jti between) recorded
        ∙ is'.fresh in
      cc
