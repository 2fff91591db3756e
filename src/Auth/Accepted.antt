-- ===== src/Auth/Accepted.antt =====
-- The two outcomes of `slide_session_if_still_current` and of `verify_agent_jwt`, for
-- src/asap/auth/agent_jwt_session.py and src/asap/auth/agent_jwt.py.
use asap_protocol.Prelude.{
  String, true, Option, none, some, if◌then◌else◌, List, Dict, lookup, insert, string_eq, Result,
  ok, err, ◌≡◌, ◌⊎◌, inl, inr, refl, Bool-cases,
}
use asap_protocol.Json.{ℤ, Value, Fields}
use asap_protocol.Identity.Sessions.{AgentSession}
use asap_protocol.Identity.Agents.{Store, is_current, touch_if_current}
use asap_protocol.Identity.Hosts.{Hosts}
use asap_protocol.Replay.Jti.{JtiReplayCache}
use asap_protocol.Auth.Claims.{VerifyError, unknown_agent, session_changed, jti_replay}
use asap_protocol.Auth.Slide.{
  Clock, check_current, expired_agent_error, slide_session_if_still_current,
}
use asap_protocol.Auth.Verify.{VerifiedAgent, agent_claims, use_jti, slide, verify_agent_jwt}

abbrev pub touched_row : Clock → AgentSession → AgentSession
touched_row clock current = record current { last_used_at = some clock.used_at }

module _ (digest : Dict String String → String) where
  -- the row that is there when the session is slid
  pub record IsCurrent (clock : Clock) (verified : AgentSession) (agents : Store)
      (current : AgentSession) : Type 0 where
    pub there : lookup verified.agent_id agents ≡ some current
    pub checked : check_current digest clock.reread_at verified current ≡ ok tt
    pub touched :
        is_current digest clock.touched_at verified.public_key verified.host_id current ≡ true

  abbrev Slides : Clock → AgentSession → Store → Type 0
  Slides clock verified agents =
      ((e : VerifyError) × (slide_session_if_still_current digest clock verified agents
          ≡ (agents, err e)))
      ⊎ ((current : AgentSession) × IsCurrent clock verified agents current
          × (slide_session_if_still_current digest clock verified agents ≡ (
            insert verified.agent_id (touched_row clock current) agents,
            ok (touched_row clock current),
          )))

  touch-outcome :
      (clock : Clock) (verified : AgentSession) (agents : Store) (current : AgentSession)
      → lookup verified.agent_id agents ≡ some current
      → touch_if_current digest clock.touched_at verified.agent_id verified.public_key clock.used_at
          verified.host_id agents
        ≡ (if is_current digest clock.touched_at verified.public_key verified.host_id current
            then (
              insert verified.agent_id (touched_row clock current) agents,
              some (touched_row clock current),
            )
            else (agents, none))
  unfolding touch_if_current
  touch-outcome clock verified agents current p = rw (p, touch_if_current) refl

  slide-outcomes :
      (clock : Clock) (verified : AgentSession) (agents : Store) → Slides clock verified agents
  unfolding slide_session_if_still_current touch_if_current
  slide-outcomes clock verified agents = go (lookup verified.agent_id agents) refl
    where
      go :
          (o : Option AgentSession)
          → lookup verified.agent_id agents ≡ o
          → Slides clock verified agents
      go none p = inl (unknown_agent, rw (p, slide_session_if_still_current) refl)
      go (some current) p = checks (check_current digest clock.reread_at verified current) refl
        where
          checks :
              (r : Result VerifyError (Unit {0}))
              → check_current digest clock.reread_at verified current ≡ r
              → Slides clock verified agents
          checks (err e) q = inl (e, rw (p, slide_session_if_still_current) (rw q refl))
          checks (ok _) q =
              elim (Bool-cases
                (is_current digest clock.touched_at verified.public_key verified.host_id current)) [
                  | inl still ↦ inr (
                    current,
                    record { there = p; checked = q; touched = still },
                    rw (p, slide_session_if_still_current)
                        (rw q (rw (touch-outcome clock verified agents current p) (rw still refl))),
                  )
                  | inr gone ↦ inl (
                    session_changed,
                    rw (p, slide_session_if_still_current)
                        (rw q (rw (touch-outcome clock verified agents current p) (rw gone refl))),
                  )
                ]

  -- what the verification of an agent token rests on: the claims, the cache and the two rows
  pub record IsAccepted (float : Value → Option ℤ) (unverified : String → Option (Fields × Fields))
      (decode : Fields → String → Option Fields) (clock : Clock) (audience : Option (List String))
      (token : String) (hosts : Hosts) (agents later : Store) (cache : Option JtiReplayCache)
      (v : VerifiedAgent) (current : AgentSession) : Type 0 where
    pub claimed :
        agent_claims digest float unverified decode clock.claims_at audience token hosts agents
        ≡ ok v
    pub fresh : (use_jti clock.recorded_at true v.agent.agent_id v.jti cache).1 ≡ true
    pub unexpired : expired_agent_error clock.checked_at v.agent ≡ ok tt
    pub slid : IsCurrent clock v.agent later current

  module _ (float : Value → Option ℤ) (unverified : String → Option (Fields × Fields))
      (decode : Fields → String → Option Fields) (clock : Clock) (audience : Option (List String))
      (token : String) (hosts : Hosts) (agents later : Store) (cache : Option JtiReplayCache) where
    abbrev Verifies : Option JtiReplayCache × Store × Result VerifyError VerifiedAgent → Type 0
    Verifies answer =
        ((c : Option JtiReplayCache) × (e : VerifyError) × (answer ≡ (c, later, err e)))
        ⊎ ((v : VerifiedAgent) × (current : AgentSession) × IsAccepted float unverified decode clock
              audience token hosts agents later cache v current
            × (answer ≡ (
              (use_jti clock.recorded_at true v.agent.agent_id v.jti cache).0,
              insert v.agent.agent_id (touched_row clock current) later,
              ok (record v { agent = touched_row clock current }),
            )))

    pub verify_agent_jwt-outcomes : Verifies (
        verify_agent_jwt digest float unverified decode clock audience token hosts agents later
          cache)
    unfolding verify_agent_jwt slide
    verify_agent_jwt-outcomes =
        go (agent_claims digest float unverified decode clock.claims_at audience token hosts agents)
          refl
      where
        go :
            (r : Result VerifyError VerifiedAgent)
            → agent_claims digest float unverified decode clock.claims_at audience token hosts
                agents
              ≡ r
            → Verifies (
                verify_agent_jwt digest float unverified decode clock audience token hosts agents
                  later cache)
        go (err e) p = inl (cache, e, rw (p, verify_agent_jwt) refl)
        go (ok v) p =
            elim (Bool-cases (use_jti clock.recorded_at true v.agent.agent_id v.jti cache).1) [
              | inr used ↦ inl (
                (use_jti clock.recorded_at true v.agent.agent_id v.jti cache).0,
                jti_replay,
                rw (p, verify_agent_jwt) (rw used refl),
              )
              | inl fresh ↦ live fresh (expired_agent_error clock.checked_at v.agent) refl
            ]
          where
            live :
                (use_jti clock.recorded_at true v.agent.agent_id v.jti cache).1 ≡ true
                → (r : Result VerifyError (Unit {0}))
                → expired_agent_error clock.checked_at v.agent ≡ r
                → Verifies (
                    verify_agent_jwt digest float unverified decode clock audience token hosts
                      agents later cache)
            live fresh (err e) q = inl (
              (use_jti clock.recorded_at true v.agent.agent_id v.jti cache).0,
              e,
              rw (p, verify_agent_jwt) (rw fresh (rw (q, slide) refl)),
            )
            live fresh (ok _) q = elim (slide-outcomes clock v.agent later) [
              | inl (e, s) ↦ inl (
                (use_jti clock.recorded_at true v.agent.agent_id v.jti cache).0,
                e,
                rw (p, verify_agent_jwt) (rw fresh (rw (q, slide) (rw s refl))),
              )
              | inr (current, is, s) ↦ inr (
                v,
                current,
                record { claimed = p; fresh = fresh; unexpired = q; slid = is },
                rw (p, verify_agent_jwt) (rw fresh (rw (q, slide) (rw s refl))),
              )
            ]
