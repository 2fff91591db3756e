-- ===== src/Routes/Registration.antt =====
-- `_handle_agent_register` of src/asap/transport/agent_routes.py, with the WebAuthn gate of
-- src/asap/auth/self_auth.py. No other request runs meanwhile. A host that is seen first is saved as pending;
-- the A2H task, which runs after the response, and the response's text are left out.
use asap_protocol.Prelude.{
  ℕ, String, Bool, true, false, ◌&&◌, not, Option, none, some, if◌then◌else◌, List, [], ◌∷◌, ◌==◌,
  string_eq, is_blank, contains, keep_if,
}
use asap_protocol.Json.{
  ℤ, Value, null, text, boolean, array, object, Items, nil, cons, Fields, field, end, get_field,
  or_null,
}
use asap_protocol.Identity.Keys.{Jwk}
use asap_protocol.Identity.Sessions.{AgentSession, AgentMode, AgentSessionStatus}
use asap_protocol.Identity.Agents.{Store}
use asap_protocol.Identity.Hosts.{Hosts, HostIdentity}
use asap_protocol.Approval.Requests.{Method, device_authorization, ciba}
use asap_protocol.Approval.Flows.{Clocks}
use asap_protocol.Capability.Escalation.{name_of}
use asap_protocol.Auth.Verify.{object_of}
use asap_protocol.Routes.Caller.{Refusal, stale_session, invalid_webauthn, server_error}
use asap_protocol.Routes.Status.{World, is_stale}

-- `parse_capability_registration_body`: the names, and the specs
unfoldable pub parse_specs : Items → List String × List Fields
unfolding name_of
parse_specs nil = ([], [])
parse_specs (cons (text s) rest) =
    let (names, specs) = parse_specs rest in
    if is_blank s then (names, specs) else (s ∷ names, field "name" (text s) end ∷ specs)
parse_specs (cons (object spec) rest) =
    let (names, specs) = parse_specs rest in
    if name_of spec == "" then (names, specs) else (name_of spec ∷ names, spec ∷ specs)
parse_specs (cons _ rest) = parse_specs rest

unfoldable pub parse_capability_registration_body : Fields → List String × List Fields
unfolding parse_specs
parse_capability_registration_body body = elim (get_field "capabilities" body) [
  | some (array requested) ↦ parse_specs requested
  | _ ↦ ([], [])
]

-- What the application state says: the fresh-session window with the capabilities that need WebAuthn, the
-- verifier with whether it is a real one, and whether hosts support CIBA.
pub record Settings : Type 0 where
  pub fresh : Option (ℕ × List String)
  pub verify : String → Value → String → Bool → Bool
  pub is_real_verifier : Bool
  pub host_supports_ciba : Bool

-- `check_webauthn_for_approval_path`: true where it passes
unfoldable pub passes_webauthn : Settings → List String → Fields → String → Bool → Bool
passes_webauthn c names body host_id browser =
    let needed = elim c.fresh as (λ _. List String) [
      | none ↦ []
      | some (_, required) ↦ keep_if (λ n. contains n required) names
    ] in
    let gate = browser && c.is_real_verifier in
    if (elim needed [ [] ↦ true | _ ∷ _ ↦ false ]) && not gate
    then true
    else elim (object_of (get_field "webauthn" body)) [
      | none ↦ false
      | some block ↦ elim (get_field "challenge" block) [
        | some (text challenge) ↦
            if is_blank challenge then false else elim (or_null (get_field "response" block)) [
              | null ↦ false
              | response ↦ c.verify challenge response host_id gate
            ]
        | _ ↦ false
      ]
    ]

pub record State : Type 0 where
  pub hosts : Hosts
  pub agents : Store
  pub world : World

-- what the handler reads of the request and the clock: `float` of a claim, the fresh id and the fresh code
pub record Call : Type 0 where
  pub body : Fields
  pub now : ℕ
  pub clocks : Clocks
  pub agent_id : String
  pub user_code : String

abbrev pub preferred_method : Option Value → Option Method
preferred_method (some (text s)) =
    if s == "device_authorization"
    then some device_authorization
    else if s == "ciba"
    then some ciba
    else none
preferred_method _ = none

-- `raw_body.get(...) is True`
abbrev pub is_true : Option Value → Bool
is_true (some (boolean b)) = b
is_true _ = false

-- `host.user_id and str(host.user_id).strip()`
abbrev pub is_linked : HostIdentity → Bool
is_linked host = elim host.user_id [ none ↦ false | some u ↦ not (is_blank u) ]

unfoldable pub new_session : Call → String → Jwk → AgentSession
new_session c host_id key = record {
  agent_id = c.agent_id;
  host_id = host_id;
  public_key = key;
  mode = AgentMode.delegated;
  status = AgentSessionStatus.pending;
  session_ttl = none;
  max_lifetime = none;
  absolute_lifetime = none;
  activated_at = none;
  last_used_at = none;
  created_at = c.now;
}

module _ (float : Value → Option ℤ) where
  -- the checks of a registration that needs approval
  unfoldable pub gate : Settings → Call → Fields → List String → String → World → Option Refusal
  unfolding is_stale passes_webauthn
  gate settings c claims names host_id w =
      let stale = elim settings.fresh as (λ _. Bool) [
        | none ↦ false
        | some (window, _) ↦ is_stale float c.now window claims
      ] in
      elim w.approvals [
        | none ↦ some server_error
        | some _ ↦
            if stale
            then some stale_session
            else if passes_webauthn settings names c.body host_id
                (is_true (get_field "agent_controls_browser" c.body))
            then none
            else some invalid_webauthn
      ]
