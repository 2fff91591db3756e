-- ===== src/Routes/Register.antt =====
-- The handler `_handle_agent_register` of src/asap/transport/agent_routes.py, in its order. `import_key` is
-- joserfc's check of a key; `Spec` objects are compared by an equality.
use asap_protocol.Prelude.{
  ℕ, String, Bool, not, Option, none, some, if◌then◌else◌, List, [], ◌∷◌, Dict, ◌==◌, string_eq, Eq,
  Result, ok, err,
}
use asap_protocol.Json.{ℤ, Value, Fields, get_field}
use asap_protocol.Identity.Keys.{Jwk, jwk_thumbprint_sha256}
use asap_protocol.Identity.Sessions.{AgentSession, active}
use asap_protocol.Identity.Agents.{Store, save}
use asap_protocol.Identity.Hosts.{Hosts, HostIdentity, HostStatus, save_host}
use asap_protocol.Approval.Requests.{ApprovalObject, Method, device_authorization, ciba, Kind}
use asap_protocol.Approval.Requests as Approval
use asap_protocol.Approval.Flows.{
  FlowError, select_approval_method, create_device_authorization, create_ciba_approval,
}
use asap_protocol.Capability.Escalation.{escalation_requires_user_consent, name_of}
use asap_protocol.Auth.Claims.{jwk_of}
use asap_protocol.Auth.Verify.{VerifiedHost, object_of}
use asap_protocol.Routes.Caller.{Refusal, invalid_key, server_error, effective_host_id}
use asap_protocol.Routes.Status.{apply_request}
use asap_protocol.Routes.Registration.{
  parse_capability_registration_body, Settings, State, Call, preferred_method, is_true, is_linked,
  new_session, gate,
}

-- the keys of the agent and of the host in the claims; the 400 responses differ in their text alone
unfoldable pub read_keys : (Jwk → Bool) → VerifiedHost → Result Refusal (Jwk × Jwk)
read_keys import_key v = elim (object_of (get_field "agent_public_key" v.claims)) [
  | none ↦ err invalid_key
  | some agent_pub ↦
      if not (import_key (jwk_of agent_pub))
      then err invalid_key
      else elim (object_of (get_field "host_public_key" v.claims)) [
        | none ↦ err invalid_key
        | some host_pub ↦ ok (jwk_of agent_pub, jwk_of host_pub)
      ]
]

module _ (digest : Dict String String → String) (float : Value → Option ℤ) ⦃e : Eq Fields⦄ where
  -- the host of the caller, saved as pending where it is seen first; none where a thumbprint raises
  unfoldable pub find_host : VerifiedHost → Jwk → ℕ → Hosts → Option (HostIdentity × Hosts)
  unfolding effective_host_id
  find_host v host_pub now hosts = elim v.host [
    | some host ↦ some (host, hosts)
    | none ↦ elim (effective_host_id v) [
      | none ↦ none
      | some host_id ↦
          let host : HostIdentity = record {
            host_id = host_id;
            name = none;
            public_key = host_pub;
            user_id = none;
            default_capabilities = [];
            status = HostStatus.pending;
            created_at = now;
            updated_at = now;
          } in
          elim (save_host digest host hosts) [ none ↦ none | some hosts' ↦ some (host, hosts') ]
    ]
  ]

  -- the agent of the host that has the key, with none where a thumbprint raises
  unfoldable pub find_agent : String → String → Store → Option (Option AgentSession)
  find_agent host_id tp [] = some none
  find_agent host_id tp ((key, agent) ∷ agents) =
      let rest = find_agent host_id tp agents in
      if agent.host_id == host_id
      then elim (jwk_thumbprint_sha256 digest agent.public_key) [
        | none ↦ none
        | some tp' ↦ if tp' == tp then some (some agent) else rest
      ]
      else rest

  -- a session that is saved where it is saved, and the error that leaves the handler where not
  unfoldable pub store_session : AgentSession → State → State × Result Refusal (Unit {0})
  unfolding save
  store_session session s = elim (save digest session none s.agents) [
    | err x ↦ (s, err server_error)
    | ok agents ↦ (record s { agents = agents }, ok tt)
  ]

  -- the branch that needs no approval
  unfoldable pub activate_now :
      Call → AgentSession → List Fields → State → State × Result Refusal AgentSession
  unfolding apply_request store_session
  activate_now c session specs s =
      let (w, done) = apply_request c.agent_id session.host_id specs s.world in
      let activated : AgentSession = record session {
        status = active;
        activated_at = some c.now;
      } in
      let (s', saved) = store_session activated (record s { world = w }) in
      elim done [
        | err x ↦ (record s { world = w }, err server_error)
        | ok _ ↦ (s', elim saved [ err x ↦ err x | ok _ ↦ ok activated ])
      ]

  -- `create_ciba_approval` or `create_device_authorization`, with their defaults
  unfoldable pub ask :
      Settings
      → Call
      → HostIdentity
      → List String
      → List Fields
      → Approval.Store Fields
      → Approval.Store Fields × Result FlowError ApprovalObject
  unfolding create_device_authorization create_ciba_approval select_approval_method
  ask settings c host names specs store =
      elim (select_approval_method (is_linked host) settings.host_supports_ciba
        (preferred_method (get_field "approval_method" c.body))
        (is_true (get_field "agent_controls_browser" c.body))) [
          | ciba ↦
              create_ciba_approval name_of c.clocks c.agent_id names none 600 5 (some specs)
                Kind.registration store
          | device_authorization ↦
              create_device_authorization name_of c.clocks c.user_code c.agent_id names 600 5 none
                (some specs) Kind.registration store
        ]

  -- the branch that needs an approval, whose store is there
  unfoldable pub request_approval :
      Settings
      → Call
      → HostIdentity
      → AgentSession
      → List String
      → List Fields
      → State
      → State × Result Refusal AgentSession
  unfolding ask
  request_approval settings c host session names specs s = elim s.world.approvals [
    | none ↦ (s, err server_error)
    | some store ↦
        let (store', asked) = ask settings c host names specs store in
        (
          record s { world = record s.world { approvals = some store' } },
          elim asked [ err x ↦ err server_error | ok _ ↦ ok session ],
        )
  ]

  -- what follows once the agent is known to be new
  unfoldable pub admit_agent :
      Settings → Call → Fields → HostIdentity → Jwk → State → State × Result Refusal AgentSession
  unfolding parse_capability_registration_body escalation_requires_user_consent gate new_session
      store_session activate_now request_approval
  admit_agent settings c claims host agent_pub s =
      let (names, specs) = parse_capability_registration_body c.body in
      let needs = escalation_requires_user_consent host names in
      let session = new_session c host.host_id agent_pub in
      let (s', saved) = store_session session s in
      let refused =
        if needs then gate float settings c claims names host.host_id s.world else none in
      elim refused [
        | some x ↦ (s, err x)
        | none ↦ elim saved [
          | err x ↦ (s', err x)
          | ok _ ↦
              if needs
              then request_approval settings c host session names specs s'
              else activate_now c session specs s'
        ]
      ]

  unfoldable pub handle_register :
      (Jwk → Bool) → Settings → Call → VerifiedHost → State → State × Result Refusal AgentSession
  unfolding read_keys find_host find_agent admit_agent
  handle_register import_key settings c v s = elim (read_keys import_key v) [
    | err x ↦ (s, err x)
    | ok (agent_pub, host_pub) ↦ elim (find_host v host_pub c.now s.hosts) [
      | none ↦ (s, err server_error)
      | some (host, hosts) ↦
          let s' : State = record s { hosts = hosts } in
          elim (jwk_thumbprint_sha256 digest agent_pub) [
            | none ↦ (s', err server_error)
            | some tp ↦ elim (find_agent host.host_id tp s.agents) [
              | none ↦ (s', err server_error)
              | some (some existing) ↦ (s', ok existing)
              | some none ↦ admit_agent settings c v.claims host agent_pub s'
            ]
          ]
    ]
  ]
