-- ===== src/Approval/Flows.antt =====
-- The flows of src/asap/auth/approval.py over an approval store: Device Authorization, CIBA, the
-- choice between them, and the A2H channel. Random codes and the clock readings are arguments.
use asap_protocol.Prelude.{
  ℕ, String, Bool, true, false, ◌&&◌, not, Option, none, some, if◌then◌else◌, List, [], ◌∷◌, ◌++◌,
  Dict, insert, Eq, ◌==◌, list_eq, string_eq, map, Result, ok, err,
}
use Prim.Native.String.{◌++◌ as ◌<>◌}
use asap_protocol.Approval.Requests.{
  Method, device_authorization, ciba, Status, Kind, ApprovalObject, ApprovalRequestState,
  StoreError, no_request, Store, Request, or_empty, is_pending, state_to_approval_object, get,
  approve, deny, create,
}
use asap_protocol.Approval.Merge.{merge_capability_specs}

abbrev pub is_device : Method → Bool
is_device device_authorization = true
is_device ciba = false

unfoldable pub same_kind : Kind → Kind → Bool
same_kind Kind.registration Kind.registration = true
same_kind Kind.escalation Kind.escalation = true
same_kind _ _ = false

-- `linked` is whether the host has a user id that is not blank
unfoldable pub select_approval_method : Bool → Bool → Option Method → Bool → Method
select_approval_method linked host_supports_ciba preferred agent_controls_browser =
    let can_ciba = linked && host_supports_ciba in
    if agent_controls_browser && can_ciba then ciba else elim preferred [
      | some device_authorization ↦ device_authorization
      | some ciba ↦ if can_ciba then ciba else device_authorization
      | none ↦ if can_ciba then ciba else device_authorization
    ]

-- `list(dict.fromkeys(xs))`
unfoldable pub from_keys : List String → Dict String (Unit {0}) → Dict String (Unit {0})
from_keys [] d = d
from_keys (x ∷ xs) d = from_keys xs (insert x tt d)

unfoldable pub distinct : List String → List String
unfolding from_keys
distinct xs = map (λ e. e.0) (from_keys xs [])

-- The times at which a flow reads the clock.
pub record Clocks : Type 0 where
  pub get_at : ℕ
  pub object_at : ℕ
  pub create_at : ℕ
  pub fresh_at : ℕ

pub data FlowError : Type 0 where
  store_error : StoreError → FlowError
  -- `RuntimeError("Internal error: approval request missing after create")`
  missing_after_create : FlowError

abbrev pub default_device_uri : String
default_device_uri = "https://asap.local/device"

abbrev pub default_ciba_message : String
default_ciba_message = "Approve ASAP agent registration"

abbrev pub or_default {ℓ} : {A : Type ℓ} → A → Option A → A
or_default d none = d
or_default d (some a) = a

-- `verification_uri or DEFAULT_DEVICE_VERIFICATION_URI`
abbrev pub or_uri : Option String → String
or_uri none = default_device_uri
or_uri (some u) = if u == "" then default_device_uri else u

module _ {Spec : Type 0} ⦃e : Eq Spec⦄ (spec_name : Spec → String) where
  -- `_merged_pending_payload`
  unfoldable pub merged_pending_payload :
      ApprovalRequestState Spec → List String → Option (List Spec) → List String × List Spec
  unfolding distinct
  merged_pending_payload existing capabilities specs = (
    distinct (existing.capabilities ++ capabilities),
    merge_capability_specs spec_name existing.capability_specs (or_empty specs),
  )

  -- `_pending_payload_unchanged`
  unfoldable pub pending_payload_unchanged :
      ApprovalRequestState Spec → List String × List Spec → Bool
  pending_payload_unchanged existing (capabilities, specs) =
      specs == existing.capability_specs && capabilities == existing.capabilities

  -- whether a pending row of this method and kind is there to be reused or replaced
  unfoldable pub is_reusable : Bool → Kind → ApprovalRequestState Spec → Bool
  unfolding same_kind
  is_reusable device kind existing =
      (if device then is_device existing.method else not (is_device existing.method))
      && is_pending existing.status
      && same_kind existing.approval_kind kind

  -- the end of both flows: `create`, `get`, and the object of the row found
  unfoldable pub create_fresh :
      Clocks → String → Request Spec → Store Spec → Store Spec × Result FlowError ApprovalObject
  create_fresh clocks agent_id q store =
      let (store', created) = create clocks.create_at agent_id q store in
      let (store'', found) = get clocks.fresh_at agent_id store' in
      elim created [
        | err x ↦ (store', err (store_error x))
        | ok _ ↦ elim found [
          | none ↦ (store'', err missing_after_create)
          | some fresh ↦ (store'', ok (state_to_approval_object clocks.object_at fresh))
        ]
      ]

  -- what both flows share: `request` builds the arguments of `create` from a payload
  unfoldable pub start_approval :
      Clocks
      → String
      → Bool
      → Kind
      → List String
      → Option (List Spec)
      → (List String → Option (List Spec) → Request Spec)
      → Store Spec
      → Store Spec × Result FlowError ApprovalObject
  unfolding merged_pending_payload pending_payload_unchanged is_reusable create_fresh
  start_approval clocks agent_id device kind capabilities specs request store =
      let (store', existing) = get clocks.get_at agent_id store in
      elim existing [
        | none ↦ create_fresh clocks agent_id (request capabilities specs) store'
        | some row ↦
            let payload = merged_pending_payload row capabilities specs in
            if is_reusable device kind row
            then (if pending_payload_unchanged row payload
                then (store', ok (state_to_approval_object clocks.object_at row))
                else create_fresh clocks agent_id (request payload.0 (some payload.1)) store')
            else create_fresh clocks agent_id (request capabilities specs) store'
      ]

  -- `user_code` is the fresh random code
  unfoldable pub create_device_authorization :
      Clocks
      → String
      → String
      → List String
      → ℕ
      → ℕ
      → Option String
      → Option (List Spec)
      → Kind
      → Store Spec
      → Store Spec × Result FlowError ApprovalObject
  unfolding start_approval
  create_device_authorization clocks user_code agent_id capabilities expires_in interval uri specs
        kind store =
      let base_uri = or_uri uri in
      start_approval clocks agent_id true kind capabilities specs
        (λ caps payload. record {
          method = device_authorization;
          capabilities = caps;
          expires_in = expires_in;
          interval = interval;
          user_code = some user_code;
          verification_uri = some base_uri;
          verification_uri_complete = some (base_uri <> "?user_code=" <> user_code);
          binding_message = none;
          capability_specs = payload;
          approval_kind = kind;
        })
        store

  unfoldable pub create_ciba_approval :
      Clocks
      → String
      → List String
      → Option String
      → ℕ
      → ℕ
      → Option (List Spec)
      → Kind
      → Store Spec
      → Store Spec × Result FlowError ApprovalObject
  unfolding start_approval
  create_ciba_approval clocks agent_id capabilities message expires_in interval specs kind store =
      start_approval clocks agent_id false kind capabilities specs
        (λ caps payload. record {
          method = ciba;
          capabilities = caps;
          expires_in = expires_in;
          interval = interval;
          user_code = none;
          verification_uri = none;
          verification_uri_complete = none;
          binding_message = some (or_default default_ciba_message message);
          capability_specs = payload;
          approval_kind = kind;
        })
        store

  -- `_pending_matches_expected`
  unfoldable pub pending_matches_expected : Option (ApprovalRequestState Spec) → List Spec → Bool
  pending_matches_expected none expected = false
  pending_matches_expected (some state) expected =
      is_pending state.status && state.capability_specs == expected

  -- `resolve_via_a2h` once the human has decided: `reason` is the one given with a decision that is
  -- no approval
  unfoldable pub resolve_via_a2h :
      ℕ
      → ℕ
      → String
      → String
      → Bool
      → Option String
      → Option (List Spec)
      → Store Spec
      → Store Spec × Result StoreError (Unit {0})
  unfolding pending_matches_expected
  resolve_via_a2h get_at decide_at agent_id principal_id approves reason none store =
      if approves
      then approve decide_at agent_id principal_id store
      else deny decide_at agent_id (or_default "declined" reason) store
  resolve_via_a2h get_at decide_at agent_id principal_id approves reason (some expected) store =
      let (store', state) = get get_at agent_id store in
      if pending_matches_expected state expected
      then (if approves
          then approve decide_at agent_id principal_id store'
          else deny decide_at agent_id (or_default "declined" reason) store')
      else (store', ok tt)

unfoldable pub check_approval_status :
    {Spec : Type 0} → ℕ → String → Store Spec → Store Spec × Result StoreError Status
check_approval_status now agent_id store =
    let (store', state) = get now agent_id store in
    elim state [ none ↦ (store', err no_request) | some s ↦ (store', ok s.status) ]
