-- ===== src/Approval/Requests.antt =====
-- The requests and `InMemoryApprovalStore` of src/asap/auth/approval.py. A capability spec is a JSON
-- object, of which the code reads the name and compares the rest by `==`: a type with an equality.
-- Times are microseconds; the store's lock makes each method one step at one time.
use asap_protocol.Prelude.{
  ℕ, ◌+◌, ◌*◌, ◌-◌, ◌/◌, String, Bool, true, false, ◌&&◌, Option, none, some, leb, max,
  if◌then◌else◌, List, [], Dict, lookup, insert, erase, string_eq, second, Result, ok, err,
}

pub data Method : Type 0 where
  device_authorization ciba : Method

pub data Status : Type 0 where
  pending approved denied expired : Status

pub data Kind : Type 0 where
  registration escalation : Kind

pub record ApprovalObject : Type 0 where
  pub method : Method
  pub verification_uri : Option String
  pub verification_uri_complete : Option String
  pub user_code : Option String
  pub binding_message : Option String
  pub expires_in : ℕ
  pub interval : ℕ

pub record ApprovalRequestState (Spec : Type 0) : Type 0 where
  pub agent_id : String
  pub method : Method
  pub capabilities : List String
  pub capability_specs : List Spec
  pub approval_kind : Kind
  pub status : Status
  pub user_code : Option String
  pub verification_uri : Option String
  pub verification_uri_complete : Option String
  pub binding_message : Option String
  pub expires_in : ℕ
  pub interval : ℕ
  pub created_at : ℕ
  pub approved_by : Option String
  pub deny_reason : Option String

-- `KeyError`, the `ValueError`s, and pydantic's refusal of a field
pub data StoreError : Type 0 where
  no_request has_expired not_pending invalid_field : StoreError

abbrev pub is_pending : Status → Bool
is_pending pending = true
is_pending _ = false

abbrev pub is_expired : Status → Bool
is_expired expired = true
is_expired _ = false

abbrev pub Store : Type 0 → Type 0
Store Spec = Dict String (ApprovalRequestState Spec)

module _ {Spec : Type 0} where
  unfoldable pub deadline : ApprovalRequestState Spec → ℕ
  deadline state = state.created_at + state.expires_in * second

  -- whether `_refresh_expired` makes a copy
  unfoldable pub has_lapsed : ℕ → ApprovalRequestState Spec → Bool
  unfolding deadline
  has_lapsed now state = is_pending state.status && leb (deadline state) now

  unfoldable pub refresh_expired : ℕ → ApprovalRequestState Spec → ApprovalRequestState Spec
  unfolding has_lapsed
  refresh_expired now state =
      if has_lapsed now state then record state { status = expired } else state

  -- `max(1, int((deadline - now).total_seconds()))`: for a deadline in the past both give 1
  unfoldable pub state_to_approval_object : ℕ → ApprovalRequestState Spec → ApprovalObject
  unfolding deadline
  state_to_approval_object now state = record {
    method = state.method;
    verification_uri = state.verification_uri;
    verification_uri_complete = state.verification_uri_complete;
    user_code = state.user_code;
    binding_message = state.binding_message;
    expires_in = max 1 ((deadline state - now) / second);
    interval = state.interval;
  }

  -- the refreshed row is written back where it is another object
  unfoldable pub get : ℕ → String → Store Spec → Store Spec × Option (ApprovalRequestState Spec)
  unfolding refresh_expired
  get now agent_id store = elim (lookup agent_id store) [
    | none ↦ (store, none)
    | some raw ↦
        let updated = refresh_expired now raw in
        (if has_lapsed now raw then insert agent_id updated store else store, some updated)
  ]

  unfoldable pub remove : String → Store Spec → Store Spec
  remove agent_id store = erase agent_id store

  -- `approve` and `deny` share all but the row that they write; this is what they do to the
  -- refreshed row
  unfoldable pub settle :
      (ApprovalRequestState Spec → ApprovalRequestState Spec)
      → String
      → Store Spec
      → ApprovalRequestState Spec
      → Store Spec × Result StoreError (Unit {0})
  settle change agent_id store current =
      if is_expired current.status
      then (insert agent_id current store, err has_expired)
      else if is_pending current.status
      then (insert agent_id (change current) store, ok tt)
      else (store, err not_pending)

  unfoldable pub resolve :
      (ApprovalRequestState Spec → ApprovalRequestState Spec)
      → ℕ
      → String
      → Store Spec
      → Store Spec × Result StoreError (Unit {0})
  unfolding refresh_expired settle
  resolve change now agent_id store = elim (lookup agent_id store) [
    | none ↦ (store, err no_request)
    | some raw ↦ settle change agent_id store (refresh_expired now raw)
  ]

  unfoldable pub approve :
      ℕ → String → String → Store Spec → Store Spec × Result StoreError (Unit {0})
  unfolding resolve
  approve now agent_id user_id store =
      resolve (λ s. record s { status = approved; approved_by = some user_id }) now agent_id store

  unfoldable pub deny : ℕ → String → String → Store Spec → Store Spec × Result StoreError (Unit {0})
  unfolding resolve
  deny now agent_id reason store =
      resolve (λ s. record s { status = denied; deny_reason = some reason }) now agent_id store

-- The keyword arguments of `create`.
pub record Request (Spec : Type 0) : Type 0 where
  pub method : Method
  pub capabilities : List String
  pub expires_in : ℕ
  pub interval : ℕ
  pub user_code : Option String
  pub verification_uri : Option String
  pub verification_uri_complete : Option String
  pub binding_message : Option String
  pub capability_specs : Option (List Spec)
  pub approval_kind : Kind

abbrev pub or_empty {ℓ} : {A : Type ℓ} → Option (List A) → List A
or_empty none = []
or_empty (some xs) = xs

module _ {Spec : Type 0} where
  unfoldable pub new_state : ℕ → String → Request Spec → ApprovalRequestState Spec
  new_state now agent_id q = record {
    agent_id = agent_id;
    method = q.method;
    capabilities = q.capabilities;
    capability_specs = or_empty q.capability_specs;
    approval_kind = q.approval_kind;
    status = pending;
    user_code = q.user_code;
    verification_uri = q.verification_uri;
    verification_uri_complete = q.verification_uri_complete;
    binding_message = q.binding_message;
    expires_in = q.expires_in;
    interval = q.interval;
    created_at = now;
    approved_by = none;
    deny_reason = none;
  }

  -- `Field(ge=1)` of `expires_in` and `interval`
  unfoldable pub create :
      ℕ → String → Request Spec → Store Spec → Store Spec × Result StoreError (Unit {0})
  unfolding new_state
  create now agent_id q store =
      if leb 1 q.expires_in && leb 1 q.interval
      then (insert agent_id (new_state now agent_id q) store, ok tt)
      else (store, err invalid_field)
