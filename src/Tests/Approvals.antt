-- ===== src/Tests/Approvals.antt =====
-- Requests of an agent that waits for its human, for src/asap/auth/approval.py. A spec here is a
-- pair of a name and a constraint.
use mathlib.Core.List.{Memᴰ}
use asap_protocol.Prelude.{
  ℕ, ◌*◌, ◌<◌, String, true, some, none, List, [], ◌∷◌, lookup, insert, ◌≡◌, refl, second,
  string_eq, pair_eq, list_eq,
}
use asap_protocol.Approval.Requests.{
  device_authorization, pending, Kind, ApprovalRequestState, Store, approve, deadline, get,
}
use asap_protocol.Approval.History.{Op, look, accept, run, apply, approve_row}
use asap_protocol.Approval.Outcomes.{approved_was_asked}
use asap_protocol.Approval.Flows.{resolve_via_a2h}
use asap_protocol.Approval.Consent.{a2h_grants_what_was_seen}

abbrev Spec : Type 0
Spec = String × String

abbrev name_of : Spec → String
name_of s = s.0

abbrev asked : List Spec
asked = ("read", "max 10") ∷ ("write", "max 1") ∷ []

abbrev waiting : ApprovalRequestState Spec
waiting = record {
  agent_id = "agent";
  method = device_authorization;
  capabilities = "read" ∷ "write" ∷ [];
  capability_specs = asked;
  approval_kind = Kind.registration;
  status = pending;
  user_code = some "ABCD1234";
  verification_uri = none;
  verification_uri_complete = none;
  binding_message = none;
  expires_in = 600;
  interval = 5;
  created_at = 100 * second;
  approved_by = none;
  deny_reason = none;
}

abbrev granted : ApprovalRequestState Spec
granted = approve_row "alice" waiting

abbrev store : Store Spec
store = ("agent", waiting) ∷ []

abbrev ops : List Op
ops = look (150 * second) "agent" ∷ accept (200 * second) "agent" "alice" ∷ []

approved_was_asked_example :
    (now : ℕ) × (user : String) × Memᴰ (accept now "agent" user) ops
    × (now < deadline waiting)
    × (granted ≡ approve_row user waiting)
unfolding lookup run apply approve get insert
approved_was_asked_example =
    approved_was_asked ops "agent" waiting granted store refl refl refl refl

a2h_grants_what_was_seen_example :
    (asked ≡ asked) × (true ≡ true) × (granted ≡ approve_row "alice" waiting)
unfolding lookup resolve_via_a2h get approve insert
a2h_grants_what_was_seen_example =
    a2h_grants_what_was_seen name_of (150 * second) (200 * second) "agent" "alice" true none asked
      store waiting granted refl refl refl refl
