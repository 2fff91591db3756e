-- ===== src/Task.antt =====
-- Tasks and their state machine: src/asap/state/machine.py, with `TaskStatus` of
-- src/asap/models/enums.py and `Task` of src/asap/models/entities.py.
pub mod Lifecycle
use asap_protocol.Prelude.{
  ℕ, String, Bool, true, false, Option, List, [], ◌∷◌, if◌then◌else◌, Result, ok, err,
}

pub data TaskStatus : Type 0 where
  submitted working completed failed cancelled input_required : TaskStatus

-- `to_status in valid_targets` compares enum members
unfoldable pub same_status : TaskStatus → TaskStatus → Bool
same_status submitted submitted = true
same_status working working = true
same_status completed completed = true
same_status failed failed = true
same_status cancelled cancelled = true
same_status input_required input_required = true
same_status _ _ = false

unfoldable pub status_in : TaskStatus → List TaskStatus → Bool
unfolding same_status
status_in s [] = false
status_in s (t ∷ ts) = if same_status s t then true else status_in s ts

unfoldable pub terminal_states : List TaskStatus
terminal_states = completed ∷ failed ∷ cancelled ∷ []

unfoldable pub is_terminal : TaskStatus → Bool
unfolding status_in terminal_states
is_terminal s = status_in s terminal_states

-- every status is a key of VALID_TRANSITIONS, so the `.get` default is never taken
unfoldable pub valid_transitions : TaskStatus → List TaskStatus
valid_transitions submitted = working ∷ cancelled ∷ []
valid_transitions working = completed ∷ failed ∷ cancelled ∷ input_required ∷ []
valid_transitions input_required = working ∷ cancelled ∷ []
valid_transitions completed = []
valid_transitions failed = []
valid_transitions cancelled = []

unfoldable pub can_transition : TaskStatus → TaskStatus → Bool
unfolding status_in valid_transitions
can_transition from to = status_in to (valid_transitions from)

-- `J` is the type of JSON objects, which the state machine passes on.
pub record Task (J : Type 0) : Type 0 where
  pub id : String
  pub conversation_id : String
  pub parent_task_id : Option String
  pub status : TaskStatus
  pub depth : ℕ
  pub progress : Option J
  pub created_at : ℕ
  pub updated_at : ℕ

pub record InvalidTransitionError : Type 0 where
  pub from_state : TaskStatus
  pub to_state : TaskStatus
  pub task_id : String

-- The span and the counter of the telemetry change nothing that the machine reads.
unfoldable pub transition :
    {J : Type 0} → ℕ → Task J → TaskStatus → Result InvalidTransitionError (Task J)
transition now task new_status =
    if can_transition task.status new_status
    then ok (record task { status = new_status; updated_at = now })
    else err (record { from_state = task.status; to_state = new_status; task_id = task.id })

unfoldable pub can_be_cancelled : {J : Type 0} → Task J → Bool
unfolding status_in
can_be_cancelled task = status_in task.status (submitted ∷ working ∷ [])
