-- ===== src/Tests/Tasks.antt =====
-- A task on its way, for src/asap/state/machine.py.
use asap_protocol.Prelude.{ℕ, Bool, none, ok, err, ◌≡◌, refl, ◌↔◌}
use asap_protocol.Task.{Task, working, completed, input_required, transition, can_be_cancelled}
use asap_protocol.Task.Lifecycle.{Edge, transition_iff_Edge}

abbrev sample : Task ℕ
sample = record {
  id = "t1";
  conversation_id = "c1";
  parent_task_id = none;
  status = working;
  depth = 0;
  progress = none;
  created_at = 10;
  updated_at = 20;
}

abbrev done : Task ℕ
done = record sample { status = completed }

transition_iff_Edge_example :
    ((transition 30 sample completed ≡ ok (record sample { status = completed; updated_at = 30 }))
      ↔ Edge working completed)
    × ((transition 30 sample completed
          ≡ err (record { from_state = working; to_state = completed; task_id = "t1" }))
        ↔ (¬ Edge working completed))
transition_iff_Edge_example = transition_iff_Edge 30 sample completed

-- a waiting task can be cancelled by the machine, and its own flag says that it cannot
waiting_flag : can_be_cancelled (record sample { status = input_required }) ≡ Bool.false
unfolding can_be_cancelled
waiting_flag = refl
