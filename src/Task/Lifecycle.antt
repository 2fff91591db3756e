-- ===== src/Task/Lifecycle.antt =====
-- What every sequence of transitions of a task keeps.
use asap_protocol.Prelude.{
  ℕ, ◌≡◌, refl, true, List, [], ◌∷◌, arith, ok, err, ◌⊎◌, inl, inr, ◌↔◌, Bool-cases,
}
use asap_protocol.Task.{
  TaskStatus, submitted, working, completed, failed, cancelled, input_required, is_terminal,
  can_transition, Task, transition, can_be_cancelled,
}

-- The life cycle drawn as a graph, apart from the code's table.
pub data Edge : TaskStatus → TaskStatus → Type 0 where
  start : Edge submitted working
  finish : Edge working completed
  fail : Edge working failed
  ask : Edge working input_required
  resume : Edge input_required working
  cancel_submitted : Edge submitted cancelled
  cancel_working : Edge working cancelled
  cancel_waiting : Edge input_required cancelled

ruleset edges = (start, finish, fail, ask, resume, cancel_submitted, cancel_working, cancel_waiting)

can_transition-Edge : (s t : TaskStatus) → can_transition s t ≡ true → Edge s t
unfolding can_transition is_terminal
can_transition-Edge s t h = grind (arith, edges)

can_transition_of_Edge : {s t : TaskStatus} → Edge s t → can_transition s t ≡ true
unfolding can_transition is_terminal
can_transition_of_Edge start = refl
can_transition_of_Edge finish = refl
can_transition_of_Edge fail = refl
can_transition_of_Edge ask = refl
can_transition_of_Edge resume = refl
can_transition_of_Edge cancel_submitted = refl
can_transition_of_Edge cancel_working = refl
can_transition_of_Edge cancel_waiting = refl

-- A request succeeds exactly along the edges of the life cycle graph, and then gives the task with the
-- new status and the time of the request; it is refused exactly where the graph has no such edge, and
-- the error names the state that the task is in, the state asked for and the task.
pub transition_iff_Edge :
    {J : Type 0} (now : ℕ) (task : Task J) (s : TaskStatus)
    → ((transition now task s ≡ ok (record task { status = s; updated_at = now }))
        ↔ Edge task.status s)
      × ((transition now task s
            ≡ err (record { from_state = task.status; to_state = s; task_id = task.id }))
          ↔ (¬ Edge task.status s))
unfolding transition
transition_iff_Edge now task s = (
  (
    λ h. can_transition-Edge task.status s (ground arith),
    λ e. ground (arith, can_transition_of_Edge e),
  ),
  (
    λ h e. let allowed = can_transition_of_Edge e in ground arith,
    λ none_drawn. elim (Bool-cases (can_transition task.status s)) [
      | inl allowed ↦ absurd (none_drawn (can_transition-Edge task.status s allowed))
      | inr refused ↦ ground arith
    ],
  ),
)

-- A run of requests: a refused one leaves the task as it is.
unfoldable pub attempt : {J : Type 0} → Task J → ℕ × TaskStatus → Task J
attempt task (now, s) = elim (transition now task s) [ ok t ↦ t | err _ ↦ task ]

unfoldable pub run : {J : Type 0} → Task J → List (ℕ × TaskStatus) → Task J
run task [] = task
run task (r ∷ rs) = run (attempt task r) rs

attempt_terminal :
    {J : Type 0} (task : Task J) (r : ℕ × TaskStatus)
    → is_terminal task.status ≡ true
    → attempt task r ≡ task
unfolding attempt transition can_transition is_terminal
attempt_terminal task (now, s) h = ground arith

-- A task in a terminal state is the same task after any requests.
pub terminal_absorbs :
    {J : Type 0} (task : Task J) (rs : List (ℕ × TaskStatus))
    → is_terminal task.status ≡ true
    → run task rs ≡ task
unfolding run
terminal_absorbs task [] h = refl
terminal_absorbs task (r ∷ rs) h = rw (attempt_terminal task r h) (terminal_absorbs task rs h)

-- Paths in the life cycle graph.
pub data Reach : TaskStatus → TaskStatus → Type 0 where
  here : {s : TaskStatus} → Reach s s
  step : {s t u : TaskStatus} → Edge s t → Reach t u → Reach s u

attempt_cases :
    {J : Type 0} (task : Task J) (now : ℕ) (s : TaskStatus)
    → (attempt task (now, s) ≡ task)
      ⊎ ((can_transition task.status s ≡ true)
          × (attempt task (now, s) ≡ record task { status = s; updated_at = now }))
unfolding attempt transition
attempt_cases task now s = ground arith

-- Whatever is asked, the task moves along the graph.
pub run-Reach :
    {J : Type 0} (task : Task J) (rs : List (ℕ × TaskStatus))
    → Reach task.status (run task rs).status
unfolding run
run-Reach task [] = here
run-Reach task ((now, s) ∷ rs) = elim (attempt_cases task now s) [
  | inl same ↦ rw (same, run) (run-Reach task rs)
  | inr (allowed, moved) ↦
      rw (moved, run)
        (step (can_transition-Edge task.status s allowed)
          (run-Reach (record task { status = s; updated_at = now }) rs))
]

attempt_identity :
    {J : Type 0} (task : Task J) (r : ℕ × TaskStatus)
    → let t = attempt task r in
      (t.id ≡ task.id)
      × (t.conversation_id ≡ task.conversation_id)
      × (t.parent_task_id ≡ task.parent_task_id)
      × (t.depth ≡ task.depth)
      × (t.progress ≡ task.progress)
      × (t.created_at ≡ task.created_at)
unfolding attempt transition
attempt_identity task (now, s) = ground arith

-- Requests, granted or refused, change no field of the task but its status and `updated_at`.
pub run_identity :
    {J : Type 0} (task : Task J) (rs : List (ℕ × TaskStatus))
    → let t = run task rs in
      (t.id ≡ task.id)
      × (t.conversation_id ≡ task.conversation_id)
      × (t.parent_task_id ≡ task.parent_task_id)
      × (t.depth ≡ task.depth)
      × (t.progress ≡ task.progress)
      × (t.created_at ≡ task.created_at)
unfolding run
run_identity task [] = (refl, refl, refl, refl, refl, refl)
run_identity task (r ∷ rs) =
    ground (arith, attempt_identity task r, run_identity (attempt task r) rs)

-- `can_be_cancelled` allows fewer tasks than the state machine: it leaves out those that wait for
-- input, and no others.
pub can_transition-cancelled_iff :
    {J : Type 0} (task : Task J)
    → (can_transition task.status cancelled ≡ true)
      ↔ ((can_be_cancelled task ≡ true) ⊎ (task.status ≡ input_required))
unfolding can_transition can_be_cancelled
can_transition-cancelled_iff task = (λ h. ground arith, λ h. ground arith)
