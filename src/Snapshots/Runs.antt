-- ===== src/Snapshots/Runs.antt =====
-- Sequences of saves and deletions in a store of src/asap/state/stores/memory.py.
use asap_protocol.Prelude.{ℕ, ◌≤◌, String, Option, none, some, List, [], ◌∷◌, lookup, ◌≡◌}
use asap_protocol.Snapshots.{StateSnapshot, SnapshotStore, empty, save, get, delete}
use asap_protocol.Snapshots.Reads.{get-latest}
use asap_protocol.Snapshots.Latest.{IsValid, save-IsValid, delete-IsValid}

pub data Op (J : Type 0) : Type 0 where
  saving : StateSnapshot J → Op J
  deleting : String → Option ℕ → Op J

empty-IsValid : (J : Type 0) → IsValid {J = J} empty
unfolding empty lookup
empty-IsValid J task = tt

module _ {J : Type 0} where
  unfoldable pub after : List (Op J) → SnapshotStore J → SnapshotStore J
  after [] st = st
  after (saving s ∷ ops) st = after ops (save s st)
  after (deleting task version ∷ ops) st = after ops (delete task version st).0

  kept : (ops : List (Op J)) (st : SnapshotStore J) → IsValid st → IsValid (after ops st)
  unfolding after
  kept [] st h = h
  kept (saving s ∷ ops) st h = kept ops (save s st) (save-IsValid s st h)
  kept (deleting task version ∷ ops) st h =
      kept ops (delete task version st).0 (delete-IsValid task version st h)

  -- Whatever is saved and deleted, from an empty store on, a task has a latest version exactly where
  -- it has snapshots, and that is the greatest version it has.
  pub after-IsValid : (ops : List (Op J)) → IsValid (after ops empty)
  after-IsValid ops = kept ops empty (empty-IsValid J)

  -- After any saves and deletions, from an empty store on, a read without a version gives the greatest
  -- version that the task has: a read of that version gives the same snapshot, and no version that can
  -- be read is above it. It gives none only where no version of the task can be read.
  pub after-latest :
      (ops : List (Op J)) (task : String)
      → let st = after ops empty in
        ((s : StateSnapshot J)
          → get task none st ≡ some s
          → (get task (some s.version) st ≡ some s)
            × ((v : ℕ) (t : StateSnapshot J) → get task (some v) st ≡ some t → v ≤ s.version))
        × (get task none st ≡ none → (v : ℕ) → get task (some v) st ≡ none)
  after-latest ops task = get-latest task (after ops empty) (after-IsValid ops)
