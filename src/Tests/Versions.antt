-- ===== src/Tests/Versions.antt =====
-- Three versions of a task's state, for src/asap/state/stores/memory.py.
use asap_protocol.Prelude.{
  ℕ, ◌≤◌, false, some, none, List, [], ◌∷◌, lookup, insert, erase, ◌≡◌, refl,
}
use asap_protocol.Snapshots.{StateSnapshot, empty, save, get, delete}
use asap_protocol.Snapshots.Runs.{Op, saving, deleting, after, after-latest}

abbrev version_of_task : ℕ → StateSnapshot ℕ
version_of_task n = record {
  id = "s";
  task_id = "t";
  version = n;
  state_data = n;
  checkpoint = false;
  created_at = n;
}

abbrev ops : List (Op ℕ)
ops =
    saving (version_of_task 3)
    ∷ saving (version_of_task 7)
    ∷ saving (version_of_task 5)
    ∷ deleting "t" (some 7)
    ∷ []

after-latest_example :
    let st = after ops empty in
    ((s : StateSnapshot ℕ)
      → get "t" none st ≡ some s
      → (get "t" (some s.version) st ≡ some s)
        × ((v : ℕ) (t : StateSnapshot ℕ) → get "t" (some v) st ≡ some t → v ≤ s.version))
    × (get "t" none st ≡ none → (v : ℕ) → get "t" (some v) st ≡ none)
after-latest_example = after-latest ops "t"

falls_back : get "t" none (after ops empty) ≡ some (version_of_task 5)
unfolding get after save delete lookup insert empty erase
falls_back = refl
