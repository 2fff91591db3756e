-- ===== src/Snapshots.antt =====
-- The snapshot stores of src/asap/state/stores/memory.py, of which there are two with one body: one
-- behind a thread lock, one behind an asyncio lock.
pub mod Latest
pub mod Runs
pub mod Reads
use asap_protocol.Prelude.{
  ℕ, String, Bool, true, false, Option, none, some, max, if◌then◌else◌, nat_eq, List, [], ◌∷◌, Dict,
  lookup, insert, erase, ◌==◌, string_eq, is_none, holds_at,
}

-- `J` is the type of JSON objects; a version is at least 1.
pub record StateSnapshot (J : Type 0) : Type 0 where
  pub id : String
  pub task_id : String
  pub version : ℕ
  pub state_data : J
  pub checkpoint : Bool
  pub created_at : ℕ

abbrev pub Versions : Type 0 → Type 0
Versions J = Dict ℕ (StateSnapshot J)

pub record SnapshotStore (J : Type 0) : Type 0 where
  pub snapshots : Dict String (Versions J)
  pub latest_versions : Dict String ℕ

abbrev pub or_zero : Option ℕ → ℕ
or_zero none = 0
or_zero (some n) = n

module _ {J : Type 0} where
  abbrev pub or_no_versions : Option (Versions J) → Versions J
  or_no_versions none = []
  or_no_versions (some vs) = vs

  unfoldable pub empty : SnapshotStore J
  empty = record { snapshots = []; latest_versions = [] }

  unfoldable pub save : StateSnapshot J → SnapshotStore J → SnapshotStore J
  save s st = record {
    snapshots =
        insert s.task_id (insert s.version s (or_no_versions (lookup s.task_id st.snapshots)))
          st.snapshots;
    latest_versions =
        insert s.task_id (max (or_zero (lookup s.task_id st.latest_versions)) s.version)
          st.latest_versions;
  }

  unfoldable pub get : String → Option ℕ → SnapshotStore J → Option (StateSnapshot J)
  get task version st = elim (lookup task st.snapshots) [
    | none ↦ none
    | some versions ↦ elim version [
      | some v ↦ lookup v versions
      | none ↦ elim (lookup task st.latest_versions) [ none ↦ none | some v ↦ lookup v versions ]
    ]
  ]

  -- `max(versions.keys())`
  unfoldable pub max_version : Versions J → ℕ
  max_version [] = 0
  max_version ((v, _) ∷ vs) = max v (max_version vs)

  abbrev pub has_none : Versions J → Bool
  has_none [] = true
  has_none (_ ∷ _) = false

  -- the two dicts once `version` is out of `versions`
  unfoldable pub without : String → ℕ → Versions J → SnapshotStore J → SnapshotStore J
  unfolding max_version
  without task version versions st =
      let rest = erase version versions in
      if has_none rest
      then record {
        snapshots = erase task st.snapshots;
        latest_versions = erase task st.latest_versions;
      }
      else record {
        snapshots = insert task rest st.snapshots;
        latest_versions =
            (if holds_at (λ latest. latest == version) (lookup task st.latest_versions)
              then insert task (max_version rest) st.latest_versions
              else st.latest_versions);
      }

  unfoldable pub delete : String → Option ℕ → SnapshotStore J → SnapshotStore J × Bool
  unfolding without
  delete task version st = elim (lookup task st.snapshots) [
    | none ↦ (st, false)
    | some versions ↦ elim version [
      | none ↦ (
        record {
          snapshots = erase task st.snapshots;
          latest_versions = erase task st.latest_versions;
        },
        true,
      )
      | some v ↦
          if is_none (lookup v versions) then (st, false) else (without task v versions st, true)
    ]
  ]
