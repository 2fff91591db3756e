-- ===== src/Snapshots/Reads.antt =====
-- What a read of a store of src/asap/state/stores/memory.py gives.
use asap_protocol.Prelude.{
  ℕ, ◌≤◌, String, Option, none, some, if◌then◌else◌, nat_eq, lookup, insert, ◌==◌, string_eq,
  lookup-insert, arith, ◌≡◌, refl, ap, ◌∙◌,
}
use asap_protocol.Snapshots.{StateSnapshot, Versions, SnapshotStore, or_no_versions, save, get}
use asap_protocol.Snapshots.Latest.{IsValid, Agree}

module _ {J : Type 0} where
  -- `get` over the two entries of a task
  abbrev read : Option (Versions J) → Option ℕ → Option ℕ → Option (StateSnapshot J)
  read o l version = elim o [
    | none ↦ none
    | some versions ↦ elim version [
      | some v ↦ lookup v versions
      | none ↦ elim l [ none ↦ none | some v ↦ lookup v versions ]
    ]
  ]

  read_latest :
      (o : Option (Versions J)) (l : Option ℕ)
      → Agree o l
      → ((s : StateSnapshot J)
          → read o l none ≡ some s
          → (read o l (some s.version) ≡ some s)
            × ((v : ℕ) (t : StateSnapshot J) → read o l (some v) ≡ some t → v ≤ s.version))
        × (read o l none ≡ none → (v : ℕ) → read o l (some v) ≡ none)
  read_latest none none a = (λ s e. cc, λ e v. refl)
  read_latest none (some l) a = absurd a
  read_latest (some versions) none a = absurd a
  read_latest (some versions) (some l) a = (
    λ s e.
        let same = (a.bound l s e).0 in
        (ap (λ k. lookup k versions) same ∙ e, λ v t k. ground (arith, same, (a.bound v t k).1)),
    λ e v. let there = a.held in absurd (ground (arith, e, there)),
  )

  read_or_none :
      (o : Option (Versions J)) (v : ℕ) → lookup v (or_no_versions o) ≡ read o none (some v)
  unfolding lookup
  read_or_none none v = refl
  read_or_none (some versions) v = refl

  -- A store whose two dicts agree answers a read without a version with the greatest version held.
  pub get-latest :
      (task : String) (st : SnapshotStore J)
      → IsValid st
      → ((s : StateSnapshot J)
          → get task none st ≡ some s
          → (get task (some s.version) st ≡ some s)
            × ((v : ℕ) (t : StateSnapshot J) → get task (some v) st ≡ some t → v ≤ s.version))
        × (get task none st ≡ none → (v : ℕ) → get task (some v) st ≡ none)
  unfolding get
  get-latest task st h =
      read_latest (lookup task st.snapshots) (lookup task st.latest_versions) (h task)

  -- A saved snapshot is read back under its version, and every other version of every task reads as it did.
  pub get-save :
      (s : StateSnapshot J) (st : SnapshotStore J) (task : String) (v : ℕ)
      → get task (some v) (save s st) ≡ (
          if s.task_id == task
          then (if s.version == v then some s else get task (some v) st)
          else get task (some v) st)
  unfolding get save
  get-save s st task v = ground (
    arith,
    lookup-insert s.task_id task
        (insert s.version s (or_no_versions (lookup s.task_id st.snapshots))) st.snapshots,
    lookup-insert s.version v s (or_no_versions (lookup s.task_id st.snapshots)),
    string_eq.beq_iff s.task_id task,
    read_or_none (lookup s.task_id st.snapshots) v,
  )
