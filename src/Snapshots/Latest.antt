-- ===== src/Snapshots/Latest.antt =====
-- Which snapshot a store of src/asap/state/stores/memory.py takes for the latest.
use asap_protocol.Prelude.{
  ℕ, ◌≤◌, String, Bool, true, false, Option, none, some, max, if◌then◌else◌, nat_eq, [], ◌∷◌,
  lookup, insert, erase, ◌==◌, string_eq, is_none, lookup-insert, lookup-erase, arith, ◌≡◌, refl,
  ap, sym, ◌∙◌, subst,
}
use asap_protocol.Snapshots.{
  StateSnapshot, Versions, SnapshotStore, or_zero, or_no_versions, save, max_version, has_none,
  without, delete,
}

module _ {J : Type 0} where
  -- each snapshot stands under its version, and `v` is the greatest version there
  pub record IsGreatest (v : ℕ) (versions : Versions J) : Type 0 where
    pub held : is_none (lookup v versions) ≡ false
    pub bound :
        (k : ℕ) (s : StateSnapshot J) → lookup k versions ≡ some s → (s.version ≡ k) × (k ≤ v)

  abbrev pub Agree : Option (Versions J) → Option ℕ → Type 0
  Agree none none = Unit
  Agree (some versions) (some v) = IsGreatest v versions
  Agree _ _ = ⊥

  -- For each task, both dicts have it or neither, and its latest version is its greatest.
  abbrev pub IsValid : SnapshotStore J → Type 0
  IsValid st = (task : String) → Agree (lookup task st.snapshots) (lookup task st.latest_versions)

  version_of : Option (StateSnapshot J) → ℕ
  version_of none = 0
  version_of (some s) = s.version

  save-Agree :
      (s : StateSnapshot J) (o : Option (Versions J)) (v : Option ℕ)
      → Agree o v
      → IsGreatest (max (or_zero v) s.version) (insert s.version s (or_no_versions o))
  unfolding insert lookup version_of
  save-Agree s none none h = record {
    held = ground arith;
    bound = λ k t e. ground (arith, ap version_of e, lookup-insert s.version k s []);
  }
  save-Agree s (some versions) (some v) h = record {
    held = ground (arith, h.held, lookup-insert s.version (max v s.version) s versions);
    bound = λ k t e. ground (
      arith,
      h.bound k t,
      ap version_of (sym (lookup-insert s.version k s versions) ∙ e),
      sym (lookup-insert s.version k s versions) ∙ e,
    );
  }
  save-Agree s none (some v) h = absurd h
  save-Agree s (some versions) none h = absurd h

  pub save-IsValid : (s : StateSnapshot J) (st : SnapshotStore J) → IsValid st → IsValid (save s st)
  unfolding save
  save-IsValid s st h task = ground (
    arith,
    lookup-insert s.task_id task
        (insert s.version s (or_no_versions (lookup s.task_id st.snapshots))) st.snapshots,
    lookup-insert s.task_id task (max (or_zero (lookup s.task_id st.latest_versions)) s.version)
        st.latest_versions,
    h task,
    save-Agree s (lookup s.task_id st.snapshots) (lookup s.task_id st.latest_versions)
        (h s.task_id),
  )

  max_version-bounds :
      (rest : Versions J) (k : ℕ) (s : StateSnapshot J)
      → lookup k rest ≡ some s
      → k ≤ max_version rest
  unfolding max_version lookup
  max_version-bounds [] k s e = ground arith
  max_version-bounds ((v, t) ∷ vs) k s e = ground (arith, max_version-bounds vs k s)

  max_version_held :
      (rest : Versions J) → has_none rest ≡ false → is_none (lookup (max_version rest) rest) ≡ false
  unfolding max_version lookup
  max_version_held [] h = cc
  max_version_held ((v, t) ∷ []) h = ground arith
  max_version_held ((v, t) ∷ (w, u) ∷ vs) h = ground (arith, max_version_held ((w, u) ∷ vs) refl)

  erase-IsGreatest :
      (l v : ℕ) (versions : Versions J)
      → IsGreatest l versions
      → has_none (erase v versions) ≡ false
      → IsGreatest (if l == v then max_version (erase v versions) else l) (erase v versions)
  erase-IsGreatest l v versions h some_left = record {
    held = ground (arith, h.held, lookup-erase v l versions, max_version_held (erase v versions));
    bound = λ k s e.
        ground (
          arith,
          lookup-erase v k versions,
          h.bound k s,
          max_version-bounds (erase v versions) k s,
        );
  }

  drop_task-IsValid :
      (task : String) (st : SnapshotStore J)
      → IsValid st
      → IsValid (record {
        snapshots = erase task st.snapshots;
        latest_versions = erase task st.latest_versions;
      })
  drop_task-IsValid task st h other = ground (
    arith,
    lookup-erase task other st.snapshots,
    lookup-erase task other st.latest_versions,
    h other,
  )

  without-IsValid :
      (task : String) (v : ℕ) (versions : Versions J) (st : SnapshotStore J)
      → lookup task st.snapshots ≡ some versions
      → IsValid st
      → IsValid (without task v versions st)
  unfolding without
  without-IsValid task v versions st at h =
      go (has_none (erase v versions)) refl (lookup task st.latest_versions) refl
    where
      go :
          (b : Bool)
          → has_none (erase v versions) ≡ b
          → (l : Option ℕ) → lookup task st.latest_versions ≡ l
          → IsValid (without task v versions st)
      go true p l q = rw (p, without) (drop_task-IsValid task st h)
      go false p none q = absurd (
          subst (λ o. Agree o none) at (subst (λ o. Agree (lookup task st.snapshots) o) q (h task)))
      go false p (some l) q =
          rw (p, without)
            (λ other.
              let here =
                subst (λ o. Agree o (some l)) at
                  (subst (λ o. Agree (lookup task st.snapshots) o) q (h task)) in
              rw q (
                ground (
                  arith,
                  lookup-insert task other (erase v versions) st.snapshots,
                  lookup-insert task other (max_version (erase v versions)) st.latest_versions,
                  h other,
                  erase-IsGreatest l v versions here p,
                  string_eq.beq_iff task other,
                  q,
                )))

  pub delete-IsValid :
      (task : String) (version : Option ℕ) (st : SnapshotStore J)
      → IsValid st
      → IsValid (delete task version st).0
  unfolding delete
  delete-IsValid task version st h = go (lookup task st.snapshots) refl version
    where
      pick :
          (v : ℕ) (versions : Versions J)
          → lookup task st.snapshots ≡ some versions
          → (b : Bool)
          → let r : SnapshotStore J × Bool =
              (if b then (st, false) else (without task v versions st, true)) in
            IsValid r.0
      pick v versions p true = h
      pick v versions p false = without-IsValid task v versions st p h

      go :
          (o : Option (Versions J))
          → lookup task st.snapshots ≡ o
          → (w : Option ℕ) → IsValid (delete task w st).0
      go none p w = rw (p, delete) h
      go (some versions) p none = rw (p, delete) (drop_task-IsValid task st h)
      go (some versions) p (some v) =
          rw (p, delete) (pick v versions p (is_none (lookup v versions)))
