-- ===== src/Delegation/Revoked.antt =====
-- What a cascade revokes, for src/asap/economics/delegation_storage.py.
use asap_protocol.Prelude.{
  ℕ, ◌*◌, ◌≤◌, String, true, Option, none, some, List, [], ◌∷◌, length, contains, string_eq, arith,
  ◌≡◌, ◌↔◌, ◌⊎◌, refl, sym, ap, ◌∙◌, inl, inr, Bool-cases,
}
use asap_protocol.Delegation.Storage.{
  Storage, Walk, walk, visit, max_cascade_depth, cascade_fuel, is_revoked, revoke_cascade,
}
use asap_protocol.Delegation.Walks.{unvisited-none, walk-returns, walk-keeps}
use asap_protocol.Delegation.Cascade.{
  Reach, here, there, IsSound, IsFull, visit-IsSound, visit-IsFull, queued,
}

unfoldable storage_of : Option Walk → Option Storage
storage_of o = elim o [ none ↦ none | some w ↦ some w.storage ]

abbrev start : String → Storage → Walk
start root s = record { visited = []; stack = (root, 0) ∷ []; storage = s }

start-IsSound : (root : String) (s : Storage) → IsSound s root (start root s)
unfolding contains
start-IsSound root s = record {
  issued = refl;
  stack = (here, tt);
  revoked = λ t. refl;
  visited = λ t e. cc;
}

start-IsFull : (root : String) (s : Storage) → IsFull s root (start root s)
unfolding contains queued
start-IsFull root s = record {
  issued = refl;
  bound = (omega (arith, unvisited-none s.issued), tt);
  closed = λ t c e f. cc;
  rooted = ground (arith, string_eq.beq_iff root root);
}

-- A token that the root leads to is visited, where the visited tokens are closed under issuing.
reached-visited :
    (root : String) (s : Storage) (w : Walk)
    → IsFull s root w
    → w.stack ≡ []
    → (t : String) → Reach s root t
    → contains t w.visited ≡ true
unfolding queued
reached-visited root s w h done t here = ground (arith, h.rooted, ap (queued root) done)
reached-visited root s w h done t (there {t = u} r c e) =
    ground (arith, h.closed u c (reached-visited root s w h done u r) e, ap (queued c) done)

module _ (clock : String → ℕ) (reason : Option String) (root : String) (s : Storage) where
  visit-root :
      (item : String × ℕ) (rest : List (String × ℕ)) (w : Walk)
      → w.stack ≡ item ∷ rest
      → contains root w.visited ≡ true
      → contains root (visit clock reason item (record w { stack = rest })).visited ≡ true
  unfolding visit contains
  visit-root (t, depth) rest w at h = ground arith

  first-root :
      contains root (visit clock reason (root, 0) (record (start root s) { stack = [] })).visited
      ≡ true
  unfolding visit contains
  first-root = ground (arith, string_eq.beq_iff root root)

  -- A cascade ends, whatever was issued to whom, cycles included.
  pub revoke_cascade-returns : (s' : Storage) × (revoke_cascade clock reason root s ≡ some s')
  unfolding revoke_cascade storage_of
  revoke_cascade-returns =
      let (w, e) =
        walk-returns clock reason (cascade_fuel s) (start root s)
          (rw (unvisited-none s.issued) (omega arith)) in
      (w.storage, ap storage_of e)

  -- the walk of the cascade, from its start and from its first visit
  cascade_walk :
      (w : Walk) × (walk clock reason (cascade_fuel s) (start root s) ≡ some w)
      × (walk clock reason
            (length s.issued * length s.issued)
            (visit clock reason (root, 0) (record (start root s) { stack = [] }))
          ≡ some w)
      × (revoke_cascade clock reason root s ≡ some w.storage)
  unfolding revoke_cascade storage_of walk
  cascade_walk =
      let (w, e) =
        walk-returns clock reason (cascade_fuel s) (start root s)
          (rw (unvisited-none s.issued) (omega arith)) in
      (w, e, e, ap storage_of e)

  sound_at :
      (w : Walk)
      → IsSound s root w
      → (t : String)
      → (is_revoked t w.storage ≡ is_revoked t s)
        ⊎ ((is_revoked t w.storage ≡ true) × Reach s root t)
  sound_at w h t = elim (Bool-cases (contains t w.visited)) [
    | inl seen ↦ inr (ground (arith, h.revoked t), h.visited t seen)
    | inr new ↦ inl (ground (arith, h.revoked t))
  ]

  pub revoke_cascade_revokes :
      length s.issued ≤ max_cascade_depth
      → (s' : Storage) × (revoke_cascade clock reason root s ≡ some s')
        × ((t : String) → (is_revoked t s' ≡ true) ↔ (Reach s root t ⊎ (is_revoked t s ≡ true)))
  revoke_cascade_revokes few =
      let (w, e, _, returned) = cascade_walk in
      let sound =
        walk-keeps clock reason (IsSound s root) (visit-IsSound clock reason s root)
          (cascade_fuel s) (start root s) w e (start-IsSound root s) in
      let full =
        walk-keeps clock reason (IsFull s root) (visit-IsFull clock reason s root few)
          (cascade_fuel s) (start root s) w e (start-IsFull root s) in
      (
        w.storage,
        returned,
        λ t. (
          λ h. elim (sound_at w sound.0 t) [ inl same ↦ inr (sym same ∙ h) | inr new ↦ inl new.1 ],
          λ h. elim h [
            | inl r ↦ ground (arith, sound.0.revoked t, reached-visited root s w full.0 full.1 t r)
            | inr was ↦ ground (arith, sound.0.revoked t)
          ],
        ),
      )

  -- Where no more than 50 tokens are issued, a cascade ends and revokes the tokens that the root leads
  -- to, the root included; all others are revoked after it exactly where they were before.
  pub revoke_cascade-exact :
      (t : String)
      → length s.issued ≤ max_cascade_depth
      → (s' : Storage) × (revoke_cascade clock reason root s ≡ some s')
        × ((is_revoked t s' ≡ true) ↔ (Reach s root t ⊎ (is_revoked t s ≡ true)))
  revoke_cascade-exact t few = let (s', e, h) = revoke_cascade_revokes few in (s', e, h t)

  -- Whatever was issued, a cascade ends, the root is revoked, and every token is as it was before or is
  -- revoked and one that the root leads to.
  pub revoke_cascade-within :
      (t : String)
      → (s' : Storage) × (revoke_cascade clock reason root s ≡ some s')
        × (is_revoked root s' ≡ true)
        × ((is_revoked t s' ≡ is_revoked t s) ⊎ ((is_revoked t s' ≡ true) × Reach s root t))
  revoke_cascade-within t =
      let (w, e, later, returned) = cascade_walk in
      let sound =
        walk-keeps clock reason (IsSound s root) (visit-IsSound clock reason s root)
          (cascade_fuel s) (start root s) w e (start-IsSound root s) in
      let rooted =
        walk-keeps clock reason (λ v. contains root v.visited ≡ true) visit-root
          (length s.issued * length s.issued)
          (visit clock reason (root, 0) (record (start root s) { stack = [] })) w later
          first-root in
      (w.storage, returned, ground (arith, sound.0.revoked root, rooted.0), sound_at w sound.0 t)
