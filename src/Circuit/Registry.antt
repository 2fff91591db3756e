-- ===== src/Circuit/Registry.antt =====
-- `CircuitBreakerRegistry` of src/asap/transport/circuit_breaker.py. A breaker is a mutable object:
-- `heap` holds the objects in the order of their creation, and a reference is a place in it.
use asap_protocol.Prelude.{
  ℕ, ◌<◌, String, none, some, arith, List, [], ◌∷◌, ◌++◌, ◌≡◌, ◌≢◌, ap, Dict, lookup, insert,
  lookup-insert, length, length-append, string_eq, beq_refl,
}
use asap_protocol.Circuit.Breaker.{CircuitBreaker, fresh}

pub record Registry : Type 0 where
  pub breakers : Dict String ℕ
  pub heap : List CircuitBreaker

unfoldable pub empty : Registry
empty = record { breakers = []; heap = [] }

unfoldable pub get_or_create : String → ℕ → ℕ → Registry → Registry × ℕ
get_or_create base_url threshold timeout r = elim (lookup base_url r.breakers) [
  | some ref ↦ (r, ref)
  | none ↦ (
    record r {
      breakers = insert base_url (length r.heap) r.breakers;
      heap = r.heap ++ fresh threshold timeout ∷ [];
    },
    length r.heap,
  )
]

-- the objects outlive `clear`: a client that holds one keeps it
unfoldable pub clear : Registry → Registry
clear r = record r { breakers = [] }

-- Every reference points into the heap, and no two addresses share a breaker.
pub record IsValid (r : Registry) : Type 0 where
  pub bounded : (u : String) (i : ℕ) → lookup u r.breakers ≡ some i → i < length r.heap
  pub apart :
      (u v : String) (i : ℕ) → lookup u r.breakers ≡ some i → lookup v r.breakers ≡ some i → u ≡ v

pub empty-IsValid : IsValid empty
unfolding empty lookup
empty-IsValid = record { bounded = λ u i h. ground arith; apart = λ u v i h k. ground arith }

get_or_create-IsValid :
    (u : String) (n t : ℕ) (r : Registry) → IsValid r → IsValid (get_or_create u n t r).0
unfolding get_or_create
get_or_create-IsValid u n t r h = record {
  bounded = λ v i p. ground (
    arith,
    h.bounded v i,
    lookup-insert u v (length r.heap) r.breakers,
    length-append r.heap (fresh n t ∷ []),
  );
  apart = λ v w i p q. ground (
    arith,
    h.apart v w i,
    h.bounded v i,
    h.bounded w i,
    lookup-insert u v (length r.heap) r.breakers,
    lookup-insert u w (length r.heap) r.breakers,
    string_eq.beq_iff u v,
    string_eq.beq_iff u w,
  );
}

lookup-get_or_create :
    (u : String) (n t : ℕ) (r : Registry)
    → let (r', i) = get_or_create u n t r in lookup u r'.breakers ≡ some i
unfolding get_or_create
lookup-get_or_create u n t r =
    ground (arith, lookup-insert u u (length r.heap) r.breakers, beq_refl u)

lookup-get_or_create_kept :
    (u v : String) (i n t : ℕ) (r : Registry)
    → lookup u r.breakers ≡ some i
    → lookup u (get_or_create v n t r).0.breakers ≡ some i
unfolding get_or_create
lookup-get_or_create_kept u v i n t r h =
    ground (arith, lookup-insert v u (length r.heap) r.breakers, string_eq.beq_iff v u)

-- References are stable: after any `get_or_create` the address has the breaker that was returned,
-- a second call returns the same one and changes nothing, whatever settings it asks for.
pub get_or_create_again :
    (u : String) (n t m s : ℕ) (r : Registry)
    → get_or_create u m s (get_or_create u n t r).0 ≡ get_or_create u n t r
unfolding get_or_create
get_or_create_again u n t m s r =
    ground (arith, lookup-insert u u (length r.heap) r.breakers, beq_refl u)

-- In a registry where no two addresses share a breaker, two addresses get two breakers.
pub get_or_create_apart :
    (u v : String) (n t m s : ℕ) (r : Registry)
    → IsValid r
    → u ≢ v
    → let (r', i) = get_or_create u n t r in (get_or_create v m s r').1 ≢ i
get_or_create_apart u v n t m s r h ne e =
    let r' = (get_or_create u n t r).0 in
    let i = (get_or_create u n t r).1 in
    let valid = get_or_create-IsValid v m s r' (get_or_create-IsValid u n t r h) in
    ne (
      valid.apart u v i (lookup-get_or_create_kept u v i m s r' (lookup-get_or_create u n t r))
        (rw (lookup-get_or_create v m s r') (ap some e)))
