-- ===== src/Delegation/Storage.antt =====
-- `InMemoryDelegationStorage` of src/asap/economics/delegation_storage.py. Its lock makes each method
-- one step.
use asap_protocol.Prelude.{
  ℕ, zero, suc, ◌*◌, String, Bool, ◌||◌, not, Option, none, some, if◌then◌else◌, ltb, is_none, List,
  [], ◌∷◌, length, Dict, lookup, insert, contains, keys_where, ◌==◌, string_eq,
}

pub record Issued : Type 0 where
  pub delegator : String
  pub delegate : Option String
  pub created_at : ℕ

pub record Revocation : Type 0 where
  pub at : ℕ
  pub reason : Option String

pub record Storage : Type 0 where
  pub revoked : Dict String Revocation
  pub issued : Dict String Issued

unfoldable pub empty : Storage
empty = record { revoked = []; issued = [] }

unfoldable pub revoke : ℕ → Option String → String → Storage → Storage
revoke now reason token s = record s {
  revoked = insert token (record { at = now; reason = reason }) s.revoked;
}

unfoldable pub is_revoked : String → Storage → Bool
is_revoked token s = not (is_none (lookup token s.revoked))

unfoldable pub register_issued : ℕ → String → String → Option String → Storage → Storage
register_issued now token delegator delegate s = record s {
  issued =
      insert token (record { delegator = delegator; delegate = delegate; created_at = now })
        s.issued;
}

unfoldable pub get_delegator : String → Storage → Option String
get_delegator token s = elim (lookup token s.issued) [ none ↦ none | some e ↦ some e.delegator ]

unfoldable pub get_delegate : String → Storage → Option String
get_delegate token s = elim (lookup token s.issued) [ none ↦ none | some e ↦ e.delegate ]

unfoldable pub list_token_ids_issued_by : String → Storage → List String
list_token_ids_issued_by delegator s = keys_where (λ e. e.delegator == delegator) s.issued

unfoldable pub get_issued_at : String → Storage → Option ℕ
get_issued_at token s = elim (lookup token s.issued) [ none ↦ none | some e ↦ some e.created_at ]

unfoldable pub get_revoked_at : String → Storage → Option ℕ
get_revoked_at token s = elim (lookup token s.revoked) [ none ↦ none | some r ↦ some r.at ]

unfoldable pub are_revoked : List String → Storage → Dict String Bool
unfolding is_revoked
are_revoked [] s = []
are_revoked (t ∷ ts) s = (t, is_revoked t s) ∷ are_revoked ts s

pub record TokenDetail : Type 0 where
  pub id : String
  pub delegator_urn : String
  pub delegate_urn : Option String
  pub issued_at : ℕ
  pub has_revocation : Bool
  pub revoked_at : Option ℕ

unfoldable pub get_token_detail : String → Storage → Option TokenDetail
unfolding is_revoked get_revoked_at
get_token_detail token s = elim (lookup token s.issued) [
  | none ↦ none
  | some e ↦ some (record {
    id = token;
    delegator_urn = e.delegator;
    delegate_urn = e.delegate;
    issued_at = e.created_at;
    has_revocation = is_revoked token s;
    revoked_at = get_revoked_at token s;
  })
]

abbrev pub max_cascade_depth : ℕ
max_cascade_depth = 50

-- the tokens that the token's delegate issued: none where it has no delegate, or an empty one
unfoldable pub children : String → Storage → List String
unfolding get_delegate list_token_ids_issued_by
children token s = elim (get_delegate token s) [
  | none ↦ []
  | some urn ↦ if urn == "" then [] else list_token_ids_issued_by urn s
]

-- the loop's variables, with the top of the stack first
pub record Walk : Type 0 where
  pub visited : List String
  pub stack : List (String × ℕ)
  pub storage : Storage

-- `for child_id in child_ids: stack.append((child_id, depth))`
unfoldable pub push : ℕ → List String → List (String × ℕ) → List (String × ℕ)
push depth [] stack = stack
push depth (c ∷ cs) stack = push depth cs ((c, depth) ∷ stack)

-- The loop's body on the item that was popped. `clock` reads the time at which a token is revoked.
unfoldable pub visit : (String → ℕ) → Option String → String × ℕ → Walk → Walk
unfolding children revoke
visit clock reason (token, depth) w =
    if contains token w.visited || ltb max_cascade_depth depth then w else record {
      visited = token ∷ w.visited;
      stack = push (suc depth) (children token w.storage) w.stack;
      storage = revoke (clock token) reason token w.storage;
    }

-- `while stack`, `none` where the fuel runs out
unfoldable pub walk : (String → ℕ) → Option String → ℕ → Walk → Option Walk
unfolding visit
walk clock reason zero w = elim w.stack [ [] ↦ some w | _ ∷ _ ↦ none ]
walk clock reason (suc n) w = elim w.stack [
  | [] ↦ some w
  | item ∷ rest ↦ walk clock reason n (visit clock reason item (record w { stack = rest }))
]

-- one pop for the root, and for each issued token as many as there are issued tokens
abbrev pub cascade_fuel : Storage → ℕ
cascade_fuel s = suc (length s.issued * length s.issued)

unfoldable pub revoke_cascade : (String → ℕ) → Option String → String → Storage → Option Storage
unfolding walk
revoke_cascade clock reason token s =
    elim (walk clock reason (cascade_fuel s)
      (record { visited = []; stack = (token, 0) ∷ []; storage = s })) [
        | none ↦ none
        | some w ↦ some w.storage
      ]
