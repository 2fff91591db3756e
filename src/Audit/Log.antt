-- ===== src/Audit/Log.antt =====
-- `AuditEntry`, `compute_entry_hash` and `InMemoryAuditStore` of src/asap/economics/audit.py. The
-- libraries' functions are parameters: `sha256` is the hex digest of a text's bytes, `isoformat`
-- prints a timestamp, `dumps` prints the details with sorted keys.
use Prim.Native.String.{◌++◌ as ◌<>◌}
use asap_protocol.Prelude.{
  ℕ, zero, suc, String, Bool, true, false, ◌||◌, not, Option, none, some, leb, if◌then◌else◌, List,
  [], ◌∷◌, ◌++◌, keep_if, length, ◌==◌, string_eq,
}

pub record AuditEntry (Details : Type 0) : Type 0 where
  pub id : String
  pub timestamp : ℕ
  pub operation : String
  pub agent_urn : String
  pub details : Details
  pub prev_hash : String
  pub hash : String

-- the libraries' functions
pub record Library (Details : Type 0) : Type 0 where
  pub sha256 : String → String
  pub isoformat : ℕ → String
  pub dumps : Details → String

-- `xs[-1].hash if xs else prev`
unfoldable pub last_hash : {D : Type 0} → String → List (AuditEntry D) → String
last_hash prev [] = prev
last_hash prev (e ∷ es) = last_hash e.hash es

unfoldable pub drop : {A : Type 0} → ℕ → List A → List A
drop zero xs = xs
drop (suc n) [] = []
drop (suc n) (x ∷ xs) = drop n xs

unfoldable pub take : {A : Type 0} → ℕ → List A → List A
take zero xs = []
take (suc n) [] = []
take (suc n) (x ∷ xs) = x ∷ take n xs

module _ {D : Type 0} (lib : Library D) where
  -- what follows the previous hash in the canonical form
  unfoldable pub content : AuditEntry D → String
  content e = lib.isoformat e.timestamp <> ("|" <> (e.operation <> ("|" <> lib.dumps e.details)))

  unfoldable pub canonical : String → AuditEntry D → String
  unfolding content
  canonical prev e = prev <> ("|" <> content e)

  unfoldable pub compute_entry_hash : String → AuditEntry D → String
  unfolding canonical
  compute_entry_hash prev e = lib.sha256 (canonical prev e)

  unfoldable pub append : AuditEntry D → List (AuditEntry D) → List (AuditEntry D) × AuditEntry D
  unfolding last_hash compute_entry_hash
  append entry entries =
      let prev = last_hash "" entries in
      let sealed = record entry { prev_hash = prev; hash = compute_entry_hash prev entry } in
      (entries ++ sealed ∷ [], sealed)

  -- the loop of `verify_chain`
  unfoldable pub verify_from : String → List (AuditEntry D) → Bool
  unfolding compute_entry_hash
  verify_from prev [] = true
  verify_from prev (e ∷ es) =
      let rest = verify_from e.hash es in
      if not (e.hash == compute_entry_hash prev e) || not (e.prev_hash == prev) then false else rest

  unfoldable pub verify_chain : List (AuditEntry D) → Bool
  unfolding verify_from
  verify_chain entries = verify_from "" entries

-- `if agent_urn: [e for e in results if e.agent_urn == agent_urn]`: an empty name filters nothing
unfoldable pub of_agent : {D : Type 0} → Option String → AuditEntry D → Bool
of_agent none e = true
of_agent (some urn) e = if urn == "" then true else e.agent_urn == urn

unfoldable pub from_start : {D : Type 0} → Option ℕ → AuditEntry D → Bool
from_start none e = true
from_start (some start) e = leb start e.timestamp

unfoldable pub until_end : {D : Type 0} → Option ℕ → AuditEntry D → Bool
until_end none e = true
until_end (some end) e = leb e.timestamp end

-- `limit` and `offset` are not negative
unfoldable pub query :
    {D : Type 0}
    → Option String
    → Option ℕ
    → Option ℕ
    → ℕ
    → ℕ
    → List (AuditEntry D)
    → List (AuditEntry D)
unfolding of_agent from_start until_end take drop
query agent_urn start end limit offset entries = take limit (
    drop offset
      (keep_if (until_end end) (keep_if (from_start start) (keep_if (of_agent agent_urn) entries))))

unfoldable pub count : {D : Type 0} → List (AuditEntry D) → ℕ
count entries = length entries
