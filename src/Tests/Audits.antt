-- ===== src/Tests/Audits.antt =====
-- A log of two entries, for src/asap/economics/audit.py. The digest here keeps a text's length only.
use asap_protocol.Prelude.{String, true, List, [], arith, ◌≡◌, refl, ◌⊎◌}
use asap_protocol.Audit.Log.{AuditEntry, Library, append, verify_chain}
use asap_protocol.Audit.Bars.{has_no_bar}
use asap_protocol.Audit.Chain.{IsCollision, find_collision, AreAlike, verify_chain-commits}

abbrev tally : String → String
tally String.[] = String.[]
tally (String.◌∷◌ c s) = String.◌∷◌ "f" (tally s)

tally-has_no_bar : (s : String) → has_no_bar (tally s) ≡ true
unfolding has_no_bar
tally-has_no_bar String.[] = refl
tally-has_no_bar (String.◌∷◌ c s) = ground (arith, tally-has_no_bar s)

abbrev lib : Library String
lib = record { sha256 = tally; isoformat = λ t. "T"; dumps = λ d. d }

abbrev asked : AuditEntry String
asked = record {
  id = "1";
  timestamp = 10;
  operation = "task.request";
  agent_urn = "urn:a";
  details = "{}";
  prev_hash = "";
  hash = "";
}

abbrev log : List (AuditEntry String)
log = (append lib asked []).0

-- the same entry under another id, of another agent
abbrev moved : List (AuditEntry String)
moved = (append lib (record asked { id = "9"; agent_urn = "urn:b" }) []).0

verifies : verify_chain lib (append lib asked log).0 ≡ true
unfolding verify_chain append
verifies = refl

verify_chain-commits_example :
    IsCollision lib (find_collision lib "" "" log moved) ⊎ AreAlike lib log moved
unfolding append verify_chain has_no_bar
verify_chain-commits_example =
    verify_chain-commits lib tally-has_no_bar (λ t. refl) log moved (refl, tt) (refl, tt) refl refl
      refl refl
