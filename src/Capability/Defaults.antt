-- ===== src/Capability/Defaults.antt =====
-- When `escalation_requires_user_consent` of src/asap/auth/capabilities.py lets names through.
use mathlib.Core.List.{Subset, not-mem-nil, cons-subset}
use asap_protocol.Prelude.{String, true, false, List, [], ◌∷◌, string_eq, contains-Mem, arith, ◌≡◌}
use asap_protocol.Identity.Hosts.{HostIdentity, HostStatus}
use asap_protocol.Capability.Escalation.{is_subset, escalation_requires_user_consent}

-- the host is active, and the names are among its defaults
pub record IsPreapproved (host : HostIdentity) (names : List String) : Type 0 where
  pub live : host.status ≡ HostStatus.active
  pub granted : Subset names host.default_capabilities

is_subset-Subset : (xs ys : List String) → is_subset xs ys ≡ true → Subset xs ys
unfolding is_subset
is_subset-Subset [] ys h = λ b m. absurd (not-mem-nil m)
is_subset-Subset (x ∷ xs) ys h =
    cons-subset.1 ((contains-Mem x ys).0 (ground arith), is_subset-Subset xs ys (ground arith))

pub escalation_requires_user_consent-IsPreapproved :
    (host : HostIdentity) (names : List String)
    → escalation_requires_user_consent host names ≡ false
    → IsPreapproved host names
unfolding escalation_requires_user_consent
escalation_requires_user_consent-IsPreapproved host names h = record {
  live = ground arith;
  granted = is_subset-Subset names host.default_capabilities (ground arith);
}
