-- ===== src/Identity/Index.antt =====
-- The index of thumbprints in `InMemoryHostStore` of src/asap/auth/identity.py.
use asap_protocol.Prelude.{
  String, Option, none, some, arith, ◌≡◌, refl, ap, sym, ◌∙◌, subst, Dict, lookup, insert,
  lookup-insert, lookup-erase, string_eq, beq_refl,
}
use asap_protocol.Identity.Keys.{jwk_thumbprint_sha256}
use asap_protocol.Identity.Hosts.{
  Hosts, HostIdentity, unindex, index_without, save_host, get_by_public_key,
}

from_some : {A : Type 0} {x y : A} → some x ≡ some y → x ≡ y
from_some e = cc

module _ (digest : Dict String String → String) where
  abbrev pub thumbprint_of : Option HostIdentity → Option String
  thumbprint_of none = none
  thumbprint_of (some h) = jwk_thumbprint_sha256 digest h.public_key

  -- The index leads from a thumbprint to a host that is stored with a key of that thumbprint.
  abbrev pub IsIndexed : Hosts → Type 0
  IsIndexed hs =
      (thumb id : String)
      → lookup thumb hs.thumb_to_host_id ≡ some id
      → thumbprint_of (lookup id hs.hosts) ≡ some thumb

  lookup-unindex :
      (host_id old_tp new_tp thumb id : String) (index : Dict String String)
      → lookup thumb (unindex host_id old_tp new_tp index) ≡ some id
      → (lookup thumb index ≡ some id) × ((thumb ≡ old_tp) → (id ≡ host_id) → old_tp ≡ new_tp)
  unfolding unindex
  lookup-unindex host_id old_tp new_tp thumb id index h = (
    ground (arith, lookup-erase old_tp thumb index),
    λ e f. ground (
      arith,
      lookup-erase old_tp thumb index,
      string_eq.beq_iff old_tp new_tp,
      string_eq.beq_iff old_tp thumb,
      string_eq.beq_iff id host_id,
    ),
  )

  -- what `save` writes
  unfoldable written : HostIdentity → String → Dict String String → Hosts → Hosts
  written host thumb index hs = record hs {
    hosts = insert host.host_id host hs.hosts;
    thumb_to_host_id = insert thumb host.host_id index;
  }

  written-IsIndexed :
      (host : HostIdentity) (thumb : String) (index : Dict String String) (hs : Hosts)
      → jwk_thumbprint_sha256 digest host.public_key ≡ some thumb
      → ((t id : String)
          → lookup t index ≡ some id
          → (thumbprint_of (lookup id hs.hosts) ≡ some t) × ((id ≡ host.host_id) → t ≡ thumb))
      → IsIndexed (written host thumb index hs)
  unfolding written
  written-IsIndexed host thumb index hs e keep t id at = ground (
    arith,
    lookup-insert thumb t host.host_id index,
    lookup-insert host.host_id id host hs.hosts,
    keep t id,
    string_eq.beq_iff host.host_id id,
    string_eq.beq_iff thumb t,
  )

  index_without-keeps :
      (host : HostIdentity) (thumb : String) (hs : Hosts) (index : Dict String String)
      → IsIndexed hs
      → index_without digest host.host_id (lookup host.host_id hs.hosts) thumb hs.thumb_to_host_id
        ≡ some index
      → (t id : String) → lookup t index ≡ some id
      → (thumbprint_of (lookup id hs.hosts) ≡ some t) × ((id ≡ host.host_id) → t ≡ thumb)
  unfolding index_without
  index_without-keeps host thumb hs index valid p t id at = go (lookup host.host_id hs.hosts) refl p
    where
      go :
          (o : Option HostIdentity)
          → lookup host.host_id hs.hosts ≡ o
          → index_without digest host.host_id o thumb hs.thumb_to_host_id ≡ some index
          → (thumbprint_of (lookup id hs.hosts) ≡ some t) × ((id ≡ host.host_id) → t ≡ thumb)
      go none q r =
          let here = subst (λ ix. lookup t ix ≡ some id) (sym (from_some r)) at in
          let print = valid t id here in
          (
            print,
            λ e.
                let nowhere : Option String = none in
                let gone : nowhere ≡ some t =
                  sym (ap (λ i. thumbprint_of (lookup i hs.hosts)) e ∙ ap thumbprint_of q)
                  ∙ print in
                cc,
          )
      go (some previous) q r = old (jwk_thumbprint_sha256 digest previous.public_key) refl r
        where
          old :
              (o : Option String)
              → jwk_thumbprint_sha256 digest previous.public_key ≡ o
              → (elim o [
                | none ↦ none
                | some old_tp ↦ some (unindex host.host_id old_tp thumb hs.thumb_to_host_id)
              ])
                ≡ some index
              → (thumbprint_of (lookup id hs.hosts) ≡ some t) × ((id ≡ host.host_id) → t ≡ thumb)
          old none e k = cc
          old (some old_tp) e k =
              let (here, moved) =
                lookup-unindex host.host_id old_tp thumb t id hs.thumb_to_host_id
                  (subst (λ ix. lookup t ix ≡ some id) (sym (from_some k)) at) in
              let print = valid t id here in
              (
                print,
                λ same.
                    let was : t ≡ old_tp = from_some (
                      sym print
                      ∙ ap (λ i. thumbprint_of (lookup i hs.hosts)) same
                      ∙ ap thumbprint_of q
                      ∙ e) in
                    was ∙ moved was same,
              )

  -- A host save that computes its thumbprints keeps the index right, each thumbprint leading to a
  -- stored host with a key of that thumbprint, and the new key's thumbprint then leads to the host
  -- just saved.
  pub save_host-IsIndexed :
      (host : HostIdentity) (thumb : String) (hs hs' : Hosts)
      → IsIndexed hs
      → jwk_thumbprint_sha256 digest host.public_key ≡ some thumb
      → save_host digest host hs ≡ some hs'
      → IsIndexed hs' × (get_by_public_key thumb hs' ≡ some host)
  unfolding save_host get_by_public_key lookup written
  save_host-IsIndexed host thumb hs hs' valid e h =
      go
        (index_without digest host.host_id (lookup host.host_id hs.hosts) thumb hs.thumb_to_host_id)
        refl (subst (λ o. o ≡ some hs') (rw (e, save_host) refl) h)
    where
      found :
          (index : Dict String String)
          → get_by_public_key thumb (written host thumb index hs) ≡ some host
      found index =
          rw (lookup-insert thumb thumb host.host_id index, get_by_public_key)
            ((rw (beq_refl thumb) (
              rw (lookup-insert host.host_id host.host_id host hs.hosts)
                (rw (beq_refl host.host_id) refl))))

      go :
          (o : Option (Dict String String))
          → index_without digest host.host_id
              (lookup host.host_id hs.hosts)
              thumb
              hs.thumb_to_host_id
            ≡ o
          → (elim o [ none ↦ none | some index ↦ some (written host thumb index hs) ]) ≡ some hs'
          → IsIndexed hs' × (get_by_public_key thumb hs' ≡ some host)
      go none p q = cc
      go (some index) p q =
          let same : written host thumb index hs ≡ hs' = cc in
          subst (λ w. IsIndexed w × (get_by_public_key thumb w ≡ some host)) same
            (
              written-IsIndexed host thumb index hs e
                  (λ t id at. index_without-keeps host thumb hs index valid p t id at),
              found index,
            )
