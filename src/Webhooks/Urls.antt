-- ===== src/Webhooks/Urls.antt =====
-- The checks of callback URLs in src/asap/transport/webhook.py. The parsing of a URL, of an address, and
-- the resolution of a name are the standard library's, and parameters here.
use asap_protocol.Prelude.{
  String, Bool, true, false, ◌||◌, not, some_inj, Option, none, some, if◌then◌else◌, List, [], ◌∷◌,
  ◌==◌, string_eq, contains, Result, ok, err, raise_if, arith, ◌≡◌, ◌↔◌, refl, subst, Bool-cases,
  inl, inr, All, ap, sym, ◌∙◌,
}

-- what `urlparse` reads of a URL
pub record ParsedUrl : Type 0 where
  pub scheme : String
  pub hostname : Option String
  pub rest : String

-- what `ip_address` tells of an address
pub record Address : Type 0 where
  pub is_private : Bool
  pub is_loopback : Bool
  pub is_link_local : Bool
  pub is_reserved : Bool

-- the reasons of `WebhookURLValidationError`
pub data UrlError : Type 0 where
  scheme_not_allowed no_hostname blocked_host resolution_failed blocked_address : UrlError

unfoldable pub allowed_schemes : Bool → List String
allowed_schemes true = "https" ∷ []
allowed_schemes false = "http" ∷ "https" ∷ []

-- `if not hostname`
unfoldable pub hostname_of : ParsedUrl → Option String
hostname_of url = elim url.hostname [ none ↦ none | some h ↦ if h == "" then none else some h ]

-- the addresses without repetition, in their order
unfoldable pub distinct_ips : List String → List String → List String
distinct_ips seen [] = []
distinct_ips seen (ip ∷ ips) =
    let rest = distinct_ips (ip ∷ seen) ips in
    if contains ip seen then distinct_ips seen ips else ip ∷ rest

module _ (ip_address : String → Option Address) where
  unfoldable pub is_ip_blocked : String → Bool
  is_ip_blocked addr = elim (ip_address addr) [
    | none ↦ false
    | some ip ↦ ip.is_private || ip.is_loopback || ip.is_link_local || ip.is_reserved
  ]

  unfoldable pub any_blocked : List String → Bool
  unfolding is_ip_blocked
  any_blocked [] = false
  any_blocked (ip ∷ ips) = let rest = any_blocked ips in if is_ip_blocked ip then true else rest

  -- `getaddrinfo` is none where it raises
  unfoldable pub resolve_hostname :
      (String → Option (List String)) → String → Result UrlError (List String)
  unfolding distinct_ips
  resolve_hostname getaddrinfo hostname = elim (getaddrinfo hostname) [
    | none ↦ err resolution_failed
    | some ips ↦ ok (distinct_ips [] ips)
  ]

  unfoldable pub validate_callback_url :
      (String → Option (List String)) → Bool → ParsedUrl → Result UrlError (Unit {0})
  unfolding allowed_schemes hostname_of is_ip_blocked any_blocked resolve_hostname
  validate_callback_url getaddrinfo require_https url =
      if not (contains url.scheme (allowed_schemes require_https))
      then err scheme_not_allowed
      else elim (hostname_of url) [
        | none ↦ err no_hostname
        | some hostname ↦
            if is_ip_blocked hostname
            then err blocked_host
            else elim (resolve_hostname getaddrinfo hostname) [
              | err e ↦ err e
              | ok ips ↦ raise_if (any_blocked ips) blocked_address
            ]
      ]

  -- a WebSocket scheme counts as its HTTP scheme; `urlparse` gives schemes in lower case
  unfoldable pub as_http : ParsedUrl → ParsedUrl
  as_http url =
      if url.scheme == "ws"
      then record url { scheme = "http" }
      else if url.scheme == "wss"
      then record url { scheme = "https" }
      else url

  unfoldable pub validate_agent_endpoint_url :
      (String → Option (List String)) → Bool → ParsedUrl → Result UrlError (Unit {0})
  unfolding as_http validate_callback_url
  validate_agent_endpoint_url getaddrinfo require_https url =
      validate_callback_url getaddrinfo require_https (as_http url)

  -- Every address that the name resolves to is open, and so is the name where it is an address.
  pub record IsOpen (getaddrinfo : String → Option (List String)) (require_https : Bool)
      (url : ParsedUrl) : Type 0 where
    pub hostname : String
    pub ips : List String
    pub scheme : contains url.scheme (allowed_schemes require_https) ≡ true
    pub named : hostname_of url ≡ some hostname
    pub resolved : getaddrinfo hostname ≡ some ips
    pub open_host : is_ip_blocked hostname ≡ false
    pub open_ips : All (λ ip. is_ip_blocked ip ≡ false) ips

  abbrev IsOpenAddress : String → Type 0
  IsOpenAddress ip = is_ip_blocked ip ≡ false

  open_seen-member :
      (ip : String) (seen : List String)
      → All IsOpenAddress seen
      → contains ip seen ≡ true
      → IsOpenAddress ip
  unfolding contains
  open_seen-member ip [] h k = cc
  open_seen-member ip (j ∷ js) h k = elim (Bool-cases (j == ip)) [
    | inl same ↦ subst IsOpenAddress ((string_eq.beq_iff j ip).0 same) h.0
    | inr other ↦ open_seen-member ip js h.1 (ground arith)
  ]

  any_blocked-distinct_ips :
      (seen ips : List String)
      → All IsOpenAddress seen
      → (any_blocked (distinct_ips seen ips) ≡ false) ↔ All IsOpenAddress ips
  unfolding any_blocked distinct_ips
  any_blocked-distinct_ips seen [] known = (λ h. tt, λ h. refl)
  any_blocked-distinct_ips seen (ip ∷ ips) known = elim (Bool-cases (contains ip seen)) [
    | inl again ↦
        let (to, back) = any_blocked-distinct_ips seen ips known in
        rw again (λ h. (open_seen-member ip seen known again, to h), λ (h, k). back k)
    | inr new ↦ rw new (elim (Bool-cases (is_ip_blocked ip)) [
      | inl bad ↦ (
        λ h. let wrong : true ≡ false = rw⁻¹ bad (ground arith) in cc,
        λ (h, k). let wrong = sym bad ∙ h in cc,
      )
      | inr good ↦
          let (to, back) = any_blocked-distinct_ips (ip ∷ seen) ips (good, known) in
          rw good (λ h. (refl, to h), λ (h, k). back k)
    ])
  ]

  after_resolving : Result UrlError (List String) → Result UrlError (Unit {0})
  after_resolving r = elim r [ err e ↦ err e | ok ips ↦ raise_if (any_blocked ips) blocked_address ]

  after_naming : (String → Option (List String)) → Option String → Result UrlError (Unit {0})
  unfolding after_resolving
  after_naming getaddrinfo o = elim o [
    | none ↦ err no_hostname
    | some hostname ↦
        if is_ip_blocked hostname
        then err blocked_host
        else after_resolving (resolve_hostname getaddrinfo hostname)
  ]

  raise_if_iff : (b : Bool) (e : UrlError) → (raise_if b e ≡ ok tt) ↔ (b ≡ false)
  raise_if_iff true e = (λ h. cc, λ h. cc)
  raise_if_iff false e = (λ h. refl, λ h. refl)

  resolved_iff :
      (o : Option (List String))
      → (after_resolving
            (elim o [ none ↦ err resolution_failed | some ips ↦ ok (distinct_ips [] ips) ])
          ≡ ok tt)
        ↔ ((ips : List String) × (o ≡ some ips) × All IsOpenAddress ips)
  unfolding after_resolving
  resolved_iff none = (λ h. cc, λ (ips, h, k). cc)
  resolved_iff (some ips) =
      let (to, back) = any_blocked-distinct_ips [] ips tt in
      let (into, out) = raise_if_iff (any_blocked (distinct_ips [] ips)) blocked_address in
      (
        λ h. (ips, refl, to (into h)),
        λ (js, h, k). out (back (subst (All IsOpenAddress) (sym (some_inj h)) k)),
      )

  named_iff :
      (getaddrinfo : String → Option (List String)) (o : Option String)
      → (after_naming getaddrinfo o ≡ ok tt) ↔ (
          (hostname : String) × (ips : List String) × (o ≡ some hostname)
          × (getaddrinfo hostname ≡ some ips)
          × IsOpenAddress hostname
          × All IsOpenAddress ips)
  unfolding after_naming resolve_hostname
  named_iff getaddrinfo none = (λ h. cc, λ (n, ips, h, _, _, _). cc)
  named_iff getaddrinfo (some hostname) = elim (Bool-cases (is_ip_blocked hostname)) [
    | inl bad ↦ rw bad (
      λ h. cc,
      λ (n, ips, h, r, k, _). let wrong = sym bad ∙ subst IsOpenAddress (sym (some_inj h)) k in cc,
    )
    | inr good ↦
        let (to, back) = resolved_iff (getaddrinfo hostname) in
        rw good (
          λ h. let (ips, r, a) = to h in (hostname, ips, refl, r, good, a),
          λ (n, ips, h, r, k, a). back (ips, ap getaddrinfo (some_inj h) ∙ r, a),
        )
  ]

  -- A callback URL is let through exactly where its scheme is allowed, it names a host, the host is not a
  -- blocked address, and its name resolves to addresses of which none is blocked.
  pub validate_callback_url-ok_iff :
      (getaddrinfo : String → Option (List String)) (require_https : Bool) (url : ParsedUrl)
      → (validate_callback_url getaddrinfo require_https url ≡ ok tt)
        ↔ IsOpen getaddrinfo require_https url
  unfolding validate_callback_url after_naming after_resolving
  validate_callback_url-ok_iff getaddrinfo require_https url =
      elim (Bool-cases (contains url.scheme (allowed_schemes require_https))) [
        | inr banned ↦ rw banned (λ h. cc, λ h. let wrong = sym banned ∙ h.scheme in cc)
        | inl allowed ↦
            let (to, back) = named_iff getaddrinfo (hostname_of url) in
            rw allowed (
              λ h.
                  let (n, ips, named, r, k, a) = to h in
                  record {
                    hostname = n;
                    ips = ips;
                    scheme = allowed;
                    named = named;
                    resolved = r;
                    open_host = k;
                    open_ips = a;
                  },
              λ h. back (h.hostname, h.ips, h.named, h.resolved, h.open_host, h.open_ips),
            )
      ]
