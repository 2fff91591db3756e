-- ===== src/Manifests/Cache.antt =====
-- `ManifestCache` of src/asap/transport/cache.py. Its lock makes each method one step, and a step reads
-- the monotonic clock once. The type of manifests is a parameter.
use asap_protocol.Prelude.{
  ℕ, suc, ◌+◌, String, Bool, not, Option, none, some, if◌then◌else◌, ltb, leb, is_none, [], ◌∷◌,
  length, Dict, lookup, insert, erase, keys_where, prune, string_eq,
}

pub record CacheEntry (V : Type 0) : Type 0 where
  pub manifest : V
  pub expires_at : ℕ

unfoldable pub is_expired : {V : Type 0} → ℕ → CacheEntry V → Bool
is_expired now e = leb e.expires_at now

-- the entries with the least recently used first
pub record ManifestCache (V : Type 0) : Type 0 where
  pub entries : Dict String (CacheEntry V)
  pub default_ttl : ℕ
  pub max_size : ℕ

-- `ttl if ttl is not None else default`
abbrev pub or_else : Option ℕ → ℕ → ℕ
or_else none d = d
or_else (some n) d = n

module _ {V : Type 0} where
  unfoldable pub empty : ℕ → ℕ → ManifestCache V
  empty default_ttl max_size = record {
    entries = [];
    default_ttl = default_ttl;
    max_size = max_size;
  }

  -- `OrderedDict.move_to_end` on a key that is there
  unfoldable pub move_to_end :
      String → CacheEntry V → Dict String (CacheEntry V) → Dict String (CacheEntry V)
  move_to_end url e d = insert url e (erase url d)

  unfoldable pub get : ℕ → String → ManifestCache V → ManifestCache V × Option V
  unfolding is_expired move_to_end
  get now url c = elim (lookup url c.entries) [
    | none ↦ (c, none)
    | some e ↦
        if is_expired now e
        then (record c { entries = erase url c.entries }, none)
        else (record c { entries = move_to_end url e c.entries }, some e.manifest)
  ]

  -- `while len(d) >= max_size: d.popitem(last=False)`
  unfoldable pub trim : ℕ → Dict String (CacheEntry V) → Dict String (CacheEntry V)
  trim max_size [] = []
  trim max_size (e ∷ d) =
      let rest = trim max_size d in if leb max_size (suc (length d)) then rest else e ∷ d

  -- what is left of the entries before the new one is put at the end
  unfoldable pub with_room : String → ManifestCache V → Dict String (CacheEntry V)
  unfolding trim
  with_room url c =
      if not (is_none (lookup url c.entries))
      then erase url c.entries
      else if ltb 0 c.max_size
      then trim c.max_size c.entries
      else c.entries

  -- a time to live is not negative
  unfoldable pub set : ℕ → String → V → Option ℕ → ManifestCache V → ManifestCache V
  unfolding with_room
  set now url manifest ttl c = record c {
    entries =
        insert url (record { manifest = manifest; expires_at = now + or_else ttl c.default_ttl })
          (with_room url c);
  }

  unfoldable pub invalidate : String → ManifestCache V → ManifestCache V
  invalidate url c = record c { entries = erase url c.entries }

  unfoldable pub clear_all : ManifestCache V → ManifestCache V
  clear_all c = record c { entries = [] }

  unfoldable pub size : ManifestCache V → ℕ
  size c = length c.entries

  -- the cache, and how many entries were taken out
  unfoldable pub cleanup_expired : ℕ → ManifestCache V → ManifestCache V × ℕ
  unfolding is_expired
  cleanup_expired now c = (
    record c { entries = prune (is_expired now) c.entries },
    length (keys_where (is_expired now) c.entries),
  )
