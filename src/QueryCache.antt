-- ===== src/QueryCache.antt =====
-- backend/gateway/query_cache.py: the gateway's cache of answers. Calls hold the cache's lock, so they
-- follow one another. The time that a call reads is an argument, in microseconds.
pub mod Lookups
pub mod Size
use Prim.Native.Char.{code}
use schema_pilot.Base.{
  ℕ, suc, ◌+◌, ◌*◌, String, Bool, true, false, not, ◌&&◌, Option, none, some, List, [], ◌∷◌, ◌==◌,
  if◌then◌else◌, leb, ltb, eqb, length, keep, max, Dict, lookup, insert, erase,
}
use schema_pilot.Base.Int.{ℤ, pos_part}

pub record QueryCacheHit (V : Type 0) : Type 0 where
  pub value : V
  pub expires_at : ℕ

pub record InMemoryQueryCache (V : Type 0) : Type 0 where
  pub enabled : Bool
  pub ttl_seconds : ℕ
  pub max_entries : ℕ
  pub entries : Dict (QueryCacheHit V)

-- `text.startswith(prefix)`
unfoldable pub starts_with : String → String → Bool
starts_with String.[] s = true
starts_with (String.◌∷◌ c p) String.[] = false
starts_with (String.◌∷◌ c p) (String.◌∷◌ d s) =
    let rest = starts_with p s in eqb (code c) (code d) && rest

module _ {V : Type 0} where
  -- `__init__`
  unfoldable pub new_query_cache : Bool → ℤ → ℤ → InMemoryQueryCache V
  new_query_cache enabled ttl_seconds max_entries = record {
    enabled = enabled;
    ttl_seconds = max (pos_part ttl_seconds) 1;
    max_entries = max (pos_part max_entries) 1;
    entries = [];
  }

  unfoldable pub get : ℕ → String → InMemoryQueryCache V → Option V × InMemoryQueryCache V
  get now key c = if not c.enabled then (none, c) else elim (lookup key c.entries) [
    | none ↦ (none, c)
    | some hit ↦
        if leb hit.expires_at now
        then (none, record c { entries = erase key c.entries })
        else (some hit.value, c)
  ]

  -- `min(entries, key=...)`: the first key of the earliest expiry
  unfoldable pub oldest : String → ℕ → Dict (QueryCacheHit V) → String
  oldest key expiry [] = key
  oldest key expiry ((k, hit) ∷ rest) =
      oldest (if ltb hit.expires_at expiry then k else key)
        (if ltb hit.expires_at expiry then hit.expires_at else expiry) rest

  unfoldable pub evict_oldest : Dict (QueryCacheHit V) → Dict (QueryCacheHit V)
  evict_oldest [] = []
  evict_oldest ((k, hit) ∷ rest) = erase (oldest k hit.expires_at rest) ((k, hit) ∷ rest)

  unfoldable pub set : ℕ → String → V → InMemoryQueryCache V → InMemoryQueryCache V
  set now key value c = if not c.enabled then c else record c {
    entries =
        insert key (record { value = value; expires_at = now + c.ttl_seconds * 1000000 })
          (if leb c.max_entries (length c.entries) then evict_oldest c.entries else c.entries);
  }

  unfoldable pub invalidate_prefix : String → InMemoryQueryCache V → InMemoryQueryCache V
  invalidate_prefix prefix c = record c {
    entries = keep (λ e. not (starts_with prefix e.0)) c.entries;
  }
