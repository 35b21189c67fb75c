-- ===== src/Auth/Keys.antt =====
-- The cache of the provider's keys.
use mathlib.Core.Path.{subst}
use schema_pilot.Base.{
  ℕ, ◌+◌, ◌*◌, max, ◌<◌, String, true, none, some, List, [], ◌∷◌, ◌≡◌, refl, ap, ◌∙◌, lookup,
  lookup-insert, ltb, arith, eq_refl,
}
use schema_pilot.Base.Int.{pos_part}
use schema_pilot.Base.Json.{Fields}
use schema_pilot.Settings.{Settings}
use schema_pilot.Auth.{
  Platform, JwksCache, JwksCacheEntry, fetch_jwks_keys, resolve_jwks_url, refresh_jwks_keys,
  store_keys, load_jwks_keys,
}

-- the entry that holds fetched keys
abbrev entry_of : ℕ → Settings → Fields → List Fields → JwksCacheEntry
entry_of now s key keys = record {
  expires_at = now + 1000000 * max 1 (pos_part s.oidc_jwks_cache_ttl_seconds);
  keys = key ∷ keys;
}

store_keys-lookup :
    (now : ℕ) (s : Settings) (url : String) (cache : JwksCache) (key : Fields)
    (keys fetched : List Fields)
    → (store_keys now s url cache fetched).0 ≡ key ∷ keys
    → lookup url (store_keys now s url cache fetched).1 ≡ some (entry_of now s key keys)
unfolding store_keys
store_keys-lookup now s url cache key keys [] h = cc
store_keys-lookup now s url cache key keys (k ∷ more) h =
    lookup-insert url url (entry_of now s k more) cache
    ∙ rw (eq_refl url) (
        ap
          (λ (l : List Fields).
            some (record { expires_at = (entry_of now s key keys).expires_at; keys = l }))
          h)

load_fetched :
    (p : Platform) (now : ℕ) (s : Settings) (url : String) (cache : JwksCache)
    → resolve_jwks_url s ≡ some url
    → lookup url cache ≡ none
    → load_jwks_keys p now s cache ≡ store_keys now s url cache (fetch_jwks_keys p url)
unfolding load_jwks_keys refresh_jwks_keys
load_fetched p now s url cache found missing = rw (found, load_jwks_keys, missing) refl

load_cached :
    (p : Platform) (now : ℕ) (s : Settings) (url : String) (cache : JwksCache) (e : JwksCacheEntry)
    → resolve_jwks_url s ≡ some url
    → lookup url cache ≡ some e
    → ltb now e.expires_at ≡ true
    → load_jwks_keys p now s cache ≡ (e.keys, cache)
unfolding load_jwks_keys
load_cached p now s url cache e found held early = rw (found, load_jwks_keys, held, early) refl

-- Keys that a request fetched, where none were cached for the URL, serve each later request until their
-- time is over, whatever the provider answers then; the cache stays as it is.
pub load-load :
    (p later : Platform) (now now' : ℕ) (s : Settings) (url : String) (cache : JwksCache)
    (key : Fields) (keys : List Fields)
    → resolve_jwks_url s ≡ some url
    → lookup url cache ≡ none
    → (load_jwks_keys p now s cache).0 ≡ key ∷ keys
    → now' < now + 1000000 * max 1 (pos_part s.oidc_jwks_cache_ttl_seconds)
    → let cache' = (load_jwks_keys p now s cache).1 in
      load_jwks_keys later now' s cache' ≡ (key ∷ keys, cache')
load-load p later now now' s url cache key keys found missing fetched early =
    let first = load_fetched p now s url cache found missing in
    let given : (store_keys now s url cache (fetch_jwks_keys p url)).0 ≡ key ∷ keys =
      subst (λ r. r.0 ≡ key ∷ keys) first fetched in
    let held = store_keys-lookup now s url cache key keys (fetch_jwks_keys p url) given in
    rw first (load_cached later now' s url _ (entry_of now s key keys) found held (ground arith))
