-- ===== src/QueryCache/Lookups.antt =====
-- What a lookup returns after a write, and after an invalidation.
use schema_pilot.Base.{
  ℕ, ◌+◌, ◌*◌, ◌≡◌, String, true, not, none, some, [], ◌∷◌, if◌then◌else◌, leb, ltb, length, keep,
  Dict, lookup, lookup-insert, arith, eq_iff, eq_refl,
}
use schema_pilot.QueryCache.{
  QueryCacheHit, InMemoryQueryCache, get, set, evict_oldest, starts_with, invalidate_prefix,
}

module _ {V : Type 0} where
  -- In an enabled cache, whether full or not, a value that is set is found until its time to live is
  -- over, and not from then on.
  pub get-set :
      (c : InMemoryQueryCache V) (key : String) (v : V) (now later : ℕ)
      → c.enabled ≡ true
      → (get later key (set now key v c)).0
        ≡ (if ltb later (now + c.ttl_seconds * 1000000) then some v else none)
  unfolding get set
  get-set c key v now later on =
      let base =
        if leb c.max_entries (length c.entries) then evict_oldest c.entries else c.entries in
      ground (
        arith,
        lookup-insert key key (record { value = v; expires_at = now + c.ttl_seconds * 1000000 })
            base,
        eq_refl key,
      )

  lookup-keep :
      (prefix key : String) (d : Dict (QueryCacheHit V))
      → lookup key (keep (λ e. not (starts_with prefix e.0)) d)
        ≡ (if starts_with prefix key then none else lookup key d)
  unfolding lookup
  lookup-keep prefix key [] = ground arith
  lookup-keep prefix key ((k, hit) ∷ d) = ground (arith, lookup-keep prefix key d, eq_iff k key)

  -- After an invalidation a lookup finds nothing for a key with the prefix, and for any other key what
  -- it found before.
  pub get-invalidate :
      (c : InMemoryQueryCache V) (prefix key : String) (now : ℕ)
      → (get now key (invalidate_prefix prefix c)).0
        ≡ (if starts_with prefix key then none else (get now key c).0)
  unfolding get invalidate_prefix
  get-invalidate c prefix key now = ground (arith, lookup-keep prefix key c.entries)
