-- ===== src/QueryCache/Size.antt =====
-- The cache never holds more entries than it may.
use schema_pilot.Base.{
  ℕ, ◌+◌, ◌*◌, ◌≤◌, ◌<◌, ◌≡◌, refl, String, Bool, true, false, not, ◌||◌, List, [], ◌∷◌, ◌==◌,
  if◌then◌else◌, ltb, max, length, Dict, erase, length-insert-le, length-erase-le, length-keep-le,
  arith, eq_iff, eq_refl,
}
use schema_pilot.Base.Int.{ℤ, pos_part}
use schema_pilot.QueryCache.{
  QueryCacheHit, InMemoryQueryCache, new_query_cache, get, set, oldest, evict_oldest, starts_with,
  invalidate_prefix,
}

-- one call on the cache
pub data Call (V : Type 0) : Type 0 where
  get_at : ℕ → String → Call V
  set_at : ℕ → String → V → Call V
  invalidate : String → Call V

module _ {V : Type 0} where
  -- made for `n` entries, and holding no more
  abbrev pub IsBounded : ℕ → InMemoryQueryCache V → Type 0
  IsBounded n c = (c.max_entries ≡ n) × (length c.entries ≤ n)

  abbrev pub step : Call V → InMemoryQueryCache V → InMemoryQueryCache V
  step (get_at now key) c = (get now key c).1
  step (set_at now key v) c = set now key v c
  step (invalidate prefix) c = invalidate_prefix prefix c

  abbrev pub run : List (Call V) → InMemoryQueryCache V → InMemoryQueryCache V
  run [] c = c
  run (call ∷ calls) c = run calls (step call c)

  -- some entry has the key
  has_key : String → Dict (QueryCacheHit V) → Bool
  has_key k [] = false
  has_key k ((j, hit) ∷ d) = j == k || has_key k d

  erase-length-lt :
      (k : String) (d : Dict (QueryCacheHit V)) → has_key k d ≡ true → length (erase k d) < length d
  unfolding has_key erase
  erase-length-lt k [] h = cc
  erase-length-lt k ((j, hit) ∷ d) h = ground (arith, erase-length-lt k d, length-erase-le k d)

  oldest-has_key :
      (k : String) (n : ℕ) (d : Dict (QueryCacheHit V))
      → (oldest k n d == k || has_key (oldest k n d) d) ≡ true
  unfolding oldest has_key
  oldest-has_key k n [] = ground (arith, eq_refl k)
  oldest-has_key k n ((j, hit) ∷ d) = ground (
    arith,
    oldest-has_key (if ltb hit.expires_at n then j else k)
        (if ltb hit.expires_at n then hit.expires_at else n) d,
    eq_iff
        (oldest (if ltb hit.expires_at n then j else k)
          (if ltb hit.expires_at n then hit.expires_at else n) d)
        j,
    eq_iff j (
        oldest (if ltb hit.expires_at n then j else k)
          (if ltb hit.expires_at n then hit.expires_at else n) d),
  )

  evict-length : (d : Dict (QueryCacheHit V)) → 1 ≤ length d → length (evict_oldest d) < length d
  unfolding evict_oldest
  evict-length [] h = h
  evict-length ((k, hit) ∷ d) h =
      let o = oldest k hit.expires_at d in
      erase-length-lt o ((k, hit) ∷ d) (
        unfold has_key in ground (arith, oldest-has_key k hit.expires_at d, eq_iff o k, eq_iff k o))

  step-IsBounded :
      (n : ℕ)
      → 1 ≤ n
      → (call : Call V) (c : InMemoryQueryCache V) → IsBounded n c
      → IsBounded n (step call c)
  unfolding get set invalidate_prefix
  step-IsBounded n one (get_at now key) c h = ground (arith, length-erase-le key c.entries)
  step-IsBounded n one (set_at now key v) c h =
      let hit : QueryCacheHit V = record {
        value = v;
        expires_at = now + c.ttl_seconds * 1000000;
      } in
      ground (
        arith,
        length-insert-le key hit c.entries,
        length-insert-le key hit (evict_oldest c.entries),
        evict-length c.entries,
      )
  step-IsBounded n one (invalidate prefix) c h =
      (h.0, omega (arith, h.1, length-keep-le (λ e. not (starts_with prefix e.0)) c.entries))

  run-IsBounded :
      (n : ℕ)
      → 1 ≤ n
      → (calls : List (Call V)) (c : InMemoryQueryCache V) → IsBounded n c
      → IsBounded n (run calls c)
  run-IsBounded n one [] c h = h
  run-IsBounded n one (call ∷ calls) c h =
      run-IsBounded n one calls (step call c) (step-IsBounded n one call c h)

  -- Whatever calls are made on a new cache, it holds at most as many entries as it was made for, and
  -- at most one where it was made for none.
  pub run_bounded :
      (enabled : Bool) (ttl size : ℤ) (calls : List (Call V))
      → length (run calls (new_query_cache enabled ttl size)).entries ≤ max (pos_part size) 1
  unfolding new_query_cache
  run_bounded enabled ttl size calls =
      (run-IsBounded (max (pos_part size) 1) (omega arith) calls (new_query_cache enabled ttl size)
        (refl, omega arith)).1
