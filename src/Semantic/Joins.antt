-- ===== src/Semantic/Joins.antt =====
-- Joins of a manifest: what normalization makes sure of, and that normalizing again changes nothing.
use Prim.Native.String.{◌++◌}
use mathlib.Core.Path.{subst}
use schema_pilot.Base.{
  ℕ, suc, ◌≡◌, refl, String, true, false, not, ◌&&◌, List, [], ◌∷◌, if◌then◌else◌, All,
  All-contains, map, contains, strip, lower, is_empty, arith, decimal,
}
use schema_pilot.Base.Json.{Json, null, text, get, as_dict}
use schema_pilot.Errors.{value_error, ok, bind-ok, require-ok, ok_injective}
use schema_pilot.Semantic.Sorted.{is_fresh}
use schema_pilot.Semantic.Entities.{IsId, normalized_id-ok, normalized_id-text}
use schema_pilot.Semantic.{
  Join, join_types, expect, field_text, normalized_id, normalize_join, join_rows, join_json,
}
use schema_pilot.Semantic.Metrics.{IsPlain}

IsPlain-join_types : All IsPlain join_types
unfolding strip lower
IsPlain-join_types = ((refl, refl), ((refl, refl), ((refl, refl), ((refl, refl), tt))))

-- what `_normalize_joins` makes sure of for one join
abbrev pub IsJoin : List String → Join → Type 0
IsJoin entity_ids j =
    IsId j.join_id
    × IsId j.left_entity_id
    × IsId j.right_entity_id
    × (contains j.left_entity_id entity_ids ≡ true)
    × (contains j.right_entity_id entity_ids ≡ true)
    × IsId j.left_key
    × IsId j.right_key
    × (contains j.join_type join_types ≡ true)

module _ (repr : Json → String) (entity_ids : List String) where
  normalize_join-ok :
      (seen : List String) (index : ℕ) (value : Json) (j : Join)
      → normalize_join repr entity_ids seen index value ≡ ok j
      → (contains j.join_id seen ≡ false) × IsJoin entity_ids j
  unfolding normalize_join field_text
  normalize_join-ok seen index value j h =
      let (row, dict, h1) =
        bind-ok (expect (as_dict value) (value_error "invalid_join_row")) _ j h in
      let (id, an_id, h2) =
        bind-ok
          (normalized_id repr
            (text (
              if is_empty (field_text repr "join_id" "" row)
              then "join_" ++ decimal (suc index)
              else field_text repr "join_id" "" row))
            "join_id")
          _ j h1 in
      let (fresh, h3) = require-ok (not (contains id seen)) _ _ j h2 in
      let (left, a_left, h4) =
        bind-ok (normalized_id repr (get "left_entity_id" null row) "left_entity_id") _ j h3 in
      let (right, a_right, h5) =
        bind-ok (normalized_id repr (get "right_entity_id" null row) "right_entity_id") _ j h4 in
      let (known, h6) =
        require-ok (contains left entity_ids && contains right entity_ids) _ _ j h5 in
      let (left_key, a_left_key, h7) =
        bind-ok (normalized_id repr (get "left_key" null row) "left_key") _ j h6 in
      let (right_key, a_right_key, h8) =
        bind-ok (normalized_id repr (get "right_key" null row) "right_key") _ j h7 in
      let (listed, same) =
        require-ok (contains (lower (field_text repr "join_type" "inner" row)) join_types) _ _ j
          h8 in
      subst (λ j. (contains j.join_id seen ≡ false) × IsJoin entity_ids j) (ok_injective same)
        (
          ground arith,
          (
            normalized_id-ok repr _ _ id an_id,
            normalized_id-ok repr _ _ left a_left,
            normalized_id-ok repr _ _ right a_right,
            ground arith,
            ground arith,
            normalized_id-ok repr _ _ left_key a_left_key,
            normalized_id-ok repr _ _ right_key a_right_key,
            listed,
          ),
        )

  normalize_join-json :
      (seen : List String) (index : ℕ) (j : Join)
      → contains j.join_id seen ≡ false
      → IsJoin entity_ids j
      → normalize_join repr entity_ids seen index (join_json j) ≡ ok j
  unfolding normalize_join field_text join_json
  normalize_join-json seen index j fresh h =
      let plain : IsPlain j.join_type =
        All-contains IsPlain j.join_type join_types IsPlain-join_types h.7 in
      rw
        (
          h.0.0,
          h.0.1,
          normalized_id-text repr "join_id" j.join_id h.0,
          fresh,
          normalized_id-text repr "left_entity_id" j.left_entity_id h.1,
          normalized_id-text repr "right_entity_id" j.right_entity_id h.2,
          h.3,
          h.4,
          normalized_id-text repr "left_key" j.left_key h.5,
          normalized_id-text repr "right_key" j.right_key h.6,
          plain.0,
          plain.1,
          h.7,
        )
        refl

  pub join_rows-ok :
      (seen : List String) (index : ℕ) (rows : List Json) (js : List Join)
      → join_rows repr entity_ids seen index rows ≡ ok js
      → (is_fresh (λ (j : Join). j.join_id) seen js ≡ true) × All (IsJoin entity_ids) js
  unfolding join_rows
  join_rows-ok seen index [] js h =
      subst (λ js. (is_fresh (λ (j : Join). j.join_id) seen js ≡ true) × All (IsJoin entity_ids) js)
        (ok_injective h) (refl, tt)
  join_rows-ok seen index (value ∷ rows) js h =
      let (j, one, h1) = bind-ok (normalize_join repr entity_ids seen index value) _ js h in
      let (rest, more, same) =
        bind-ok (join_rows repr entity_ids (j.join_id ∷ seen) (suc index) rows) _ js h1 in
      let (fresh, good) = normalize_join-ok seen index value j one in
      let (freshes, goods) = join_rows-ok (j.join_id ∷ seen) (suc index) rows rest more in
      subst (λ js. (is_fresh (λ (j : Join). j.join_id) seen js ≡ true) × All (IsJoin entity_ids) js)
        (ok_injective same) (ground (arith, fresh, freshes), (good, goods))

  pub join_rows-json :
      (seen : List String) (index : ℕ) (js : List Join)
      → is_fresh (λ (j : Join). j.join_id) seen js ≡ true
      → All (IsJoin entity_ids) js
      → join_rows repr entity_ids seen index (map join_json js) ≡ ok js
  unfolding join_rows
  join_rows-json seen index [] fresh good = refl
  join_rows-json seen index (j ∷ js) fresh good =
      rw
        (
          normalize_join-json seen index j (ground arith) good.0,
          join_rows-json (j.join_id ∷ seen) (suc index) js (ground arith) good.1,
        )
        refl
