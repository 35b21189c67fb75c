-- ===== src/Semantic/Entities.antt =====
-- Identifiers and entities of a manifest: what normalization makes sure of, and that normalizing
-- again changes nothing.
use mathlib.Core.Path.{subst}
use schema_pilot.Base.{
  ◌≡◌, refl, String, true, false, not, List, [], ◌∷◌, if◌then◌else◌, All, map, contains, strip,
  is_empty, is_identifier, strip-strip, sort_texts, arith,
}
use schema_pilot.Base.Json.{
  Json, null, text, array, nil, get, as_list, as_dict, is_truthy, str, elements, items_of,
}
use schema_pilot.Errors.{value_error, ok, bind-ok, require-ok, ok_injective}
use schema_pilot.Semantic.Sorted.{is_fresh, All-set_texts, set_texts_twice}
use schema_pilot.Semantic.{
  Entity, expect, distinct_texts, field_text, normalized_id, normalized_attributes,
  normalize_entity, entity_rows, entity_json,
}

-- an identifier without whitespace around it
abbrev pub IsId : String → Type 0
IsId t = (strip t ≡ t) × (is_empty t ≡ false) × (is_identifier t ≡ true)

abbrev pub IsFilled : String → Type 0
IsFilled t = (strip t ≡ t) × (is_empty t ≡ false)

-- the text of a value that is true
id_text : (Json → String) → Json → String
id_text repr value = if is_truthy value then strip (str repr value) else ""

id_text-strip :
    (repr : Json → String) (value : Json) → strip (id_text repr value) ≡ id_text repr value
unfolding id_text
id_text-strip repr value =
    elim (is_truthy value)
      as (λ b.
        strip (if b then strip (str repr value) else "")
        ≡ (if b then strip (str repr value) else "")) [
          | true ↦ strip-strip (str repr value)
          | false ↦ unfold strip in refl
        ]

-- what `_normalize_entities` makes sure of for one entity
abbrev pub IsEntity : Entity → Type 0
IsEntity e =
    IsId e.entity_id
    × IsFilled e.dataset_id
    × IsId e.primary_key
    × All IsId e.attributes
    × (sort_texts (distinct_texts e.attributes) ≡ e.attributes)

module _ (repr : Json → String) where
  pub normalized_id-ok :
      (value : Json) (name t : String) → normalized_id repr value name ≡ ok t → IsId t
  unfolding normalized_id id_text
  normalized_id-ok value name t h = ground (arith, id_text-strip repr value)

  pub normalized_id-text : (name t : String) → IsId t → normalized_id repr (text t) name ≡ ok t
  unfolding normalized_id
  normalized_id-text name t h = ground (arith, h.0, h.1, h.2)

  attributes-ok :
      (items : List Json) (attributes : List String)
      → normalized_attributes repr items ≡ ok attributes
      → All IsId attributes
  unfolding normalized_attributes
  attributes-ok [] attributes h = subst (All IsId) (ok_injective h) tt
  attributes-ok (item ∷ items) attributes h =
      let (a, one, more) = bind-ok (normalized_id repr item "attribute") _ attributes h in
      let (rest, two, same) = bind-ok (normalized_attributes repr items) _ attributes more in
      subst (All IsId) (ok_injective same)
        (normalized_id-ok item "attribute" a one, attributes-ok items rest two)

  attributes-text :
      (attributes : List String)
      → All IsId attributes
      → normalized_attributes repr (elements (items_of (map text attributes))) ≡ ok attributes
  unfolding normalized_attributes
  attributes-text [] h = refl
  attributes-text (a ∷ rest) h =
      rw (normalized_id-text "attribute" a h.0, attributes-text rest h.1) refl

  normalize_entity-ok :
      (seen : List String) (value : Json) (e : Entity)
      → normalize_entity repr seen value ≡ ok e
      → (contains e.entity_id seen ≡ false) × IsEntity e
  unfolding normalize_entity field_text
  normalize_entity-ok seen value e h =
      let (row, dict, h1) =
        bind-ok (expect (as_dict value) (value_error "invalid_entity_row")) _ e h in
      let (id, an_id, h2) =
        bind-ok (normalized_id repr (get "entity_id" null row) "entity_id") _ e h1 in
      let (fresh, h3) = require-ok (not (contains id seen)) _ _ e h2 in
      let (filled, h4) =
        require-ok (not (is_empty (field_text repr "dataset_id" "" row))) _ _ e h3 in
      let (primary, a_key, h5) =
        bind-ok (normalized_id repr (get "primary_key" null row) "primary_key") _ e h4 in
      let (items, listed, h6) =
        bind-ok
          (expect (as_list (get "attributes" (array nil) row))
            (value_error "invalid_entity_attributes"))
          _ e h5 in
      let (attributes, all_ids, same) =
        bind-ok (normalized_attributes repr (elements items)) _ e h6 in
      subst (λ e. (contains e.entity_id seen ≡ false) × IsEntity e) (ok_injective same)
        (
          ground arith,
          (
            normalized_id-ok _ _ id an_id,
            (strip-strip _, ground arith),
            normalized_id-ok _ _ primary a_key,
            All-set_texts IsId attributes (attributes-ok _ attributes all_ids),
            set_texts_twice attributes,
          ),
        )

  normalize_entity-json :
      (seen : List String) (e : Entity)
      → contains e.entity_id seen ≡ false
      → IsEntity e
      → normalize_entity repr seen (entity_json e) ≡ ok e
  unfolding normalize_entity field_text entity_json
  normalize_entity-json seen e fresh h =
      rw
        (
          normalized_id-text "entity_id" e.entity_id h.0,
          fresh,
          h.1.0,
          h.1.1,
          normalized_id-text "primary_key" e.primary_key h.2,
          attributes-text e.attributes h.3,
          h.4,
        )
        refl

  pub entity_rows-ok :
      (seen : List String) (rows : List Json) (es : List Entity)
      → entity_rows repr seen rows ≡ ok es
      → (is_fresh (λ (e : Entity). e.entity_id) seen es ≡ true) × All IsEntity es
  unfolding entity_rows
  entity_rows-ok seen [] es h =
      subst (λ es. (is_fresh (λ (e : Entity). e.entity_id) seen es ≡ true) × All IsEntity es)
        (ok_injective h) (refl, tt)
  entity_rows-ok seen (value ∷ rows) es h =
      let (e, one, h1) = bind-ok (normalize_entity repr seen value) _ es h in
      let (rest, more, same) = bind-ok (entity_rows repr (e.entity_id ∷ seen) rows) _ es h1 in
      let (fresh, good) = normalize_entity-ok seen value e one in
      let (freshes, goods) = entity_rows-ok (e.entity_id ∷ seen) rows rest more in
      subst (λ es. (is_fresh (λ (e : Entity). e.entity_id) seen es ≡ true) × All IsEntity es)
        (ok_injective same) (ground (arith, fresh, freshes), (good, goods))

  pub entity_rows-json :
      (seen : List String) (es : List Entity)
      → is_fresh (λ (e : Entity). e.entity_id) seen es ≡ true
      → All IsEntity es
      → entity_rows repr seen (map entity_json es) ≡ ok es
  unfolding entity_rows
  entity_rows-json seen [] fresh good = refl
  entity_rows-json seen (e ∷ es) fresh good =
      rw
        (
          normalize_entity-json seen e (ground arith) good.0,
          entity_rows-json (e.entity_id ∷ seen) es (ground arith) good.1,
        )
        refl
