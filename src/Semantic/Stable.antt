-- ===== src/Semantic/Stable.antt =====
-- What validation makes sure of in a manifest, and that validating again changes nothing.
use mathlib.Core.Path.{subst}
use schema_pilot.Base.{
  ◌≡◌, refl, sym, ap, ◌∙◌, String, true, false, not, List, [], ◌∷◌, ◌==◌, All, map, strip, is_empty,
  strip-strip, order_rows, arith, eq_iff, eq_refl,
}
use schema_pilot.Base.Json.{Json, array, nil, Fields, get, as_list, elements, items_of}
use schema_pilot.Errors.{value_error, ok, bind-ok, require-ok, ok_injective}
use schema_pilot.Semantic.Sorted.{is_fresh, is_fresh-order_rows, All-order_rows, order_rows_twice}
use schema_pilot.Semantic.Entities.{IsFilled, IsEntity, entity_rows-ok, entity_rows-json}
use schema_pilot.Semantic.{
  Entity, Metric, Join, Manifest, expect, field_text, entity_rows, normalize_entities, metric_rows,
  normalize_metrics, join_rows, normalize_joins, validate_semantic_manifest, entity_json,
  metric_json, join_json, manifest_json,
}
use schema_pilot.Semantic.Metrics.{IsMetric, metric_rows-ok, metric_rows-json}
use schema_pilot.Semantic.Joins.{IsJoin, join_rows-ok, join_rows-json}

elements-items_of : (l : List Json) → elements (items_of l) ≡ l
elements-items_of [] = refl
elements-items_of (x ∷ l) = ap (λ k. x ∷ k) (elements-items_of l)

-- what validation makes sure of in a manifest
abbrev pub IsManifest : Manifest → Type 0
IsManifest m =
    let entity_ids = map (λ (e : Entity). e.entity_id) m.entities in
    IsFilled m.workspace_id
    × (is_fresh (λ (e : Entity). e.entity_id) [] m.entities ≡ true)
    × All IsEntity m.entities
    × (is_fresh (λ (x : Metric). x.metric_id) [] m.metrics ≡ true)
    × All (IsMetric entity_ids) m.metrics
    × (is_fresh (λ (j : Join). j.join_id) [] m.joins ≡ true)
    × All (IsJoin entity_ids) m.joins

-- the rows stand in the order of their identifiers
abbrev IsOrdered : Manifest → Type 0
IsOrdered m =
    (order_rows (λ (e : Entity). e.entity_id) m.entities ≡ m.entities)
    × (order_rows (λ (x : Metric). x.metric_id) m.metrics ≡ m.metrics)
    × (order_rows (λ (j : Join). j.join_id) m.joins ≡ m.joins)

module _ (repr : Json → String) where
  normalize_entities-ok :
      (rows : List Json) (es : List Entity)
      → normalize_entities repr rows ≡ ok es
      → (is_fresh (λ (e : Entity). e.entity_id) [] es ≡ true)
        × All IsEntity es
        × (order_rows (λ (e : Entity). e.entity_id) es ≡ es)
  unfolding normalize_entities
  normalize_entities-ok rows es h =
      let (raw, read, same) = bind-ok (entity_rows repr [] rows) _ es h in
      let (fresh, good) = entity_rows-ok repr [] rows raw read in
      let key : Entity → String = λ e. e.entity_id in
      subst
        (λ es.
          (is_fresh (λ (e : Entity). e.entity_id) [] es ≡ true)
          × All IsEntity es
          × (order_rows (λ (e : Entity). e.entity_id) es ≡ es))
        (ok_injective same)
        (
          is_fresh-order_rows key [] raw ∙ fresh,
          All-order_rows key IsEntity raw good,
          order_rows_twice key raw,
        )

  normalize_metrics-ok :
      (entity_ids : List String) (rows : List Json) (ms : List Metric)
      → normalize_metrics repr entity_ids rows ≡ ok ms
      → (is_fresh (λ (m : Metric). m.metric_id) [] ms ≡ true)
        × All (IsMetric entity_ids) ms
        × (order_rows (λ (m : Metric). m.metric_id) ms ≡ ms)
  unfolding normalize_metrics
  normalize_metrics-ok entity_ids rows ms h =
      let (raw, read, same) = bind-ok (metric_rows repr entity_ids [] rows) _ ms h in
      let (fresh, good) = metric_rows-ok repr entity_ids [] rows raw read in
      let key : Metric → String = λ m. m.metric_id in
      subst
        (λ ms.
          (is_fresh (λ (m : Metric). m.metric_id) [] ms ≡ true)
          × All (IsMetric entity_ids) ms
          × (order_rows (λ (m : Metric). m.metric_id) ms ≡ ms))
        (ok_injective same)
        (
          is_fresh-order_rows key [] raw ∙ fresh,
          All-order_rows key (IsMetric entity_ids) raw good,
          order_rows_twice key raw,
        )

  normalize_joins-ok :
      (entity_ids : List String) (rows : List Json) (js : List Join)
      → normalize_joins repr entity_ids rows ≡ ok js
      → (is_fresh (λ (j : Join). j.join_id) [] js ≡ true)
        × All (IsJoin entity_ids) js
        × (order_rows (λ (j : Join). j.join_id) js ≡ js)
  unfolding normalize_joins
  normalize_joins-ok entity_ids rows js h =
      let (raw, read, same) = bind-ok (join_rows repr entity_ids [] 0 rows) _ js h in
      let (fresh, good) = join_rows-ok repr entity_ids [] 0 rows raw read in
      let key : Join → String = λ j. j.join_id in
      subst
        (λ js.
          (is_fresh (λ (j : Join). j.join_id) [] js ≡ true)
          × All (IsJoin entity_ids) js
          × (order_rows (λ (j : Join). j.join_id) js ≡ js))
        (ok_injective same)
        (
          is_fresh-order_rows key [] raw ∙ fresh,
          All-order_rows key (IsJoin entity_ids) raw good,
          order_rows_twice key raw,
        )

  validated :
      (raw : Fields) (workspace_id : String) (m : Manifest)
      → validate_semantic_manifest repr raw workspace_id ≡ ok m
      → (m.workspace_id ≡ workspace_id) × IsManifest m × IsOrdered m
  unfolding validate_semantic_manifest field_text
  validated raw workspace_id m h =
      let (version, h1) = require-ok (field_text repr "manifest_version" "" raw == "1") _ _ m h in
      let written = field_text repr "workspace_id" "" raw in
      let (filled, h2) = require-ok (not (is_empty written)) _ _ m h1 in
      let blank : is_empty written ≡ false = ground (arith, filled) in
      let (same_workspace, h3) = require-ok (written == workspace_id) _ _ m h2 in
      let (es, an_es, h4) =
        bind-ok (expect (as_list (get "entities" (array nil) raw)) (value_error "invalid_entities"))
          _ m h3 in
      let (ms, an_ms, h5) =
        bind-ok (expect (as_list (get "metrics" (array nil) raw)) (value_error "invalid_metrics")) _
          m h4 in
      let (js, an_js, h6) =
        bind-ok (expect (as_list (get "joins" (array nil) raw)) (value_error "invalid_joins")) _ m
          h5 in
      let (entities, all_es, h7) = bind-ok (normalize_entities repr (elements es)) _ m h6 in
      let entity_ids = map (λ (e : Entity). e.entity_id) entities in
      let (metrics, all_ms, h8) =
        bind-ok (normalize_metrics repr entity_ids (elements ms)) _ m h7 in
      let (joins, all_js, same) = bind-ok (normalize_joins repr entity_ids (elements js)) _ m h8 in
      let e = normalize_entities-ok (elements es) entities all_es in
      let x = normalize_metrics-ok entity_ids (elements ms) metrics all_ms in
      let j = normalize_joins-ok entity_ids (elements js) joins all_js in
      subst (λ m. (m.workspace_id ≡ workspace_id) × IsManifest m × IsOrdered m) (ok_injective same)
        (
          (eq_iff _ _).0 same_workspace,
          ((strip-strip _, blank), e.0, e.1, x.0, x.1, j.0, j.1),
          (e.2, x.2, j.2),
        )

  revalidated :
      (workspace_id : String) (m : Manifest)
      → m.workspace_id ≡ workspace_id
      → IsManifest m
      → IsOrdered m
      → validate_semantic_manifest repr (manifest_json m) workspace_id ≡ ok m
  unfolding validate_semantic_manifest field_text manifest_json normalize_entities normalize_metrics
      normalize_joins strip
  revalidated workspace_id m same valid ordered =
      let entity_ids = map (λ (e : Entity). e.entity_id) m.entities in
      rw
        (
          valid.0.0,
          valid.0.1,
          sym same,
          eq_refl m.workspace_id,
          elements-items_of (map entity_json m.entities),
          elements-items_of (map metric_json m.metrics),
          elements-items_of (map join_json m.joins),
          entity_rows-json repr [] m.entities valid.1 valid.2,
          ordered.0,
          metric_rows-json repr entity_ids [] m.metrics valid.3 valid.4,
          ordered.1,
          join_rows-json repr entity_ids [] 0 m.joins valid.5 valid.6,
          ordered.2,
        )
        refl

  -- The manifest that validation returns is the workspace's, its identifiers are distinct, and each
  -- metric and join is on entities of the manifest; and validating it again returns it unchanged.
  pub validate-validate :
      (raw : Fields) (workspace_id : String) (m : Manifest)
      → validate_semantic_manifest repr raw workspace_id ≡ ok m
      → (m.workspace_id ≡ workspace_id)
        × IsManifest m
        × (validate_semantic_manifest repr (manifest_json m) workspace_id ≡ ok m)
  validate-validate raw workspace_id m h =
      let (same, valid, ordered) = validated raw workspace_id m h in
      (same, valid, revalidated workspace_id m same valid ordered)
