-- ===== src/Semantic.antt =====
-- backend/shared_domain/semantic.py: semantic manifests, their normalization and validation. A row
-- comes as a JSON value of any shape; what validation returns is a record, and `manifest_json` is
-- the dictionary that the code returns for it. A set of texts is the list without repetitions.
pub mod Sorted
pub mod Entities
pub mod Metrics
pub mod Joins
pub mod Stable
use Prim.Native.String.{◌++◌}
use schema_pilot.Base.{
  ℕ, suc, String, Bool, true, false, not, Option, none, some, List, [], ◌∷◌, ◌==◌, ◌&&◌, map,
  if◌then◌else◌, contains, strip, lower, is_empty, decimal, is_identifier, order_rows, sort_texts,
}
use schema_pilot.Base.Json.{
  Json, null, text, array, object, Items, nil, cons, Fields, end, field, get, as_list, as_dict,
  is_truthy, str, elements, items_of,
}
use schema_pilot.Errors.{Error, value_error, Result, ok, err, require, ◌>>=◌, ◌>>◌}

pub record Entity : Type 0 where
  pub entity_id : String
  pub dataset_id : String
  pub primary_key : String
  pub attributes : List String

pub record Metric : Type 0 where
  pub metric_id : String
  pub entity_id : String
  pub aggregation : String
  pub field : String
  pub expression : String

pub record Join : Type 0 where
  pub join_id : String
  pub left_entity_id : String
  pub right_entity_id : String
  pub left_key : String
  pub right_key : String
  pub join_type : String

-- The version is always "1".
pub record Manifest : Type 0 where
  pub workspace_id : String
  pub entities : List Entity
  pub metrics : List Metric
  pub joins : List Join

abbrev pub join_types : List String
join_types = "inner" ∷ "left" ∷ "right" ∷ "full" ∷ []

abbrev pub aggregations : List String
aggregations = "sum" ∷ "count" ∷ "avg" ∷ "min" ∷ "max" ∷ []

-- `isinstance(value, …)` with the error that is raised where it is not
abbrev pub expect {ℓ} : {A : Type ℓ} → Option A → Error → Result A
expect none e = err e
expect (some a) e = ok a

-- the members of a set
unfoldable pub distinct_texts : List String → List String
distinct_texts [] = []
distinct_texts (a ∷ rest) =
    let more = distinct_texts rest in if contains a rest then more else a ∷ more

unfoldable pub add_count : String → String → String
add_count aggregation column = ((aggregation ++ "(") ++ column) ++ ")"

-- `repr` is Python's text of a list or a dictionary.
module _ (repr : Json → String) where
  -- `str(row.get(k, default)).strip()`
  unfoldable pub field_text : String → String → Fields → String
  field_text k default row = strip (str repr (get k (text default) row))

  -- `_normalized_id(row.get(k), field=name)`
  unfoldable pub normalized_id : Json → String → Result String
  normalized_id value name =
      let t = if is_truthy value then strip (str repr value) else "" in
      do
        require (not (is_empty t)) (value_error ("missing_" ++ name))
        require (is_identifier t) (value_error ("invalid_" ++ name))
        ok t

  unfoldable pub normalized_attributes : List Json → Result (List String)
  normalized_attributes [] = ok []
  normalized_attributes (item ∷ items) = do
    a ← normalized_id item "attribute"
    rest ← normalized_attributes items
    ok (a ∷ rest)

  -- one round of the loop of `_normalize_entities`
  unfoldable pub normalize_entity : List String → Json → Result Entity
  normalize_entity seen value = do
    row ← expect (as_dict value) (value_error "invalid_entity_row")
    entity_id ← normalized_id (get "entity_id" null row) "entity_id"
    require (not (contains entity_id seen)) (value_error "duplicate_entity_id")
    let dataset_id = field_text "dataset_id" "" row
    require (not (is_empty dataset_id)) (value_error "missing_entity_dataset_id")
    primary_key ← normalized_id (get "primary_key" null row) "primary_key"
    items ←
        expect (as_list (get "attributes" (array nil) row))
          (value_error "invalid_entity_attributes")
    attributes ← normalized_attributes (elements items)
    ok (record {
      entity_id = entity_id;
      dataset_id = dataset_id;
      primary_key = primary_key;
      attributes = sort_texts (distinct_texts attributes);
    })

  unfoldable pub entity_rows : List String → List Json → Result (List Entity)
  entity_rows seen [] = ok []
  entity_rows seen (value ∷ rows) = do
    e ← normalize_entity seen value
    rest ← entity_rows (e.entity_id ∷ seen) rows
    ok (e ∷ rest)

  unfoldable pub normalize_entities : List Json → Result (List Entity)
  normalize_entities rows = do
    entities ← entity_rows [] rows
    ok (order_rows (λ (e : Entity). e.entity_id) entities)

  -- one round of the loop of `_normalize_metrics`
  unfoldable pub normalize_metric : List String → List String → Json → Result Metric
  normalize_metric entity_ids seen value = do
    row ← expect (as_dict value) (value_error "invalid_metric_row")
    metric_id ← normalized_id (get "metric_id" null row) "metric_id"
    require (not (contains metric_id seen)) (value_error "duplicate_metric_id")
    entity_id ← normalized_id (get "entity_id" null row) "metric_entity_id"
    require (contains entity_id entity_ids) (value_error "metric_entity_not_found")
    let aggregation = lower (field_text "aggregation" "" row)
    require (contains aggregation aggregations) (value_error "invalid_metric_aggregation")
    column ← normalized_id (get "field" null row) "metric_field"
    let written = field_text "expression" "" row
    ok (record {
      metric_id = metric_id;
      entity_id = entity_id;
      aggregation = aggregation;
      field = column;
      expression = if is_empty written then add_count aggregation column else written;
    })

  unfoldable pub metric_rows : List String → List String → List Json → Result (List Metric)
  metric_rows entity_ids seen [] = ok []
  metric_rows entity_ids seen (value ∷ rows) = do
    m ← normalize_metric entity_ids seen value
    rest ← metric_rows entity_ids (m.metric_id ∷ seen) rows
    ok (m ∷ rest)

  unfoldable pub normalize_metrics : List String → List Json → Result (List Metric)
  normalize_metrics entity_ids rows = do
    metrics ← metric_rows entity_ids [] rows
    ok (order_rows (λ (m : Metric). m.metric_id) metrics)

  -- one round of the loop of `_normalize_joins`, at an index
  unfoldable pub normalize_join : List String → List String → ℕ → Json → Result Join
  normalize_join entity_ids seen index value = do
    row ← expect (as_dict value) (value_error "invalid_join_row")
    let written = field_text "join_id" "" row
    join_id ←
        normalized_id (text (if is_empty written then "join_" ++ decimal (suc index) else written))
          "join_id"
    require (not (contains join_id seen)) (value_error "duplicate_join_id")
    left_entity_id ← normalized_id (get "left_entity_id" null row) "left_entity_id"
    right_entity_id ← normalized_id (get "right_entity_id" null row) "right_entity_id"
    require (contains left_entity_id entity_ids && contains right_entity_id entity_ids)
        (value_error "join_entity_not_found")
    left_key ← normalized_id (get "left_key" null row) "left_key"
    right_key ← normalized_id (get "right_key" null row) "right_key"
    let join_type = lower (field_text "join_type" "inner" row)
    require (contains join_type join_types) (value_error "invalid_join_type")
    ok (record {
      join_id = join_id;
      left_entity_id = left_entity_id;
      right_entity_id = right_entity_id;
      left_key = left_key;
      right_key = right_key;
      join_type = join_type;
    })

  unfoldable pub join_rows : List String → List String → ℕ → List Json → Result (List Join)
  join_rows entity_ids seen index [] = ok []
  join_rows entity_ids seen index (value ∷ rows) = do
    j ← normalize_join entity_ids seen index value
    rest ← join_rows entity_ids (j.join_id ∷ seen) (suc index) rows
    ok (j ∷ rest)

  unfoldable pub normalize_joins : List String → List Json → Result (List Join)
  normalize_joins entity_ids rows = do
    joins ← join_rows entity_ids [] 0 rows
    ok (order_rows (λ (j : Join). j.join_id) joins)

  -- `expected_workspace_id` is always given by the callers
  unfoldable pub validate_semantic_manifest : Fields → String → Result Manifest
  validate_semantic_manifest manifest expected_workspace_id = do
    require (field_text "manifest_version" "" manifest == "1")
        (value_error "invalid_manifest_version")
    let workspace_id = field_text "workspace_id" "" manifest
    require (not (is_empty workspace_id)) (value_error "missing_workspace_id")
    require (workspace_id == expected_workspace_id) (value_error "workspace_mismatch")
    entities_raw ←
        expect (as_list (get "entities" (array nil) manifest)) (value_error "invalid_entities")
    metrics_raw ←
        expect (as_list (get "metrics" (array nil) manifest)) (value_error "invalid_metrics")
    joins_raw ← expect (as_list (get "joins" (array nil) manifest)) (value_error "invalid_joins")
    entities ← normalize_entities (elements entities_raw)
    let entity_ids = map (λ (e : Entity). e.entity_id) entities
    metrics ← normalize_metrics entity_ids (elements metrics_raw)
    joins ← normalize_joins entity_ids (elements joins_raw)
    ok (record {
      workspace_id = workspace_id;
      entities = entities;
      metrics = metrics;
      joins = joins;
    })

-- the dictionaries that the code returns for the rows
unfoldable pub entity_json : Entity → Json
entity_json e = object (
    field "entity_id" (text e.entity_id) (
      field "dataset_id" (text e.dataset_id) (
        field "primary_key" (text e.primary_key)
          (field "attributes" (array (items_of (map text e.attributes))) end))))

unfoldable pub metric_json : Metric → Json
metric_json m = object (
    field "metric_id" (text m.metric_id) (
      field "entity_id" (text m.entity_id) (
        field "aggregation" (text m.aggregation)
          (field "field" (text m.field) (field "expression" (text m.expression) end)))))

unfoldable pub join_json : Join → Json
join_json j = object (
    field "join_id" (text j.join_id) (
      field "left_entity_id" (text j.left_entity_id) (
        field "right_entity_id" (text j.right_entity_id) (
          field "left_key" (text j.left_key)
            (field "right_key" (text j.right_key) (field "join_type" (text j.join_type) end))))))

unfoldable pub manifest_json : Manifest → Fields
unfolding entity_json metric_json join_json
manifest_json m = field "manifest_version" (text "1") (
    field "workspace_id" (text m.workspace_id) (
      field "entities" (array (items_of (map entity_json m.entities))) (
        field "metrics" (array (items_of (map metric_json m.metrics)))
          (field "joins" (array (items_of (map join_json m.joins))) end))))
