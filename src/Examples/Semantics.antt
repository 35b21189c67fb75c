-- ===== src/Examples/Semantics.antt =====
-- Concrete manifests.
use schema_pilot.Base.{
  String, Bool, any, contains, true, false, some, List, [], ◌∷◌, ◌≡◌, refl, All, map, get_row,
  strip, is_identifier, is_identifier_rest, order_rows, sort_texts, lower, decimal,
}
use schema_pilot.Base.Json.{Json, text, array, object, nil, cons, Fields, end, field}
use schema_pilot.Errors.{ok}
use schema_pilot.Review.{no_review}
use schema_pilot.Semantic.{
  Entity, Metric, Manifest, manifest_json, validate_semantic_manifest, distinct_texts, add_count,
  field_text, normalized_id, normalized_attributes, normalize_entity, entity_rows,
  normalize_entities, normalize_metric, metric_rows, normalize_metrics, join_rows, normalize_joins,
}
use schema_pilot.Semantic.Stable.{IsManifest, validate-validate}
use schema_pilot.Manifests.{
  ManifestState, active_manifest, ManifestRow, ManifestDb, next_manifest_state,
  rollback_semantic_manifest, get_effective_semantic_manifest,
}
use schema_pilot.Manifests.Active.{in_force, IsStored}
use schema_pilot.Binding.{
  SemanticQueryBinding, Column, column_text, bind_manifest, involved_entities, group_items,
  parse_columns, check_column, column_of, split_dot, build_metric_expression, build_join_clauses,
  add_entities, dataset_ids_of, sql_of, alias_of, build_join_clause, is_between, join_parts,
  sql_join,
}
use schema_pilot.Sql.{index_of}
use schema_pilot.Binding.Columns.{IsColumn, are_new}
use schema_pilot.Binding.Datasets.{IsCovered}
use schema_pilot.Binding.Covered.{bind_manifest-IsCovered}
use schema_pilot.Manifests.Undo.{rollback-rollback}

abbrev no_repr : Json → String
no_repr value = ""

-- a manifest of one entity and one metric
abbrev row_of : String → Json
row_of column = object (
    field "entity_id" (text " orders ") (
      field "dataset_id" (text "dataset-1") (
        field "primary_key" (text "order_id")
          (field "attributes" (array (cons (text column) (cons (text "amount") nil))) end))))

abbrev raw_of : String → Fields
raw_of column = field "manifest_version" (text "1") (
    field "workspace_id" (text "ws") (
      field "entities" (array (cons (row_of column) nil)) (
        field "metrics"
          (array (
            cons
              (object (
                field "metric_id" (text "revenue") (
                  field "entity_id" (text "orders")
                    (field "aggregation" (text "SUM") (field "field" (text "amount") end)))))
              nil))
          end)))

abbrev manifest_of : List String → Manifest
manifest_of attributes = record {
  workspace_id = "ws";
  entities =
      record {
        entity_id = "orders";
        dataset_id = "dataset-1";
        primary_key = "order_id";
        attributes = attributes;
      }
      ∷ [];
  metrics =
      record {
        metric_id = "revenue";
        entity_id = "orders";
        aggregation = "sum";
        field = "amount";
        expression = "sum(amount)";
      }
      ∷ [];
  joins = [];
}

abbrev by_region : Manifest
by_region = manifest_of ("amount" ∷ "region" ∷ [])

abbrev by_channel : Manifest
by_channel = manifest_of ("amount" ∷ "channel" ∷ [])

by_region_valid : validate_semantic_manifest no_repr (raw_of "region") "ws" ≡ ok by_region
unfolding validate_semantic_manifest field_text strip normalize_entities entity_rows
    normalize_entity normalized_id is_identifier is_identifier_rest normalized_attributes
    normalize_metrics metric_rows normalize_metric order_rows lower normalize_joins join_rows
    sort_texts add_count distinct_texts
by_region_valid = refl

validate-validate_example :
    (by_region.workspace_id ≡ "ws")
    × IsManifest by_region
    × (validate_semantic_manifest no_repr (manifest_json by_region) "ws" ≡ ok by_region)
validate-validate_example =
    validate-validate no_repr (raw_of "region") "ws" by_region by_region_valid

by_region-IsStored : IsStored no_repr "ws" (object (manifest_json by_region)) by_region
by_region-IsStored = (refl, validate-validate_example.2)

by_channel_valid :
    validate_semantic_manifest no_repr (manifest_json by_channel) "ws" ≡ ok by_channel
unfolding validate_semantic_manifest field_text strip normalize_entities entity_rows
    normalize_entity normalized_id is_identifier is_identifier_rest normalized_attributes
    normalize_metrics metric_rows normalize_metric order_rows lower normalize_joins join_rows
    sort_texts add_count distinct_texts manifest_json
by_channel_valid = refl

-- a checksum that tells the two manifests apart
abbrev mark : Bool → String
mark true = "sum-1"
mark false = "sum-2"

abbrev checksum : Manifest → String
checksum m = mark (any (λ (e : Entity). contains "region" e.attributes) m.entities)

mark_stripped : (b : Bool) → strip (mark b) ≡ mark b
unfolding strip
mark_stripped true = refl
mark_stripped false = refl

checksum_stripped : (m : Manifest) → strip (checksum m) ≡ checksum m
checksum_stripped m =
    mark_stripped (any (λ (e : Entity). contains "region" e.attributes) m.entities)

abbrev state : ManifestState
state = record {
  manifest = object (manifest_json by_region);
  manifest_checksum = some "sum-1";
  version = 2;
  previous_manifest = object (manifest_json by_channel);
  previous_manifest_checksum = some "sum-2";
}

abbrev row : ManifestRow
row = record {
  policy_id = "p1";
  workspace_id = "ws";
  policy_type = "semantic_manifest";
  definition_ref = active_manifest state;
  status = "active";
}

abbrev db : ManifestDb
db = record { workspaces = "ws" ∷ []; policies = row ∷ []; review = no_review; evidence = [] }

rollback-rollback_example :
    let once = rollback_semantic_manifest no_repr checksum "ws" db in
    let twice = rollback_semantic_manifest no_repr checksum "ws" once.1 in
    (once.0 ≡ ok (next_manifest_state no_repr checksum by_channel state))
    × (get_effective_semantic_manifest no_repr checksum "ws" once.1
        ≡ ok (some (in_force no_repr checksum checksum_stripped "ws" by_channel state)))
    × (get_effective_semantic_manifest no_repr checksum "ws" twice.1
        ≡ ok (
            some (
              in_force no_repr checksum checksum_stripped "ws" by_region
                (next_manifest_state no_repr checksum by_channel state))))
rollback-rollback_example =
    rollback-rollback no_repr checksum checksum_stripped "ws" db row state by_region by_channel
      (refl, tt) (refl, refl) by_region-IsStored (refl, by_channel_valid)

-- the revenue of each region
abbrev by_region_query : Fields
by_region_query =
    field "metric_id" (text "revenue") (field "group_by" (array (cons (text "region") nil)) end)

abbrev bound : SemanticQueryBinding
bound = record {
  sql_text =
      "select t0.region as orders__region, sum(t0.amount) as metric_value from gold.orders as t0 group by t0.region";
  dataset_ids = "dataset-1" ∷ [];
  metric_id = "revenue";
  group_by = "orders.region" ∷ [];
  manifest_checksum = "sum-1";
}

bound_ok :
    bind_manifest no_repr checksum by_region (some "sum-1") "revenue" by_region_query ≡ ok bound
unfolding bind_manifest group_items parse_columns check_column column_of split_dot
    build_metric_expression build_join_clauses involved_entities add_entities dataset_ids_of sql_of
    alias_of build_join_clause is_between join_parts sql_join strip is_identifier is_identifier_rest
    lower sort_texts distinct_texts index_of decimal
bound_ok = refl

bind_manifest-IsCovered_example :
    (metric : Metric) × (columns : List Column) × (get_row
        (λ (x : Metric). x.metric_id)
        "revenue"
        by_region.metrics
      ≡ some metric)
    × (bound.group_by ≡ map column_text columns)
    × (are_new [] columns ≡ true)
    × All (IsColumn by_region.entities) columns
    × All
        (IsCovered by_region.entities bound.dataset_ids)
        (involved_entities metric.entity_id columns)
bind_manifest-IsCovered_example =
    bind_manifest-IsCovered no_repr checksum by_region (some "sum-1") "revenue" by_region_query
      bound validate-validate_example.1.2 bound_ok
