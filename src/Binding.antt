-- ===== src/Binding.antt =====
-- backend/gateway/semantic_binding.py: the SQL and the datasets of a query on a metric. The manifest is
-- the one in force, validated again; `repr` is Python's text of a list or a dictionary, `checksum`
-- the SHA-256 of a manifest's canonical JSON. A dataset is named in an answer at most once.
pub mod Columns
pub mod Datasets
pub mod Covered
use Prim.Native.Char.{Char, code}
use Prim.Native.String.{◌++◌}
use schema_pilot.Base.{
  ℕ, suc, String, Bool, true, false, not, ◌&&◌, ◌||◌, Option, none, some, List, [], ◌∷◌, ◌==◌,
  if◌then◌else◌, contains, find, keep, map, strip, lower, is_empty, eqb, decimal, is_identifier,
  sort_texts, get_row,
}
use schema_pilot.Base.Json.{
  Json, null, text, array, object, nil, Fields, get, as_dict, as_list, str, elements,
}
use schema_pilot.Errors.{Error, value_error, Result, ok, err, require, ◌>>=◌, ◌>>◌}
use schema_pilot.Semantic.{
  Entity, Metric, Join, Manifest, validate_semantic_manifest, distinct_texts, aggregations, expect,
}
use schema_pilot.Manifests.{
  ManifestRow, ManifestState, load_state, find_manifest_row, written_checksum,
}
use schema_pilot.Sql.{index_of}

pub record SemanticQueryBinding : Type 0 where
  pub sql_text : String
  pub dataset_ids : List String
  pub metric_id : String
  pub group_by : List String
  pub manifest_checksum : String

abbrev pub entity_key : Entity → String
entity_key e = e.entity_id

-- `text.split(".", 1)` where there is a "."
unfoldable pub split_dot : String → Option (String × String)
split_dot String.[] = none
split_dot (String.◌∷◌ c s) =
    let rest = split_dot s in
    if eqb (code c) 46
    then some (String.[], s)
    else elim rest [ none ↦ none | some (a, b) ↦ some (String.◌∷◌ c a, b) ]

-- a column of the grouping: the entity's identifier and the column's name
abbrev pub Column : Type 0
Column = String × String

abbrev pub column_text : Column → String
column_text (entity_id, column) = entity_id ++ ("." ++ column)

-- the entity and the column that an item names; without a "." it is a column of the metric's entity
unfoldable pub column_of : String → String → Column
column_of default_entity_id item = elim (split_dot item) [
  | none ↦ (default_entity_id, item)
  | some (entity_id, column) ↦ (strip entity_id, strip column)
]

-- the checks on one item
unfoldable pub check_column : List Entity → Column → Result Column
check_column entities (entity_id, column) = do
  require (is_identifier entity_id && is_identifier column)
      (value_error "semantic_group_by_invalid")
  entity ←
      expect (get_row entity_key entity_id entities)
        (value_error "semantic_group_by_entity_not_found")
  require (column == entity.primary_key || contains column entity.attributes)
      (value_error "semantic_group_by_column_not_found")
  ok (entity_id, column)

-- `key not in normalized`
abbrev pub has_column : Column → List Column → Bool
has_column c [] = false
has_column c (d ∷ more) = column_text d == column_text c || has_column c more

-- the loop of `_parse_group_by`, over the texts of the items; `seen` holds the columns so far, the
-- last one first
unfoldable pub parse_columns :
    List Entity → String → List String → List Column → Result (List Column)
parse_columns entities default_entity_id [] seen = ok []
parse_columns entities default_entity_id (item ∷ items) seen =
    let skipped = parse_columns entities default_entity_id items seen in
    if is_empty item then skipped else do
      c ← check_column entities (column_of default_entity_id item)
      if has_column c seen
          then skipped
          else do rest ← parse_columns entities default_entity_id items (c ∷ seen); ok (c ∷ rest)

-- `_build_metric_expression`
unfoldable pub build_metric_expression : Metric → String → Result String
build_metric_expression metric alias = do
  let aggregation = lower (strip metric.aggregation)
  let column = strip metric.field
  require (contains aggregation aggregations)
      (value_error "semantic_metric_aggregation_not_supported")
  if column == "*"
      then (if aggregation == "count"
          then ok "count(*)"
          else err (value_error "semantic_metric_field_invalid"))
      else do
        require (is_identifier column) (value_error "semantic_metric_field_invalid")
        ok (aggregation ++ ("(" ++ (alias ++ ("." ++ (column ++ ")")))))

-- `_find_join_between`: the two identifiers are different
unfoldable pub is_between : String → String → Join → Bool
is_between left right j =
    (j.left_entity_id == left && j.right_entity_id == right)
    || (j.left_entity_id == right && j.right_entity_id == left)

unfoldable pub sql_join : String → String
sql_join join_type =
    if join_type == "left"
    then "left join"
    else if join_type == "right"
    then "right join"
    else if join_type == "full"
    then "full outer join"
    else "inner join"

-- `aliases[entity_id]`, by the place among the entities of the query
unfoldable pub alias_of : List String → String → String
alias_of involved entity_id = elim (index_of entity_id involved) [
  | none ↦ ""
  | some i ↦ "t" ++ decimal i
]

-- `_build_join_clause`
unfoldable pub build_join_clause : String → String → List Join → List String → Result String
unfolding is_between sql_join
build_join_clause base target joins involved = do
  j ← expect (find (is_between base target) joins) (value_error "semantic_join_path_missing")
  require (is_identifier j.left_key && is_identifier j.right_key)
      (value_error "semantic_join_key_invalid")
  ok (
      sql_join (lower (strip j.join_type))
      ++ (" gold."
          ++ (target
              ++ (" as "
                  ++ (alias_of involved target
                      ++ (" on "
                          ++ (alias_of involved j.left_entity_id
                              ++ ("."
                                  ++ (j.left_key
                                      ++ (" = "
                                          ++ (alias_of involved j.right_entity_id
                                              ++ ("." ++ j.right_key))))))))))))

unfoldable pub build_join_clauses :
    String → List String → List Join → List String → Result (List String)
build_join_clauses base [] joins involved = ok []
build_join_clauses base (target ∷ targets) joins involved =
    let rest = build_join_clauses base targets joins involved in
    if target == base then rest else do
      clause ← build_join_clause base target joins involved
      clauses ← rest
      ok (clause ∷ clauses)

-- `separator.join(parts)`
unfoldable pub join_parts : String → List String → String
join_parts separator [] = ""
join_parts separator (a ∷ []) = a
join_parts separator (a ∷ b ∷ rest) = a ++ (separator ++ join_parts separator (b ∷ rest))

-- the entities of the query, the metric's first, each once
unfoldable pub add_entities : List Column → List String → List String
add_entities [] found = []
add_entities ((entity_id, column) ∷ more) found =
    let again = add_entities more found in
    let new = add_entities more (entity_id ∷ found) in
    if contains entity_id found then again else entity_id ∷ new

unfoldable pub involved_entities : String → List Column → List String
involved_entities metric_entity_id columns =
    metric_entity_id ∷ add_entities columns (metric_entity_id ∷ [])

-- the parts of the select list
abbrev column_sql : List String → Column → String
column_sql involved (entity_id, column) = alias_of involved entity_id ++ ("." ++ column)

abbrev selected_sql : List String → Column → String
selected_sql involved (entity_id, column) =
    column_sql involved (entity_id, column) ++ (" as " ++ (entity_id ++ ("__" ++ column)))

abbrev select_list : List String → List Column → String → List String
select_list involved [] metric_sql = (metric_sql ++ " as metric_value") ∷ []
select_list involved (c ∷ columns) metric_sql =
    selected_sql involved c ∷ select_list involved columns metric_sql

abbrev spaced : String → String
spaced t = if is_empty t then "" else " " ++ t

unfoldable pub sql_of : String → List String → List Column → String → List String → String
unfolding join_parts
sql_of base involved columns metric_sql clauses =
    let grouping = join_parts ", " (map (column_sql involved) columns) in
    "select "
    ++ (join_parts ", " (select_list involved columns metric_sql)
        ++ (" from gold."
            ++ (base
                ++ (" as "
                    ++ (alias_of involved base
                        ++ (spaced (join_parts " " clauses)
                            ++ (if is_empty grouping then "" else " group by " ++ grouping)))))))

-- the dataset of an entity, if it has one
abbrev pub add_dataset : Option Entity → List String → List String
add_dataset none rest = rest
add_dataset (some e) rest = if is_empty (strip e.dataset_id) then rest else e.dataset_id ∷ rest

-- the datasets of the entities, in order
abbrev pub datasets_of : List Entity → List String → List String
datasets_of entities [] = []
datasets_of entities (entity_id ∷ rest) =
    add_dataset (get_row entity_key entity_id entities) (datasets_of entities rest)

unfoldable pub dataset_ids_of : List Entity → List String → List String
dataset_ids_of entities involved = sort_texts (distinct_texts (datasets_of entities involved))

-- `[] `or not, as Python's truth of a list
abbrev pub has_dataset : List String → Bool
has_dataset [] = false
has_dataset (a ∷ l) = true

module _ (repr : Json → String) (checksum : Manifest → String) where
  -- the texts of the items of the query's grouping
  unfoldable pub group_items : Fields → Result (List String)
  group_items semantic_query = elim (as_list (get "group_by" (array nil) semantic_query)) [
    | none ↦ err (value_error "semantic_group_by_invalid")
    | some items ↦ ok (map (λ item. strip (str repr item)) (elements items))
  ]

  -- With the manifest in hand.
  unfoldable pub bind_manifest :
      Manifest → Option String → String → Fields → Result SemanticQueryBinding
  bind_manifest m state_checksum metric_id semantic_query = do
    metric ←
        expect (get_row (λ (x : Metric). x.metric_id) metric_id m.metrics)
          (value_error "semantic_metric_not_found")
    entity ←
        expect (get_row entity_key metric.entity_id m.entities)
          (value_error "semantic_metric_entity_missing")
    items ← group_items semantic_query
    columns ← parse_columns m.entities metric.entity_id items []
    let involved = involved_entities metric.entity_id columns
    metric_sql ← build_metric_expression metric (alias_of involved metric.entity_id)
    clauses ← build_join_clauses metric.entity_id involved m.joins involved
    let dataset_ids = dataset_ids_of m.entities involved
    require (has_dataset dataset_ids) (value_error "semantic_dataset_binding_missing")
    let written = written_checksum state_checksum
    ok (record {
      sql_text = sql_of metric.entity_id involved columns metric_sql clauses;
      dataset_ids = dataset_ids;
      metric_id = metric_id;
      group_by = map column_text columns;
      manifest_checksum = if is_empty written then checksum m else written;
    })

  -- the manifest of the active row, validated again
  unfoldable pub bound_manifest : String → List ManifestRow → Result (Manifest × Option String)
  bound_manifest workspace_id policies = do
    row ←
        expect (find_manifest_row workspace_id policies)
          (value_error "semantic_manifest_not_configured")
    let state = load_state row.definition_ref
    raw ← expect (as_dict state.manifest) (value_error "semantic_manifest_not_configured")
    elim (validate_semantic_manifest repr raw workspace_id) [
      | err e ↦ err (value_error "semantic_manifest_invalid")
      | ok m ↦ ok (m, state.manifest_checksum)
    ]

  unfoldable pub bind_semantic_query :
      String → List ManifestRow → Fields → Result SemanticQueryBinding
  bind_semantic_query workspace_id policies semantic_query = do
    let metric_id = strip (str repr (get "metric_id" (text "") semantic_query))
    require (not (is_empty metric_id)) (value_error "semantic_metric_required")
    require (is_identifier metric_id) (value_error "semantic_metric_invalid")
    (m, state_checksum) ← bound_manifest workspace_id policies
    bind_manifest m state_checksum metric_id semantic_query
