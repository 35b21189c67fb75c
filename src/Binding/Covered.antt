-- ===== src/Binding/Covered.antt =====
-- What a bound query reads is named in it.
use mathlib.Core.Path.{subst}
use schema_pilot.Base.{
  String, true, Option, some, List, [], ◌∷◌, ◌≡◌, refl, map, All, get_row, arith, eq_refl,
}
use schema_pilot.Base.Json.{Json, Fields}
use schema_pilot.Errors.{value_error, ok, bind-ok, require-ok, ok_injective}
use schema_pilot.Semantic.{Entity, Metric, Manifest, expect}
use schema_pilot.Semantic.Entities.{IsEntity}
use schema_pilot.Binding.{
  SemanticQueryBinding, Column, column_text, entity_key, parse_columns, build_metric_expression,
  alias_of, build_join_clauses, involved_entities, add_entities, dataset_ids_of, has_dataset,
  group_items, bind_manifest,
}
use schema_pilot.Binding.Columns.{expect-ok, IsColumn, are_new, parse_columns-ok}
use schema_pilot.Binding.Datasets.{IsCovered, dataset_ids_of-contains, entities-IsCovered}

module _ (repr : Json → String) (checksum : Manifest → String) where
  All-IsCovered :
      (entities : List Entity) (first : String) (e : Entity) (columns : List Column)
      → All IsEntity entities
      → All (IsColumn entities) columns
      → get_row entity_key first entities ≡ some e
      → All
          (IsCovered entities (dataset_ids_of entities (involved_entities first columns)))
          (involved_entities first columns)
  unfolding involved_entities
  All-IsCovered entities first e columns good columns_good found =
      let all = first ∷ add_entities columns (first ∷ []) in
      (
        dataset_ids_of-contains entities first e all good found (rw (eq_refl first) refl),
        entities-IsCovered entities columns (first ∷ []) all good columns_good
            (λ k h. ground (arith, h)),
      )

  -- A query that is bound to a validated manifest groups by distinct columns, each of an entity of the
  -- manifest that has it, under names that are identifiers; and every entity that the query reads is in
  -- the manifest, with its dataset among the datasets that the binding names.
  pub bind_manifest-IsCovered :
      (m : Manifest) (state_checksum : Option String) (metric_id : String) (query : Fields)
      (b : SemanticQueryBinding)
      → All IsEntity m.entities
      → bind_manifest repr checksum m state_checksum metric_id query ≡ ok b
      → (metric : Metric) × (columns : List Column) × (get_row
            (λ (x : Metric). x.metric_id)
            metric_id
            m.metrics
          ≡ some metric)
        × (b.group_by ≡ map column_text columns)
        × (are_new [] columns ≡ true)
        × All (IsColumn m.entities) columns
        × All (IsCovered m.entities b.dataset_ids) (involved_entities metric.entity_id columns)
  unfolding bind_manifest
  bind_manifest-IsCovered m state_checksum metric_id query b good h =
      let (metric, known, h1) =
        bind-ok
          (expect (get_row (λ (x : Metric). x.metric_id) metric_id m.metrics)
            (value_error "semantic_metric_not_found"))
          _ b h in
      let (entity, there, h2) =
        bind-ok
          (expect (get_row entity_key metric.entity_id m.entities)
            (value_error "semantic_metric_entity_missing"))
          _ b h1 in
      let (items, read, h3) = bind-ok (group_items repr checksum query) _ b h2 in
      let (columns, parsed, h4) =
        bind-ok (parse_columns m.entities metric.entity_id items []) _ b h3 in
      let involved = involved_entities metric.entity_id columns in
      let (metric_sql, built, h5) =
        bind-ok (build_metric_expression metric (alias_of involved metric.entity_id)) _ b h4 in
      let (clauses, joined, h6) =
        bind-ok (build_join_clauses metric.entity_id involved m.joins involved) _ b h5 in
      let (some_dataset, same) =
        require-ok (has_dataset (dataset_ids_of m.entities involved)) _ _ b h6 in
      let (differ, columns_good) =
        parse_columns-ok m.entities metric.entity_id items [] columns parsed in
      subst
        (λ (b : SemanticQueryBinding).
          (metric : Metric) × (columns : List Column) × (get_row (λ (x : Metric). x.metric_id)
              metric_id m.metrics
            ≡ some metric)
          × (b.group_by ≡ map column_text columns)
          × (are_new [] columns ≡ true)
          × All (IsColumn m.entities) columns
          × All (IsCovered m.entities b.dataset_ids) (involved_entities metric.entity_id columns))
        (ok_injective same)
        (
          metric,
          columns,
          expect-ok _ (value_error "semantic_metric_not_found") metric known,
          refl,
          differ,
          columns_good,
          All-IsCovered m.entities metric.entity_id entity columns good columns_good
              (expect-ok _ (value_error "semantic_metric_entity_missing") entity there),
        )
