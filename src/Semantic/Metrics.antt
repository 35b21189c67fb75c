-- ===== src/Semantic/Metrics.antt =====
-- Metrics of a manifest: what normalization makes sure of, and that normalizing again changes nothing.
use mathlib.Core.Path.{subst}
use schema_pilot.Base.{
  ◌≡◌, refl, inl, inr, String, true, false, not, List, [], ◌∷◌, if◌then◌else◌, All, All-contains,
  map, contains, strip, lower, is_empty, strip-strip, is_space, strip-call, starts_filled-append,
  arith, Bool-cases,
}
use schema_pilot.Base.Json.{Json, null, get, as_dict}
use schema_pilot.Errors.{value_error, ok, bind-ok, require-ok, ok_injective}
use schema_pilot.Semantic.Sorted.{is_fresh}
use schema_pilot.Semantic.Entities.{IsId, IsFilled, normalized_id-ok, normalized_id-text}
use schema_pilot.Semantic.{
  Metric, aggregations, expect, add_count, field_text, normalized_id, normalize_metric, metric_rows,
  metric_json,
}

-- a word that is spelled as `lower` and `strip` leave it
abbrev pub IsPlain : String → Type 0
IsPlain w = (strip w ≡ w) × (lower w ≡ w)

IsPlain-aggregations : All IsPlain aggregations
unfolding strip lower
IsPlain-aggregations =
    ((refl, refl), ((refl, refl), ((refl, refl), ((refl, refl), ((refl, refl), tt)))))

IsFilled-counts : (column : String) → All (λ w. IsFilled (add_count w column)) aggregations
unfolding add_count is_space
IsFilled-counts column = (
  strip-call _ (starts_filled-append "sum(" column refl),
  (
    strip-call _ (starts_filled-append "count(" column refl),
    (
      strip-call _ (starts_filled-append "avg(" column refl),
      (
        strip-call _ (starts_filled-append "min(" column refl),
        (strip-call _ (starts_filled-append "max(" column refl), tt),
      ),
    ),
  ),
)

IsFilled-expression :
    (written aggregation column : String)
    → strip written ≡ written
    → contains aggregation aggregations ≡ true
    → IsFilled (if is_empty written then add_count aggregation column else written)
IsFilled-expression written aggregation column h c = elim (Bool-cases (is_empty written)) [
  | inl empty ↦ rw empty (
      All-contains (λ w. IsFilled (add_count w column)) aggregation aggregations
        (IsFilled-counts column) c)
  | inr filled ↦ rw filled (h, filled)
]

-- what `_normalize_metrics` makes sure of for one metric
abbrev pub IsMetric : List String → Metric → Type 0
IsMetric entity_ids m =
    IsId m.metric_id
    × IsId m.entity_id
    × (contains m.entity_id entity_ids ≡ true)
    × (contains m.aggregation aggregations ≡ true)
    × IsId m.field
    × IsFilled m.expression

module _ (repr : Json → String) (entity_ids : List String) where
  normalize_metric-ok :
      (seen : List String) (value : Json) (m : Metric)
      → normalize_metric repr entity_ids seen value ≡ ok m
      → (contains m.metric_id seen ≡ false) × IsMetric entity_ids m
  unfolding normalize_metric field_text
  normalize_metric-ok seen value m h =
      let (row, dict, h1) =
        bind-ok (expect (as_dict value) (value_error "invalid_metric_row")) _ m h in
      let (id, an_id, h2) =
        bind-ok (normalized_id repr (get "metric_id" null row) "metric_id") _ m h1 in
      let (fresh, h3) = require-ok (not (contains id seen)) _ _ m h2 in
      let (entity, an_entity, h4) =
        bind-ok (normalized_id repr (get "entity_id" null row) "metric_entity_id") _ m h3 in
      let (known, h5) = require-ok (contains entity entity_ids) _ _ m h4 in
      let (listed, h6) =
        require-ok (contains (lower (field_text repr "aggregation" "" row)) aggregations) _ _ m
          h5 in
      let (column, a_column, same) =
        bind-ok (normalized_id repr (get "field" null row) "metric_field") _ m h6 in
      subst (λ m. (contains m.metric_id seen ≡ false) × IsMetric entity_ids m) (ok_injective same)
        (
          ground arith,
          (
            normalized_id-ok repr _ _ id an_id,
            normalized_id-ok repr _ _ entity an_entity,
            known,
            listed,
            normalized_id-ok repr _ _ column a_column,
            IsFilled-expression _ _ column (strip-strip _) listed,
          ),
        )

  normalize_metric-json :
      (seen : List String) (m : Metric)
      → contains m.metric_id seen ≡ false
      → IsMetric entity_ids m
      → normalize_metric repr entity_ids seen (metric_json m) ≡ ok m
  unfolding normalize_metric field_text metric_json
  normalize_metric-json seen m fresh h =
      let plain : IsPlain m.aggregation =
        All-contains IsPlain m.aggregation aggregations IsPlain-aggregations h.3 in
      rw
        (
          normalized_id-text repr "metric_id" m.metric_id h.0,
          fresh,
          normalized_id-text repr "metric_entity_id" m.entity_id h.1,
          h.2,
          plain.0,
          plain.1,
          h.3,
          normalized_id-text repr "metric_field" m.field h.4,
          h.5.0,
          h.5.1,
        )
        refl

  pub metric_rows-ok :
      (seen : List String) (rows : List Json) (ms : List Metric)
      → metric_rows repr entity_ids seen rows ≡ ok ms
      → (is_fresh (λ (m : Metric). m.metric_id) seen ms ≡ true) × All (IsMetric entity_ids) ms
  unfolding metric_rows
  metric_rows-ok seen [] ms h =
      subst
        (λ ms.
          (is_fresh (λ (m : Metric). m.metric_id) seen ms ≡ true) × All (IsMetric entity_ids) ms)
        (ok_injective h) (refl, tt)
  metric_rows-ok seen (value ∷ rows) ms h =
      let (m, one, h1) = bind-ok (normalize_metric repr entity_ids seen value) _ ms h in
      let (rest, more, same) =
        bind-ok (metric_rows repr entity_ids (m.metric_id ∷ seen) rows) _ ms h1 in
      let (fresh, good) = normalize_metric-ok seen value m one in
      let (freshes, goods) = metric_rows-ok (m.metric_id ∷ seen) rows rest more in
      subst
        (λ ms.
          (is_fresh (λ (m : Metric). m.metric_id) seen ms ≡ true) × All (IsMetric entity_ids) ms)
        (ok_injective same) (ground (arith, fresh, freshes), (good, goods))

  pub metric_rows-json :
      (seen : List String) (ms : List Metric)
      → is_fresh (λ (m : Metric). m.metric_id) seen ms ≡ true
      → All (IsMetric entity_ids) ms
      → metric_rows repr entity_ids seen (map metric_json ms) ≡ ok ms
  unfolding metric_rows
  metric_rows-json seen [] fresh good = refl
  metric_rows-json seen (m ∷ ms) fresh good =
      rw
        (
          normalize_metric-json seen m (ground arith) good.0,
          metric_rows-json (m.metric_id ∷ seen) ms (ground arith) good.1,
        )
        refl
