-- ===== src/SourceHealth.antt =====
-- backend/control_plane/source_health.py: freshness limits of datasets, and the violations that become
-- review tasks. A policy row of this type holds the limit that the service wrote. New identifiers
-- are given by number; `int_of_text` and `int_of_number` are Python's `int` of a text and a number.
pub mod Tasks
use schema_pilot.Base.{
  ℕ, suc, ◌+◌, ◌-◌, String, Bool, true, false, not, ◌&&◌, ◌||◌, Option, none, some, List, [], ◌∷◌,
  ◌++◌, ◌==◌, if◌then◌else◌, find, keep, any, map, length, strip, get_row, put_row, order_rows, ltb,
  eqb,
}
use schema_pilot.Base.Int.{ℤ, pos, negsuc, pos_part, neg_part, leb_ℤ}
use schema_pilot.Base.Json.{
  Json, null, boolean, number, text, array, object, end, Fields, get, as_dict,
}
use schema_pilot.Errors.{Error, value_error, Result, ok, err, Exec}
use schema_pilot.Evidence.{Store, Sealer, store_evidence_bundle}
use schema_pilot.Review.{Review, Task, is_unresolved, create_proposal, create_review_task}
use schema_pilot.Policies.{PolicyRow, policy_key, is_active}
use schema_pilot.Catalog.{CatalogDataset, dataset_key}

pub record SourceSla : Type 0 where
  pub sla_id : String
  pub workspace_id : String
  pub dataset_id : String
  pub freshness_seconds : ℤ
  pub enabled : Bool
  pub created_by : String
  pub updated_by : Option String

abbrev pub SlaRow : Type 0
SlaRow = PolicyRow SourceSla

pub record Violation : Type 0 where
  pub dataset_id : String
  pub freshness_seconds : ℤ
  pub last_profile_epoch : ℤ
  pub age_seconds : ℕ

pub record SlaDb : Type 0 where
  pub policies : List SlaRow
  pub datasets : List CatalogDataset
  pub review : Review
  pub evidence : Store

abbrev pub is_sla : String → SlaRow → Bool
is_sla workspace_id = is_active workspace_id "source_sla"

unfoldable pub configure_source_sla :
    String → String → String → ℤ → Bool → String → Exec SlaDb SourceSla
configure_source_sla new_id workspace_id dataset_id freshness_seconds enabled actor_id db =
    if leb_ℤ freshness_seconds (pos 0)
    then (err (value_error "invalid_freshness_seconds"), db)
    else elim (find
        (λ (r : SlaRow). is_sla workspace_id r && r.definition_ref.dataset_id == dataset_id)
        db.policies) [
          | some row ↦
              let sla : SourceSla = record row.definition_ref {
                freshness_seconds = freshness_seconds;
                enabled = enabled;
                updated_by = some actor_id;
              } in
              (
                ok sla,
                record db {
                  policies = put_row policy_key (record row { definition_ref = sla }) db.policies;
                },
              )
          | none ↦
              let sla : SourceSla = record {
                sla_id = new_id;
                workspace_id = workspace_id;
                dataset_id = dataset_id;
                freshness_seconds = freshness_seconds;
                enabled = enabled;
                created_by = actor_id;
                updated_by = none;
              } in
              let row : SlaRow = record {
                policy_id = new_id;
                workspace_id = workspace_id;
                policy_type = "source_sla";
                definition_ref = sla;
                status = "active";
              } in
              (ok sla, record db { policies = db.policies ++ row ∷ [] })
        ]

unfoldable pub list_source_slas : String → SlaDb → List SourceSla
list_source_slas workspace_id db =
    map (λ (r : SlaRow). r.definition_ref)
      (order_rows policy_key (keep (is_sla workspace_id) db.policies))

-- `_has_open_quality_task`
unfoldable pub has_open_quality_task : String → String → Review → Bool
has_open_quality_task workspace_id proposal_id review =
    any
      (λ (t : Task).
        t.workspace_id == workspace_id
        && (t.subject_ref == proposal_id && (t.priority == "quality_critical" && is_unresolved t)))
      review.tasks

abbrev summary_or_empty : Option Fields → Fields
summary_or_empty none = end
summary_or_empty (some d) = d

module _ (int_of_text : String → Option ℤ) (int_of_number : String → ℤ) where
  -- `_coerce_int`, with the default 0
  unfoldable pub coerce_int : Json → ℤ
  coerce_int (boolean b) = pos (if b then 1 else 0)
  coerce_int (number n) = int_of_number n
  coerce_int (text t) = elim (int_of_text (strip t)) [ none ↦ pos 0 | some n ↦ n ]
  coerce_int null = pos 0
  coerce_int (array xs) = pos 0
  coerce_int (object d) = pos 0

  -- the time of the last profile in the dataset's summary
  unfoldable pub last_profile_epoch : CatalogDataset → ℤ
  unfolding coerce_int
  last_profile_epoch dataset =
      let summary = summary_or_empty (as_dict dataset.sensitivity_summary_json) in
      let profile = summary_or_empty (as_dict (get "profile" (object end) summary)) in
      coerce_int (get "last_profile_epoch" null profile)

  -- the violation of one limit, if there is one
  unfoldable pub violation_of : ℕ → List CatalogDataset → SourceSla → Option Violation
  violation_of now datasets sla =
      if not sla.enabled then none else elim (get_row dataset_key (strip sla.dataset_id) datasets) [
        | none ↦ none
        | some dataset ↦
            let last = last_profile_epoch dataset in
            let age = (now + neg_part last) - pos_part last in
            let never = eqb (pos_part last) 0 && eqb (neg_part last) 0 in
            if never || not (leb_ℤ (pos age) sla.freshness_seconds)
            then some (record {
              dataset_id = strip sla.dataset_id;
              freshness_seconds = sla.freshness_seconds;
              last_profile_epoch = last;
              age_seconds = age;
            })
            else none
      ]

-- The review of one violation: the proposal, and a blocking task unless the proposal has one.
unfoldable pub review_violation : String → String → String → String → Review → List String × Review
review_violation proposal_id task_id workspace_id evidence_bundle_uri review =
    let (proposal, review') =
      create_proposal proposal_id workspace_id "source_freshness_violation" evidence_bundle_uri
        10000 review in
    let (task, review'') =
      create_review_task task_id workspace_id proposal.proposal_id "quality_critical" true
        review' in
    if has_open_quality_task workspace_id proposal.proposal_id review'
    then ([], review')
    else (task.task_id ∷ [], review'')

-- The loop over the violations, from the number `n` on: the identifiers of the new tasks.
module _ (sealer : Sealer Violation) (proposal_id task_id : ℕ → String)
    (workspace_id : String) where
  unfoldable pub report_violations : ℕ → List Violation → Exec SlaDb (List String)
  unfolding review_violation
  report_violations n [] db = (ok [], db)
  report_violations n (v ∷ more) db =
      let (stored, evidence) =
        store_evidence_bundle sealer workspace_id v "source_sla_violation" none db.evidence in
      elim stored [
        | err e ↦ (err e, record db { evidence = evidence })
        | ok bundle ↦
            let (created, review) =
              review_violation (proposal_id n) (task_id n) workspace_id bundle.evidence_bundle_uri
                db.review in
            let (rest, db') =
              report_violations (suc n) more (record db { evidence = evidence; review = review }) in
            elim rest [ err e ↦ (err e, db') | ok ids ↦ (ok (created ++ ids), db') ]
      ]

-- the violations of a list of limits
unfoldable pub violations_of : (SourceSla → Option Violation) → List SourceSla → List Violation
violations_of check [] = []
violations_of check (sla ∷ slas) =
    let rest = violations_of check slas in elim (check sla) [ none ↦ rest | some v ↦ v ∷ rest ]

-- what `evaluate_source_slas` answers
pub record SlaReport : Type 0 where
  pub evaluated_slas : ℕ
  pub violations : List Violation
  pub created_task_ids : List String

unfoldable pub evaluate_source_slas :
    (String → Option ℤ)
    → (String → ℤ)
    → Sealer Violation
    → (ℕ → String)
    → (ℕ → String)
    → ℕ
    → String
    → Exec SlaDb SlaReport
evaluate_source_slas int_of_text int_of_number sealer proposal_id task_id now workspace_id db =
    let slas = list_source_slas workspace_id db in
    let violations = violations_of (violation_of int_of_text int_of_number now db.datasets) slas in
    let (r, db') = report_violations sealer proposal_id task_id workspace_id 0 violations db in
    elim r [
      | err e ↦ (err e, db')
      | ok ids ↦ (
        ok (record {
          evaluated_slas = length slas;
          violations = violations;
          created_task_ids = ids;
        }),
        db',
      )
    ]
