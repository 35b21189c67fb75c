-- ===== src/Examples/Workers.antt =====
-- The theorems on quality contracts and runs at concrete inputs.
use schema_pilot.Base.{
  ℕ, leb, Dict, not, map, String, ◌≡◌, refl, true, false, none, List, [], ◌∷◌, length, any,
}
use schema_pilot.Contracts.{text, null, Row, evaluate_quality_contracts}
use schema_pilot.Contracts.Partition.{is_incomplete, has_index, pick, contracts_partition}
use schema_pilot.Contracts.Unique.{is_distinct, texts, passed_distinct}
use schema_pilot.Scheduling.{RunRecord}
use schema_pilot.Runs.{RunStepRecord, has_status, ensure_run_steps, ensure_failed_run_step}
use schema_pilot.Runs.Failed.{Change, start, apply_all, ensure_failed-blames}

abbrev customers : List Row
customers =
    (("id", text "1") ∷ ("email", text "a@b") ∷ [])
    ∷ (("id", text "1") ∷ ("email", text "c@d") ∷ [])
    ∷ (("id", text "2") ∷ ("email", null) ∷ [])
    ∷ []

contracts_partition_example :
    let r = evaluate_quality_contracts customers ("id" ∷ []) ("email" ∷ []) ("id" ∷ []) in
    (r.passed_rows ≡ pick (λ i. not (has_index i r.failures)) 0 customers)
    × (map (λ q. q.0) r.quarantined_rows ≡ pick (λ i. has_index i r.failures) 0 customers)
    × (map (λ q. q.1) r.quarantined_rows ≡ map (λ f. f.1) r.failures)
    × (any (is_incomplete ("id" ∷ []) ("email" ∷ [])) r.passed_rows ≡ false)
contracts_partition_example = contracts_partition customers ("id" ∷ []) ("email" ∷ []) ("id" ∷ [])

passed_distinct_example :
    is_distinct (
      texts
        ("id" ∷ [])
        ("email" ∷ [])
        ("id" ∷ [])
        "id"
        refl
        (evaluate_quality_contracts customers ("id" ∷ []) ("email" ∷ []) ("id" ∷ [])))
    ≡ true
passed_distinct_example = passed_distinct ("id" ∷ []) ("email" ∷ []) ("id" ∷ []) "id" refl customers

abbrev discovery : RunRecord
discovery = record {
  run_id = "r2";
  workspace_id = "ws";
  run_type = "discover";
  status = "queued";
  schedule_id = "s1";
}

abbrev runs : List RunRecord
runs = record discovery { run_id = "r1"; status = "running" } ∷ discovery ∷ []

abbrev step_id : ℕ → String
step_id n = "step"

abbrev begun : List (Change String)
begun = start "" 100 "discover_inventory" ∷ []

ensure_failed-blames_example :
    let begun_steps : Dict (RunStepRecord String) = ensure_run_steps step_id "" discovery [] in
    any
      (has_status "failed")
      (ensure_failed_run_step 105 "value_error" "disk full" none (apply_all begun begun_steps))
    ≡ leb 1 (length begun_steps)
ensure_failed-blames_example =
    ensure_failed-blames step_id "" discovery [] begun 105 "value_error" "disk full" none
