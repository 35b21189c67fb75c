-- ===== src/Runs.antt =====
-- backend/workers/run_processor.py: which queued run is processed next, and the step rows of a run.
-- `D` is the type of a step's details. What a run of each type does between its steps is not modelled.
pub mod Picked
pub mod Failed
use schema_pilot.Base.{
  ℕ, suc, ◌+◌, ◌-◌, ◌*◌, String, Bool, true, false, not, ◌&&◌, ◌||◌, Option, none, some, List, [],
  ◌∷◌, ◌==◌, if◌then◌else◌, ltb, eqb, max, keep, length, any, find, order_rows, text_leb, Dict,
  lookup, insert,
}
use schema_pilot.Base.Int.{ℤ, pos_part}
use schema_pilot.Scheduling.{RunRecord}

abbrev pub run_key : RunRecord → String
run_key r = r.run_id

abbrev pub is_queued : RunRecord → Bool
is_queued r = r.status == "queued"

-- `running_count < workspace_limit`
abbrev pub has_room : ℕ → List RunRecord → RunRecord → Bool
has_room limit runs r =
    ltb (length (keep (λ s. s.workspace_id == r.workspace_id && s.status == "running") runs)) limit

-- the choice of `process_next_queued_run`
unfoldable pub next_queued_run : ℤ → List RunRecord → Option RunRecord
next_queued_run max_active_per_workspace runs =
    find (has_room (max (pos_part max_active_per_workspace) 1) runs)
      (order_rows run_key (keep is_queued runs))

pub record RunStepRecord (D : Type 0) : Type 0 where
  pub run_step_id : String
  pub run_id : String
  pub workspace_id : String
  pub run_type : String
  pub step_key : String
  pub step_order : ℕ
  pub depends_on : List String
  pub status : String
  pub started_epoch : Option ℕ
  pub finished_epoch : Option ℕ
  pub duration_ms : Option ℕ
  pub attempt_count : ℕ
  pub error_code : Option String
  pub evidence_bundle_uri : Option String
  pub details : D

-- `int(row.started_epoch or finished_epoch)`
unfoldable pub started_or : ℕ → Option ℕ → ℕ
started_or finished none = finished
started_or finished (some started) = if eqb started 0 then finished else started

-- `RunStepDefinition`: key, order and dependencies
pub record RunStepDefinition : Type 0 where
  pub key : String
  pub order : ℕ
  pub needs : List String

abbrev step_of : String → ℕ → List String → RunStepDefinition
step_of key order needs = record { key = key; order = order; needs = needs }

-- `RUN_STEP_DEFINITIONS.get(run_type, ())`
unfoldable pub run_step_definitions : String → List RunStepDefinition
run_step_definitions run_type =
    if run_type == "discover"
    then step_of "discover_inventory" 10 []
      ∷ step_of "ingest_profile_governance" 20 ("discover_inventory" ∷ [])
      ∷ step_of "semantic_drift_gate" 30 ("ingest_profile_governance" ∷ [])
      ∷ step_of "finalize_output" 40 ("semantic_drift_gate" ∷ [])
      ∷ []
    else if run_type == "semantic_bootstrap"
    then step_of "collect_catalog" 10 []
      ∷ step_of "build_manifest_candidate" 20 ("collect_catalog" ∷ [])
      ∷ step_of "finalize_output" 30 ("build_manifest_candidate" ∷ [])
      ∷ []
    else if run_type == "materialize_refresh"
    then step_of "collect_inputs" 10 []
      ∷ step_of "refresh_materializations" 20 ("collect_inputs" ∷ [])
      ∷ step_of "finalize_output" 30 ("refresh_materializations" ∷ [])
      ∷ []
    else []

module _ {D : Type 0} where
  -- the rows by their keys: a later row with the same key replaces an earlier one
  unfoldable pub by_key : List (RunStepRecord D) → Dict (RunStepRecord D) → Dict (RunStepRecord D)
  by_key [] steps = steps
  by_key (row ∷ rows) steps = by_key rows (insert row.step_key row steps)

  -- new rows, with the n-th new id for the n-th
  unfoldable pub new_steps :
      (ℕ → String) → D → RunRecord → ℕ → List RunStepDefinition → List (RunStepRecord D)
  new_steps new_id no_details run n [] = []
  new_steps new_id no_details run n (d ∷ definitions) =
      record {
        run_step_id = new_id n;
        run_id = run.run_id;
        workspace_id = run.workspace_id;
        run_type = run.run_type;
        step_key = d.key;
        step_order = d.order;
        depends_on = d.needs;
        status = "queued";
        started_epoch = none;
        finished_epoch = none;
        duration_ms = none;
        attempt_count = 0;
        error_code = none;
        evidence_bundle_uri = none;
        details = no_details;
      }
      ∷ new_steps new_id no_details run (suc n) definitions

  -- `existing_rows` are the rows of the run in the order of the query
  unfoldable pub ensure_run_steps :
      (ℕ → String) → D → RunRecord → List (RunStepRecord D) → Dict (RunStepRecord D)
  ensure_run_steps new_id no_details run [] =
      by_key (new_steps new_id no_details run 0 (run_step_definitions run.run_type)) []
  ensure_run_steps new_id no_details run (row ∷ existing_rows) = by_key (row ∷ existing_rows) []

  -- `row = step_rows.get(step_key)`, and the writes to the row
  unfoldable pub change_step :
      (RunStepRecord D → RunStepRecord D) → String → Dict (RunStepRecord D) → Dict (RunStepRecord D)
  change_step f key steps = elim (lookup key steps) [
    | none ↦ steps
    | some row ↦ insert key (f row) steps
  ]

  unfoldable pub started : D → ℕ → RunStepRecord D → RunStepRecord D
  started no_details now row = record row {
    status = "running";
    attempt_count = row.attempt_count + 1;
    started_epoch = some now;
    finished_epoch = none;
    duration_ms = none;
    error_code = none;
    evidence_bundle_uri = none;
    details = no_details;
  }

  unfoldable pub start_step : D → ℕ → String → Dict (RunStepRecord D) → Dict (RunStepRecord D)
  start_step no_details now = change_step (started no_details now)

  unfoldable pub succeeded : ℕ → D → Option String → RunStepRecord D → RunStepRecord D
  succeeded now details uri row = record row {
    status = "succeeded";
    finished_epoch = some now;
    duration_ms = some ((now - started_or now row.started_epoch) * 1000);
    error_code = none;
    evidence_bundle_uri = uri;
    details = details;
  }

  unfoldable pub succeed_step :
      ℕ → String → D → Option String → Dict (RunStepRecord D) → Dict (RunStepRecord D)
  succeed_step now key details uri = change_step (succeeded now details uri) key

  unfoldable pub failed : ℕ → String → D → Option String → RunStepRecord D → RunStepRecord D
  failed now code details uri row = record row {
    status = "failed";
    finished_epoch = some now;
    duration_ms = some ((now - started_or now row.started_epoch) * 1000);
    error_code = some code;
    evidence_bundle_uri = uri;
    details = details;
  }

  unfoldable pub fail_step :
      ℕ → String → String → D → Option String → Dict (RunStepRecord D) → Dict (RunStepRecord D)
  fail_step now key code details uri = change_step (failed now code details uri) key

  abbrev pub has_status : String → String × RunStepRecord D → Bool
  has_status status e = e.1.status == status

  -- `(step_order, run_step_id)` of the first is not above that of the second
  unfoldable pub is_first : RunStepRecord D → RunStepRecord D → Bool
  is_first a b =
      ltb a.step_order b.step_order
      || (eqb a.step_order b.step_order && text_leb a.run_step_id b.run_step_id)

  -- `sorted(...)[0]`
  unfoldable pub first_step : RunStepRecord D → Dict (RunStepRecord D) → RunStepRecord D
  first_step row [] = row
  first_step row ((k, r) ∷ rest) = first_step (if is_first row r then row else r) rest

  -- the step that is made responsible
  unfoldable pub blamed_step : RunStepRecord D → Dict (RunStepRecord D) → RunStepRecord D
  blamed_step row steps = elim (find (has_status "running") steps) [
    | none ↦ first_step row steps
    | some e ↦ e.1
  ]

  unfoldable pub ensure_failed_run_step :
      ℕ → String → D → Option String → Dict (RunStepRecord D) → Dict (RunStepRecord D)
  ensure_failed_run_step now code details uri [] = []
  ensure_failed_run_step now code details uri ((k, row) ∷ rest) =
      if any (has_status "failed") ((k, row) ∷ rest)
      then (k, row) ∷ rest
      else fail_step now (blamed_step row ((k, row) ∷ rest)).step_key code details uri
          ((k, row) ∷ rest)
