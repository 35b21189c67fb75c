-- ===== src/Processing.antt =====
-- backend/workers/run_processor.py and backend/workers/service.py: taking a queued run through its
-- states, and the worker's tick. `execute` is what `_execute_run` does with a run and its step rows
-- within one tick: the outputs of type `O`, or the failure with its error code and payload, the
-- step rows it leaves, and the schedule that the inputs of the run name afterwards, since two run
-- types overwrite the inputs. The commit of a tick is not modelled: a tick is the list of the states it writes.
pub mod Settled
pub mod Tick
use schema_pilot.Base.{
  ℕ, zero, suc, String, Bool, Option, none, some, List, [], ◌∷◌, ◌++◌, ◌==◌, if◌then◌else◌, get_row,
  put_row, Dict, lookup, insert,
}
use schema_pilot.Base.Int.{ℤ, pos_part}
use schema_pilot.Policies.{PolicyRow}
use schema_pilot.Scheduling.{RunRecord, Schedule, enqueue_due_scheduled_runs}
use schema_pilot.Runs.{
  RunStepRecord, run_key, next_queued_run, ensure_run_steps, ensure_failed_run_step,
}

-- how `_execute_run` ends
pub data Outcome (O : Type 0) : Type 0 where
  returned : O → Outcome O
  raised : String → Option String → O → Outcome O

-- What `_execute_run` leaves: how it ends, the schedule that the run's inputs still name, and the
-- step rows.
pub record Execution (O D : Type 0) : Type 0 where
  pub outcome : Outcome O
  pub schedule_id : String
  pub steps : Dict (RunStepRecord D)

-- An audit event of a run: its type, the run and the payload.
pub record RunEvent (O : Type 0) : Type 0 where
  pub event_type : String
  pub run_id : String
  pub payload : Option O

pub record ProcessedRun (O : Type 0) : Type 0 where
  pub run_id : String
  pub workspace_id : String
  pub run_type : String
  pub status : String
  pub output_refs : Option O

-- The tables that the worker reads and writes; the step rows and the outputs are kept by run.
pub record WorkerDb (O D : Type 0) : Type 0 where
  pub policies : List (PolicyRow Schedule)
  pub runs : List RunRecord
  pub steps : Dict (Dict (RunStepRecord D))
  pub outputs : Dict O
  pub events : List (RunEvent O)

unfoldable pub step_rows_of :
    {D : Type 0} → Option (Dict (RunStepRecord D)) → List (RunStepRecord D)
step_rows_of none = []
step_rows_of (some []) = []
step_rows_of (some ((key, row) ∷ rest)) = row ∷ step_rows_of (some rest)

module _ {O D : Type 0} (execute : RunRecord → Dict (RunStepRecord D) → Execution O D)
    (new_id : ℕ → String) (no_details : D) (details_of : O → D) (now : ℕ) where
  -- `_append_run_audit_event`
  unfoldable pub append_run_audit_event : String → String → Option O → WorkerDb O D → WorkerDb O D
  append_run_audit_event event_type run_id payload db =
      let event : RunEvent O = record {
        event_type = event_type;
        run_id = run_id;
        payload = payload;
      } in
      record db { events = db.events ++ event ∷ [] }

  -- the run with its status, its outputs and its step rows
  unfoldable pub write_run : RunRecord → O → Dict (RunStepRecord D) → WorkerDb O D → WorkerDb O D
  write_run run outputs steps db = record db {
    runs = put_row run_key run db.runs;
    steps = insert run.run_id steps db.steps;
    outputs = insert run.run_id outputs db.outputs;
  }

  abbrev pub processed : RunRecord → Option O → ProcessedRun O
  processed run output_refs = record {
    run_id = run.run_id;
    workspace_id = run.workspace_id;
    run_type = run.run_type;
    status = run.status;
    output_refs = output_refs;
  }

  -- after `_execute_run`: the status that the outcome gives, and the inputs as the execution left them
  unfoldable pub finish_run :
      RunRecord
      → Outcome O
      → String
      → Dict (RunStepRecord D)
      → WorkerDb O D
      → ProcessedRun O × WorkerDb O D
  unfolding write_run append_run_audit_event
  finish_run run (returned outputs) schedule_id steps db =
      let run' : RunRecord = record run { status = "succeeded"; schedule_id = schedule_id } in
      (
        processed run' (some outputs),
        append_run_audit_event "run.succeeded" run.run_id (some outputs)
            (write_run run' outputs steps db),
      )
  finish_run run (raised code uri payload) schedule_id steps db =
      let run' : RunRecord = record run { status = "failed"; schedule_id = schedule_id } in
      let failed_steps = ensure_failed_run_step now code (details_of payload) uri steps in
      (
        processed run' (some payload),
        append_run_audit_event "run.failed" run.run_id (some payload)
            (write_run run' payload failed_steps db),
      )

  -- `_process_queued_run`
  unfoldable pub process_queued_run : RunRecord → WorkerDb O D → ProcessedRun O × WorkerDb O D
  process_queued_run run db =
      let running : RunRecord = record run { status = "running" } in
      let rows =
        ensure_run_steps new_id no_details running (step_rows_of (lookup run.run_id db.steps)) in
      let started =
        append_run_audit_event "run.started" run.run_id none
          (record db { runs = put_row run_key running db.runs }) in
      let e = execute running rows in finish_run running e.outcome e.schedule_id e.steps started

  -- `process_run_by_id`: only a queued run is processed
  unfoldable pub process_run_by_id : String → WorkerDb O D → Option (ProcessedRun O) × WorkerDb O D
  process_run_by_id run_id db = elim (get_row run_key run_id db.runs) [
    | none ↦ (none, db)
    | some run ↦
        let (p, db') = process_queued_run run db in
        if run.status == "queued"
        then (some p, db')
        else (some (processed run (lookup run.run_id db.outputs)), db)
  ]

  -- `process_next_queued_run`
  unfoldable pub process_next_queued_run : ℤ → WorkerDb O D → Option (ProcessedRun O) × WorkerDb O D
  process_next_queued_run max_active_per_workspace db =
      elim (next_queued_run max_active_per_workspace db.runs) [
        | none ↦ (none, db)
        | some run ↦ process_run_by_id run.run_id db
      ]

  -- the loop of a tick, with the number of runs that may still be processed; the runs it has
  -- processed come first
  unfoldable pub process_runs : ℕ → ℤ → WorkerDb O D → List (ProcessedRun O) × WorkerDb O D
  process_runs zero max_active_per_workspace db = ([], db)
  process_runs (suc n) max_active_per_workspace db =
      let (outcome, db') = process_next_queued_run max_active_per_workspace db in
      let (more, last) = process_runs n max_active_per_workspace db' in
      elim outcome [ none ↦ ([], db') | some p ↦ (p ∷ more, last) ]

  -- `process_queued_runs_once`: the due schedules first
  unfoldable pub process_queued_runs_once :
      (ℕ → String) → ℤ → ℤ → WorkerDb O D → List (ProcessedRun O) × WorkerDb O D
  process_queued_runs_once new_run_id max_runs max_active_per_workspace db =
      let (created, scheduled) =
        enqueue_due_scheduled_runs new_run_id now
          (record { policies = db.policies; runs = db.runs }) in
      process_runs (pos_part max_runs) max_active_per_workspace
        (record db { policies = scheduled.policies; runs = scheduled.runs })
