-- ===== src/Processing/Settled.antt =====
-- A queued run that is processed is settled.
use schema_pilot.Base.{
  ℕ, String, false, Option, none, some, [], ◌∷◌, ◌++◌, ◌≡◌, refl, ◌∙◌, ◌==◌, get_row, put_row,
  get_row-put_row_self, get_row-put_row_ne, Dict, lookup,
}
use schema_pilot.Scheduling.{RunRecord}
use schema_pilot.Runs.{RunStepRecord, run_key, ensure_run_steps}
use schema_pilot.Processing.{
  Outcome, returned, raised, Execution, RunEvent, ProcessedRun, WorkerDb, step_rows_of,
  append_run_audit_event, write_run, finish_run, process_queued_run,
}

-- how a run ends: its status, the type of the audit event, and its outputs
abbrev pub status_of : {O : Type 0} → Outcome O → String
status_of (returned outputs) = "succeeded"
status_of (raised code uri payload) = "failed"

abbrev pub event_type_of : {O : Type 0} → Outcome O → String
event_type_of (returned outputs) = "run.succeeded"
event_type_of (raised code uri payload) = "run.failed"

abbrev pub outputs_of : {O : Type 0} → Outcome O → O
outputs_of (returned outputs) = outputs
outputs_of (raised code uri payload) = payload

abbrev pub event_of : {O : Type 0} → String → String → Option O → RunEvent O
event_of event_type run_id payload = record {
  event_type = event_type;
  run_id = run_id;
  payload = payload;
}

-- the run as the execution leaves it
abbrev pub settled_run : {O D : Type 0} → Execution O D → RunRecord → RunRecord
settled_run e run = record run { status = status_of e.outcome; schedule_id = e.schedule_id }

module _ {O D : Type 0} (execute : RunRecord → Dict (RunStepRecord D) → Execution O D)
    (new_id : ℕ → String) (no_details : D) (details_of : O → D) (now : ℕ) where
  -- what a settled run leaves: the answer, its row, the others' rows, and one event more
  abbrev IsSettled :
      Execution O D → RunRecord → String → WorkerDb O D → ProcessedRun O × WorkerDb O D → Type 0
  IsSettled e run other db r =
      (r.0.status ≡ status_of e.outcome)
      × (r.0.output_refs ≡ some (outputs_of e.outcome))
      × (get_row run_key run.run_id r.1.runs ≡ some (settled_run e run))
      × (get_row run_key other r.1.runs ≡ get_row run_key other db.runs)
      × (r.1.events
          ≡ db.events
            ++ event_of (event_type_of e.outcome) run.run_id (some (outputs_of e.outcome)) ∷ [])

  written :
      (run old : RunRecord) (other : String) (db : WorkerDb O D)
      → get_row run_key run.run_id db.runs ≡ some old
      → (run.run_id == other) ≡ false
      → (get_row run_key run.run_id (put_row run_key run db.runs) ≡ some run)
        × (get_row run_key other (put_row run_key run db.runs) ≡ get_row run_key other db.runs)
  written run old other db found differ = (
    get_row-put_row_self run_key run old db.runs found,
    get_row-put_row_ne run_key run other db.runs differ,
  )

  finish_run-IsSettled :
      (run old : RunRecord) (outcome : Outcome O) (schedule_id : String)
      (steps : Dict (RunStepRecord D)) (other : String) (db : WorkerDb O D)
      → get_row run_key run.run_id db.runs ≡ some old
      → (run.run_id == other) ≡ false
      → IsSettled
          (record { outcome = outcome; schedule_id = schedule_id; steps = steps })
          run
          other
          db
          (finish_run execute new_id no_details details_of now run outcome schedule_id steps db)
  unfolding finish_run append_run_audit_event write_run
  finish_run-IsSettled run old (returned outputs) schedule_id steps other db found differ =
      let run' : RunRecord = record run { status = "succeeded"; schedule_id = schedule_id } in
      let w = written run' old other db found differ in (refl, refl, w.0, w.1, refl)
  finish_run-IsSettled run old (raised code uri payload) schedule_id steps other db found differ =
      let run' : RunRecord = record run { status = "failed"; schedule_id = schedule_id } in
      let w = written run' old other db found differ in (refl, refl, w.0, w.1, refl)

  -- A run of the table that is processed is settled as its execution ends: "succeeded" where that
  -- returns and "failed" where it raises, in the answer and in the table, where nothing else of the
  -- row changes but the inputs that the execution overwrites; the answer and the last event of the
  -- audit, behind "run.started", have its outputs; and the rows of the other runs are as they were.
  pub process_queued_run-settles :
      (run : RunRecord) (other : String) (db : WorkerDb O D)
      → get_row run_key run.run_id db.runs ≡ some run
      → (run.run_id == other) ≡ false
      → let r = process_queued_run execute new_id no_details details_of now run db in
        let running : RunRecord = record run { status = "running" } in
        let e = execute running (
          ensure_run_steps new_id no_details running (step_rows_of (lookup run.run_id db.steps))) in
        (r.0.status ≡ status_of e.outcome)
        × (r.0.output_refs ≡ some (outputs_of e.outcome))
        × (get_row run_key run.run_id r.1.runs ≡ some (settled_run e run))
        × (get_row run_key other r.1.runs ≡ get_row run_key other db.runs)
        × (r.1.events
            ≡ (db.events ++ event_of "run.started" run.run_id none ∷ [])
              ++ event_of (event_type_of e.outcome) run.run_id (some (outputs_of e.outcome)) ∷ [])
  unfolding process_queued_run append_run_audit_event
  process_queued_run-settles run other db found differ =
      let running : RunRecord = record run { status = "running" } in
      let rows =
        ensure_run_steps new_id no_details running (step_rows_of (lookup run.run_id db.steps)) in
      let e = execute running rows in
      let started : WorkerDb O D =
        append_run_audit_event execute new_id no_details details_of now "run.started" run.run_id
          none (record db { runs = put_row run_key running db.runs }) in
      let w = written running run other db found differ in
      let (status, refs, own, others, events) =
        finish_run-IsSettled running running e.outcome e.schedule_id e.steps other started w.0
          differ in
      (status, refs, own, others ∙ w.1, events)
