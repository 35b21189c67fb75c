-- ===== src/Examples/Tables.antt =====
-- Runs of the worker, merges of records, and rows of the catalog.
use Prim.Native.Char.{Char}
use schema_pilot.Base.{
  ℕ, ◌≤◌, String, Bool, true, none, some, [], ◌∷◌, ◌++◌, ◌≡◌, ◌⊎◌, if◌then◌else◌, ltb, min, refl,
  length, get_row, Dict, ◌==◌,
}
use schema_pilot.Base.Int.{pos}
use schema_pilot.Base.Json.{Json, text, field, end}
use schema_pilot.Errors.{ok}
use schema_pilot.Scheduling.{RunRecord}
use schema_pilot.Runs.{RunStepRecord, run_key, next_queued_run}
use schema_pilot.Processing.{Execution, raised, WorkerDb, process_queued_run, process_runs}
use schema_pilot.Processing.Settled.{event_of, process_queued_run-settles}
use schema_pilot.Processing.Tick.{process_runs-drains}
use schema_pilot.Contracts.Unique.{is_distinct}
use schema_pilot.Entities.{resolve_entities_v2}
use schema_pilot.Entities.Disjoint.{all_members, resolve_entities_v2-disjoint}
use schema_pilot.Catalog.{
  Workspace, CatalogSource, Catalog, source_key, create_run, get_run, new_run, list_run_steps,
  update_source, list_sources,
}
use schema_pilot.Catalog.Isolation.{SameSource, update_source-isolated, get_run-create_run}

abbrev waiting : String → RunRecord
waiting run_id = record {
  run_id = run_id;
  workspace_id = "ws";
  run_type = "discover";
  status = "queued";
  schedule_id = "s1";
}

-- an execution that fails once it has overwritten the inputs of the run
abbrev breaks : RunRecord → Dict (RunStepRecord String) → Execution String String
breaks run rows = record {
  outcome = raised "worker_failed" none "disk full";
  schedule_id = "";
  steps = rows;
}

abbrev step_id : ℕ → String
step_id n = "step"

abbrev details : String → String
details outputs = outputs

abbrev worker : WorkerDb String String
worker = record {
  policies = [];
  runs = waiting "r1" ∷ waiting "r2" ∷ [];
  steps = [];
  outputs = [];
  events = [];
}

process_queued_run-settles_example :
    let r = process_queued_run breaks step_id "" details 100 (waiting "r1") worker in
    (r.0.status ≡ "failed")
    × (r.0.output_refs ≡ some "disk full")
    × (get_row run_key "r1" r.1.runs
        ≡ some (record (waiting "r1") { status = "failed"; schedule_id = "" }))
    × (get_row run_key "r2" r.1.runs ≡ get_row run_key "r2" worker.runs)
    × (r.1.events
        ≡ (worker.events ++ event_of "run.started" "r1" none ∷ [])
          ++ event_of "run.failed" "r1" (some "disk full") ∷ [])
process_queued_run-settles_example =
    process_queued_run-settles breaks step_id "" details 100 (waiting "r1") "r2" worker refl refl

process_runs-drains_example :
    let r = process_runs breaks step_id "" details 100 3 (pos 1) worker in
    (length r.0 ≤ 3) × ((length r.0 ≡ 3) ⊎ (next_queued_run (pos 1) r.1.runs ≡ none))
process_runs-drains_example = process_runs-drains breaks step_id "" details 100 3 (pos 1) worker

abbrev every : Char → Bool
every c = true

abbrev same_text : String → String
same_text t = t

abbrev id_of : String × String → String
id_of r = r.0

abbrev name_of : String × String → String
name_of r = r.1

-- a score of 1 where the texts are equal
abbrev equal_score : String × String → String × String → ℕ
equal_score a b = if a.1 == b.1 then 1 else 0

resolve_entities_v2-disjoint_example :
    is_distinct (
      all_members (
        resolve_entities_v2 every same_text id_of name_of equal_score
          (ltb 0)
          min
          1
          (("1", "ann") ∷ ("2", "ann") ∷ ("3", "bob") ∷ [])))
    ≡ true
resolve_entities_v2-disjoint_example =
    resolve_entities_v2-disjoint every same_text id_of name_of equal_score (ltb 0) min 1
      (("1", "ann") ∷ ("2", "ann") ∷ ("3", "bob") ∷ [])

abbrev home : Workspace
home = record {
  workspace_id = "ws";
  name = "home";
  profile = "local";
  security_baseline = "strict";
}

abbrev files : CatalogSource
files = record {
  source_id = "s1";
  workspace_id = "ws";
  source_type = "filesystem";
  scope_json = end;
  credentials_ref = none;
  status = "active";
  display_name = "files";
}

abbrev catalog : Catalog
catalog = record {
  workspaces = home ∷ [];
  sources = files ∷ record files { source_id = "s2"; workspace_id = "other" } ∷ [];
  datasets = [];
  runs = [];
  run_steps = [];
  audit_events = [];
}

abbrev empty_text : Json → String
empty_text value = ""

get_run-create_run_example :
    let after = (create_run "r1" "ws" "discover" catalog).1 in
    let run = new_run "r1" "ws" "discover" in
    ((create_run "r1" "ws" "discover" catalog).0 ≡ ok run)
    × (get_run "ws" "r1" after ≡ some (run, list_run_steps "ws" "r1" catalog))
    × (get_run "other" "r1" after ≡ none)
get_run-create_run_example =
    get_run-create_run "r1" "ws" "other" "discover" home catalog refl refl refl

update_source-isolated_example :
    let r = update_source empty_text "ws" "s1" (field "status" (text "paused") end) catalog in
    (list_sources "other" r.1 ≡ list_sources "other" catalog)
    × ((r.0 ≡ none)
        ⊎ ((old : CatalogSource) × (new : CatalogSource) × (get_row source_key "s1" catalog.sources
              ≡ some old)
            × (r.0 ≡ some new)
            × (old.workspace_id ≡ "ws")
            × SameSource new old))
update_source-isolated_example =
    update_source-isolated empty_text (field "status" (text "paused") end) "ws" "other" "s1" catalog
      refl
