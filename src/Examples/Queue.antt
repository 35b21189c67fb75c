-- ===== src/Examples/Queue.antt =====
-- The theorems on reviews, the gate, schedules and drift at concrete inputs.
use Prim.Native.Char.{Char, code}
use schema_pilot.Base.{
  ℕ, ◌-◌, ◌≡◌, ◌⊎◌, true, false, ◌&&◌, Option, none, some, [], ◌∷◌, leb, if◌then◌else◌, keep, map,
  length, ◌==◌, ◌++◌, All, contains,
}
use schema_pilot.Review.{Task, Review, unresolved_blocking_task_count, get_review_queue_summary}
use schema_pilot.Review.Queue.{total_of, count_at, summary_counts}
use schema_pilot.Scheduling.{RunRecord, Db, is_due, enqueue_due_scheduled_runs, create_run_schedule}
use schema_pilot.Scheduling.Due.{moved, enqueue_once}
use schema_pilot.Drift.{detect_schema_drift, drift_to_review_task}
use schema_pilot.Drift.Columns.{drift_exact}

abbrev task : Task
task = record {
  task_id = "t1";
  workspace_id = "ws";
  priority = "normal";
  subject_ref = "q1";
  status = "open";
  blocking = true;
}

abbrev queue : Review
queue = record { proposals = []; tasks = task ∷ []; approvals = [] }

summary_counts_example :
    let c = get_review_queue_summary "ws" queue in
    let tasks = keep (λ t. t.workspace_id == "ws") queue.tasks in
    (c.total_tasks ≡ length tasks)
    × (c.blocking_open_tasks ≡ unresolved_blocking_task_count "ws" queue)
    × (count_at "open" c.by_status ≡ length (keep (λ t. t.status == "open") tasks))
    × (count_at "normal" c.by_priority ≡ length (keep (λ t. t.priority == "normal") tasks))
    × (total_of c.by_status ≡ c.total_tasks)
    × (total_of c.by_priority ≡ c.total_tasks)
summary_counts_example = summary_counts "ws" "open" "normal" queue

-- the decimal digits of ASCII
abbrev digit : Char → Option ℕ
digit c = if leb 48 (code c) && leb (code c) 57 then some (code c - 48) else none

abbrev scheduled : Db
scheduled =
    (create_run_schedule digit "s1" 1000 "ws" "discover" "@hourly" true "alice"
      (record { policies = []; runs = [] })).1

enqueue_once_example :
    let (created, after) = enqueue_due_scheduled_runs (λ n. "run") 4600 scheduled in
    (map (λ run. run.schedule_id) created
      ≡ map (λ r. r.definition_ref.schedule_id) (keep (is_due 4600) scheduled.policies))
    × All (λ (run : RunRecord). run.status ≡ "queued") created
    × (after.runs ≡ scheduled.runs ++ created)
    × (after.policies ≡ map (moved 4600) scheduled.policies)
    × ((enqueue_due_scheduled_runs (λ n. "again") 4600 after).0 ≡ [])
enqueue_once_example = enqueue_once (λ n. "run") (λ n. "again") 4600 scheduled

drift_exact_example :
    let event = detect_schema_drift ("id" ∷ "name" ∷ []) ("id" ∷ "email" ∷ []) in
    (contains "email" event.added_columns ≡ true)
    × (contains "email" event.removed_columns ≡ false)
    × ((false ≡ true) ⊎ ((drift_to_review_task "t1" "ws" "ds" event).blocking ≡ true))
drift_exact_example = drift_exact "t1" "ws" "ds" ("id" ∷ "name" ∷ []) ("id" ∷ "email" ∷ []) "email"
