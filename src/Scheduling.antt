-- ===== src/Scheduling.antt =====
-- backend/shared_domain/scheduling.py: schedules of runs, kept as governance policies, and the queued
-- runs that due schedules create. `digit` is Python's value of a decimal digit (`\d`, `int`); new ids
-- and the time, in seconds, are arguments. A row's JSON reads back what was printed.
mod Expression
pub mod Interval
pub mod Due
use Prim.Native.Char.{Char}
use schema_pilot.Base.{
  ℕ, suc, ◌+◌, ◌*◌, ◌≤◌, String, Bool, true, false, not, ◌&&◌, ◌||◌, Option, none, some, List, [],
  ◌∷◌, ◌++◌, ◌==◌, if◌then◌else◌, leb, eqb, max, keep, map, order_rows, strip, lower,
}
use schema_pilot.Errors.{Error, value_error, Result, ok, err, Exec}
use schema_pilot.Policies.{PolicyRow, policy_key, is_active}
unfoldable pub use Expression.*

pub record Schedule : Type 0 where
  pub schedule_id : String
  pub workspace_id : String
  pub run_type : String
  pub schedule_expression : String
  pub interval_seconds : ℕ
  pub enabled : Bool
  pub next_run_epoch : Option ℕ
  pub created_by : String

-- a queued run, with the schedule that its inputs name
pub record RunRecord : Type 0 where
  pub run_id : String
  pub workspace_id : String
  pub run_type : String
  pub status : String
  pub schedule_id : String

pub record Db : Type 0 where
  pub policies : List (PolicyRow Schedule)
  pub runs : List RunRecord

abbrev pub run_schedule_policy_type : String
run_schedule_policy_type = "run_schedule"

unfoldable pub create_run_schedule :
    (Char → Option ℕ) → String → ℕ → String → String → String → Bool → String → Exec Db Schedule
create_run_schedule digit id now workspace_id run_type expression enabled actor_id db =
    elim (validate_schedule_expression digit expression) [
      | err e ↦ (err e, db)
      | ok interval ↦
          let payload : Schedule = record {
            schedule_id = id;
            workspace_id = workspace_id;
            run_type = run_type;
            schedule_expression = expression;
            interval_seconds = interval;
            enabled = enabled;
            next_run_epoch = if enabled then some (now + interval) else none;
            created_by = actor_id;
          } in
          (
            ok payload,
            record db {
              policies =
                  db.policies
                  ++ record {
                    policy_id = id;
                    workspace_id = workspace_id;
                    policy_type = run_schedule_policy_type;
                    definition_ref = payload;
                    status = "active";
                  }
                    ∷ [];
            },
          )
    ]

unfoldable pub list_run_schedules : String → Db → List Schedule
list_run_schedules workspace_id db =
    map (λ r. r.definition_ref)
      (order_rows policy_key (keep (is_active workspace_id run_schedule_policy_type) db.policies))

-- the query and the three `continue`s of the loop
unfoldable pub is_due : ℕ → PolicyRow Schedule → Bool
is_due now r =
    r.policy_type == run_schedule_policy_type
    && r.status == "active"
    && r.definition_ref.enabled
    && elim r.definition_ref.next_run_epoch [ none ↦ false | some next ↦ leb next now ]

unfoldable pub queued_run : String → PolicyRow Schedule → RunRecord
queued_run id r = record {
  run_id = id;
  workspace_id = r.definition_ref.workspace_id;
  run_type = r.definition_ref.run_type;
  status = "queued";
  schedule_id = r.definition_ref.schedule_id;
}

unfoldable pub advanced : ℕ → PolicyRow Schedule → PolicyRow Schedule
advanced now r = record r {
  definition_ref = record r.definition_ref {
    next_run_epoch = some (now + max r.definition_ref.interval_seconds 60);
  };
}

-- the loop: the runs it creates, and the rows after it; `new_id n` is the n-th new id
unfoldable pub enqueue_rows :
    (ℕ → String) → ℕ → ℕ → List (PolicyRow Schedule) → List RunRecord × List (PolicyRow Schedule)
enqueue_rows new_id now n [] = ([], [])
enqueue_rows new_id now n (r ∷ rows) =
    let due = is_due now r in
    let (created, others) = enqueue_rows new_id now (if due then suc n else n) rows in
    if due
    then (queued_run (new_id n) r ∷ created, advanced now r ∷ others)
    else (created, r ∷ others)

unfoldable pub enqueue_due_scheduled_runs : (ℕ → String) → ℕ → Db → List RunRecord × Db
enqueue_due_scheduled_runs new_id now db =
    let (created, rows) = enqueue_rows new_id now 0 db.policies in
    (created, record { policies = rows; runs = db.runs ++ created })
