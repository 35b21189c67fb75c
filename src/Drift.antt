-- ===== src/Drift.antt =====
-- backend/workers/drift.py: the drift between two lists of column names, as sets. The new task id is
-- an argument.
pub mod Columns
use schema_pilot.Base.{
  String, Bool, true, false, not, ◌&&◌, ◌||◌, List, [], ◌∷◌, ◌==◌, if◌then◌else◌, keep, contains,
  sort_texts,
}

pub record DriftEvent : Type 0 where
  pub drift_detected : Bool
  pub severity : String
  pub added_columns : List String
  pub removed_columns : List String

-- `set(columns)`, each element once
unfoldable pub distinct : List String → List String
distinct [] = []
distinct (c ∷ cs) = let rest = distinct cs in if contains c rest then rest else c ∷ rest

-- `sorted(set(xs) - set(ys))`
unfoldable pub sorted_difference : List String → List String → List String
sorted_difference xs ys = sort_texts (keep (λ c. not (contains c ys)) (distinct xs))

unfoldable pub is_nonempty : List String → Bool
is_nonempty [] = false
is_nonempty (c ∷ cs) = true

unfoldable pub detect_schema_drift : List String → List String → DriftEvent
detect_schema_drift previous current =
    let added = sorted_difference current previous in
    let removed = sorted_difference previous current in
    let changed = is_nonempty added || is_nonempty removed in
    record {
      drift_detected = changed;
      severity =
          if changed && is_nonempty removed then "high" else if changed then "medium" else "none";
      added_columns = added;
      removed_columns = removed;
    }

pub record DriftTask : Type 0 where
  pub task_id : String
  pub workspace_id : String
  pub dataset_id : String
  pub priority : String
  pub status : String
  pub blocking : Bool
  pub drift : DriftEvent

unfoldable pub drift_to_review_task : String → String → String → DriftEvent → DriftTask
drift_to_review_task id workspace_id dataset_id drift_event = record {
  task_id = id;
  workspace_id = workspace_id;
  dataset_id = dataset_id;
  priority = "quality_critical";
  status = "open";
  blocking = drift_event.drift_detected;
  drift = drift_event;
}
