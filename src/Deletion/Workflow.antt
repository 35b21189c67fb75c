-- ===== src/Deletion/Workflow.antt =====
-- The tables, and the workflow that writes the evidence report. `subject_selector` is the JSON text
-- of the selector, which the code hands on and never reads.
use schema_pilot.Base.{
  ℕ, ◌+◌, String, Bool, false, not, Option, none, some, List, [], ◌∷◌, ◌==◌, if◌then◌else◌, length,
  sort_texts,
}
use schema_pilot.Evidence.{Store}
use schema_pilot.Retention.{RetentionPolicy, get_retention_policy_row}

pub record Request : Type 0 where
  pub deletion_request_id : String
  pub workspace_id : String
  pub requester_actor_id : String
  pub status : String
  pub subject_selector : String
  pub affected_snapshots : List String
  pub affected_indexes : List String
  pub legal_hold_active : Bool
  pub approval_reason : Option String
  pub evidence_bundle_uri : Option String

pub record Approval : Type 0 where
  pub deletion_approval_id : String
  pub deletion_request_id : String
  pub workspace_id : String
  pub approver_actor_id : String
  pub decision : String
  pub decision_reason : String

-- The evidence report of an execution; the fields that hold fixed texts or
-- repeat others are left out.
pub record Report : Type 0 where
  pub deletion_id : String
  pub workspace_id : String
  pub subject_selector : String
  pub snapshots_updated : List String
  pub indexes_updated : List String
  pub records_deleted_estimate : ℕ
  pub backup_reference : Option String

-- `reports` are the files below `deletions/<workspace_id>`, by their paths.
pub record Db : Type 0 where
  pub retention : List RetentionPolicy
  pub requests : List Request
  pub approvals : List Approval
  pub evidence : Store
  pub reports : List (String × Report)

abbrev pub request_key : Request → String
request_key r = r.deletion_request_id

-- `_legal_hold_active`
unfoldable pub legal_hold_active : String → Db → Bool
legal_hold_active workspace_id db = elim (get_retention_policy_row workspace_id db.retention) [
  | none ↦ false
  | some row ↦ row.legal_hold_active
]

-- The frozen dataclass `DeletionRequest`: the input of the workflow.
pub record WorkflowInput : Type 0 where
  pub workspace_id : String
  pub subject_selector : String
  pub legal_hold_active : Bool
  pub approved : Bool
  pub affected_snapshots : List String
  pub affected_indexes : List String
  pub backup_reference : Option String

pub record WorkflowResult : Type 0 where
  pub status : String
  pub reason : String
  pub evidence_report_path : Option String

abbrev blocked : String → WorkflowResult
blocked reason = record { status = "blocked"; reason = reason; evidence_report_path = none }

-- `deletion_id` is the new identifier, and `report_path` the path made of the output root, the
-- workspace and that identifier.
unfoldable pub execute_deletion_workflow :
    String
    → String
    → WorkflowInput
    → List (String × Report)
    → WorkflowResult × List (String × Report)
execute_deletion_workflow deletion_id report_path request files =
    if request.legal_hold_active
    then (blocked "legal_hold_active", files)
    else if not request.approved
    then (blocked "missing_approval", files)
    else let report : Report = record {
      deletion_id = deletion_id;
      workspace_id = request.workspace_id;
      subject_selector = request.subject_selector;
      snapshots_updated = sort_texts request.affected_snapshots;
      indexes_updated = sort_texts request.affected_indexes;
      records_deleted_estimate =
          length request.affected_snapshots + length request.affected_indexes;
      backup_reference = request.backup_reference;
    } in
      (
        record {
          status = "executed";
          reason = "approved";
          evidence_report_path = some report_path;
        },
        (report_path, report) ∷ files,
      )

-- The file at a path: the last one written there.
abbrev pub read_report : String → List (String × Report) → Option Report
read_report path [] = none
read_report path ((p, r) ∷ files) = if p == path then some r else read_report path files
