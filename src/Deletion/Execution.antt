-- ===== src/Deletion/Execution.antt =====
-- Executing an approved request.
use schema_pilot.Base.{
  ℕ, String, true, false, not, Option, none, some, List, [], ◌==◌, if◌then◌else◌, put_row,
}
use schema_pilot.Errors.{Result, ok, err, policy_denied, Exec}
use schema_pilot.Evidence.{Sealer, Store, StoredEvidenceBundle, store_evidence_bundle}
use schema_pilot.Deletion.Workflow.{
  Request, Report, Db, WorkflowResult, request_key, legal_hold_active, execute_deletion_workflow,
  read_report,
}
use schema_pilot.Deletion.Approval.{get_deletion_request}

-- The payload that the attestation signs; `snapshots` and `indexes` are its report summary.
pub record AttestationPayload : Type 0 where
  pub workspace_id : String
  pub deletion_request_id : String
  pub status : String
  pub reason : String
  pub execution_epoch : ℕ
  pub snapshots_updated : List String
  pub indexes_updated : List String

-- The payload with its HMAC-SHA256 signature. (The algorithm and the key's name are fixed texts.)
pub record Attestation : Type 0 where
  pub payload : AttestationPayload
  pub signature : String

-- The payloads of the two evidence bundles.
pub data DeletionEvidence : Type 0 where
  execution : String → WorkflowResult → Option Report → DeletionEvidence
  attestation : Attestation → DeletionEvidence

-- What the call returns.
pub data Executed : Type 0 where
  blocked : String → Executed
  executed : String → String → Attestation → Executed

abbrev snapshots_of : Option Report → List String
snapshots_of none = []
snapshots_of (some r) = r.snapshots_updated

abbrev indexes_of : Option Report → List String
indexes_of none = []
indexes_of (some r) = r.indexes_updated

-- `_build_deletion_attestation`; `sign` is the HMAC of the canonical JSON under the configured key
unfoldable pub build_deletion_attestation :
    (AttestationPayload → String)
    → ℕ
    → String
    → String
    → Option Report
    → WorkflowResult
    → Attestation
build_deletion_attestation sign now workspace_id deletion_request_id report result =
    let payload : AttestationPayload = record {
      workspace_id = workspace_id;
      deletion_request_id = deletion_request_id;
      status = result.status;
      reason = result.reason;
      execution_epoch = now;
      snapshots_updated = snapshots_of report;
      indexes_updated = indexes_of report;
    } in
    record { payload = payload; signature = sign payload }

-- `workflow_result.get("evidence_report_path", "")` as a text, where it is not `None`
abbrev path_of : WorkflowResult → String
path_of r = elim r.evidence_report_path [ none ↦ "" | some p ↦ p ]

module _ (sealer : Sealer DeletionEvidence) (sign : AttestationPayload → String) (now : ℕ)
    (deletion_id report_path : String) where
  -- the row that the execution leaves, with the hold that was looked up
  unfoldable pub block_row : String → Request → Exec Db Executed
  block_row reason row db =
      let row' : Request = record row { status = "blocked"; approval_reason = some reason } in
      (ok (blocked reason), record db { requests = put_row request_key row' db.requests })

  -- the second bundle is stored: the row is executed
  unfoldable pub finish_execution :
      String
      → String
      → Attestation
      → Request
      → Result StoredEvidenceBundle
      → Store
      → Exec Db Executed
  finish_execution path uri signed row (err e) evidence db =
      (err e, record db { evidence = evidence })
  finish_execution path uri signed row (ok _) evidence db =
      let row' : Request = record row { status = "executed"; evidence_bundle_uri = some uri } in
      (
        ok (executed path uri signed),
        record db { evidence = evidence; requests = put_row request_key row' db.requests },
      )

  -- the first bundle is stored: the attestation, and the bundle of it
  unfoldable pub attest_bundle :
      String
      → Request
      → WorkflowResult
      → Option Report
      → Result StoredEvidenceBundle
      → Store
      → Exec Db Executed
  attest_bundle workspace_id row result report (err e) evidence db =
      (err e, record db { evidence = evidence })
  attest_bundle workspace_id row result report (ok bundle) evidence db =
      let signed =
        build_deletion_attestation sign now workspace_id row.deletion_request_id report result in
      let (stored, evidence') =
        store_evidence_bundle sealer workspace_id (attestation signed) "deletion_attestation" none
          evidence in
      finish_execution (path_of result) bundle.evidence_bundle_uri signed row stored evidence' db

  -- behind the workflow: two evidence bundles, then the row
  unfoldable pub attest_execution : String → Request → WorkflowResult → Exec Db Executed
  attest_execution workspace_id row result db =
      let report = read_report (path_of result) db.reports in
      let (stored, evidence) =
        store_evidence_bundle sealer workspace_id (execution row.deletion_request_id result report)
          "deletion_execution" none db.evidence in
      attest_bundle workspace_id row result report stored evidence db

  -- what the workflow answers
  unfoldable pub after_workflow : String → Request → WorkflowResult → Exec Db Executed
  after_workflow workspace_id row result db =
      if not (result.status == "executed")
      then block_row result.reason row db
      else attest_execution workspace_id row result db

  -- the approved request goes through the workflow
  unfoldable pub run_workflow : String → Option String → Request → Exec Db Executed
  run_workflow workspace_id backup_reference row db =
      let (result, reports) =
        execute_deletion_workflow deletion_id report_path
          (record {
            workspace_id = workspace_id;
            subject_selector = row.subject_selector;
            legal_hold_active = false;
            approved = true;
            affected_snapshots = row.affected_snapshots;
            affected_indexes = row.affected_indexes;
            backup_reference = backup_reference;
          })
          db.reports in
      after_workflow workspace_id row result (record db { reports = reports })

  -- `row.legal_hold_active = …` is written before the status is looked at
  unfoldable pub execute_row : String → Option String → Request → Exec Db Executed
  execute_row workspace_id backup_reference found db =
      let hold = legal_hold_active workspace_id db in
      let row : Request = record found { legal_hold_active = hold } in
      let db' : Db = record db { requests = put_row request_key row db.requests } in
      if hold
      then block_row "legal_hold_active" row db'
      else if not (row.status == "approved")
      then (err (policy_denied "deletion_not_approved"), db')
      else run_workflow workspace_id backup_reference row db'

  unfoldable pub execute_deletion_request :
      String → String → Option String → Db → Option (Result Executed) × Db
  execute_deletion_request workspace_id deletion_request_id backup_reference db =
      elim (get_deletion_request workspace_id deletion_request_id db) [
        | none ↦ (none, db)
        | some row ↦
            let (r, db') = execute_row workspace_id backup_reference row db in (some r, db')
      ]
