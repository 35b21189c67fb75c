-- ===== src/Deletion/Safety.antt =====
-- Execution keeps the separation of duties.
use schema_pilot.Base.{
  ℕ, String, ◌≡◌, refl, true, not, Option, ◌==◌, arith, inl, inr, Option-cases, Bool-cases, put_row,
}
use schema_pilot.Errors.{Result, ok, err}
use schema_pilot.Evidence.{Sealer, Store, StoredEvidenceBundle}
use schema_pilot.Deletion.Workflow.{
  Request, Report, Db, WorkflowResult, request_key, legal_hold_active,
}
use schema_pilot.Deletion.Approval.{get_deletion_request}
use schema_pilot.Deletion.Execution.{
  DeletionEvidence, AttestationPayload, Attestation, block_row, finish_execution, attest_bundle,
  after_workflow, attest_execution, run_workflow, execute_row, execute_deletion_request,
}
use schema_pilot.Deletion.Duties.{
  IsSafe, IsSeparated, held_of_get, All-put_row, if_IsSafe, All-get_row,
}

module _ (sealer : Sealer DeletionEvidence) (sign : AttestationPayload → String) (now : ℕ)
    (deletion_id path : String) where
  block-IsSafe :
      (reason : String) (row : Request) (db : Db)
      → IsSafe db
      → IsSafe (block_row sealer sign now deletion_id path reason row db).1
  unfolding block_row
  block-IsSafe reason row db h = All-put_row db.approvals _ db.requests h refl

  finish-IsSafe :
      (report_path uri : String) (signed : Attestation) (row : Request)
      (stored : Result StoredEvidenceBundle) (evidence : Store) (db : Db)
      → IsSafe db
      → IsSeparated db.approvals row
      → (row.status == "approved") ≡ true
      → IsSafe
          (finish_execution sealer sign now deletion_id path report_path uri signed row stored
            evidence db).1
  unfolding finish_execution
  finish-IsSafe report_path uri signed row (err e) evidence db h hr approved = h
  finish-IsSafe report_path uri signed row (ok b) evidence db h hr approved =
      All-put_row db.approvals _ db.requests h (ground (arith, hr, approved))

  attest_bundle-IsSafe :
      (ws : String) (row : Request) (result : WorkflowResult) (report : Option Report)
      (stored : Result StoredEvidenceBundle) (evidence : Store) (db : Db)
      → IsSafe db
      → IsSeparated db.approvals row
      → (row.status == "approved") ≡ true
      → IsSafe
          (attest_bundle sealer sign now deletion_id path ws row result report stored evidence db).1
  unfolding attest_bundle
  attest_bundle-IsSafe ws row result report (err e) evidence db h hr approved = h
  attest_bundle-IsSafe ws row result report (ok b) evidence db h hr approved =
      finish-IsSafe _ _ _ row _ _ db h hr approved

  after-IsSafe :
      (ws : String) (row : Request) (result : WorkflowResult) (db : Db)
      → IsSafe db
      → IsSeparated db.approvals row
      → (row.status == "approved") ≡ true
      → IsSafe (after_workflow sealer sign now deletion_id path ws row result db).1
  unfolding after_workflow attest_execution
  after-IsSafe ws row result db h hr approved = elim (Bool-cases (result.status == "executed")) [
    | inl e ↦ rw (e, after_workflow) (attest_bundle-IsSafe ws row result _ _ _ db h hr approved)
    | inr e ↦ rw (e, after_workflow) (block-IsSafe result.reason row db h)
  ]

  run-IsSafe :
      (ws : String) (backup : Option String) (row : Request) (db : Db)
      → IsSafe db
      → IsSeparated db.approvals row
      → (row.status == "approved") ≡ true
      → IsSafe (run_workflow sealer sign now deletion_id path ws backup row db).1
  unfolding run_workflow
  run-IsSafe ws backup row db h hr approved =
      after-IsSafe ws row _ (record db { reports = _ }) h hr approved

  execute_row-IsSafe :
      (ws : String) (backup : Option String) (row : Request) (db : Db)
      → IsSafe db
      → IsSeparated db.approvals row
      → IsSafe (execute_row sealer sign now deletion_id path ws backup row db).1
  unfolding execute_row
  execute_row-IsSafe ws backup row db h hr =
      let row' : Request = record row { legal_hold_active = legal_hold_active ws db } in
      let db' : Db = record db { requests = put_row request_key row' db.requests } in
      let h' : IsSafe db' = All-put_row db.approvals row' db.requests h hr in
      if_IsSafe (legal_hold_active ws db) _ _ (block-IsSafe "legal_hold_active" row' db' h')
        (λ free.
          if_IsSafe (not (row.status == "approved")) _ _ h'
            (λ approved. run-IsSafe ws backup row' db' h' hr (ground (arith, approved))))

  pub execute-IsSafe :
      (ws id : String) (backup : Option String) (db : Db)
      → IsSafe db
      → IsSafe (execute_deletion_request sealer sign now deletion_id path ws id backup db).1
  unfolding execute_deletion_request
  execute-IsSafe ws id backup db h = elim (Option-cases (get_deletion_request ws id db)) [
    | inl missing ↦ rw (missing, execute_deletion_request) h
    | inr (row, found) ↦
        rw (found, execute_deletion_request)
          (execute_row-IsSafe ws backup row db h
            (All-get_row db.approvals id row db.requests h (held_of_get ws id row db found)))
  ]
