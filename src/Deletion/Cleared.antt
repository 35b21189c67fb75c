-- ===== src/Deletion/Cleared.antt =====
-- What stands behind an execution.
use mathlib.Core.Path.{subst}
use schema_pilot.Base.{
  ℕ, String, ◌≡◌, ◌≢◌, refl, sym, ap, ◌∙◌, true, false, Option, some, List, [], ◌==◌, arith, eq_iff,
  find, get_row, put_row, get_row-put_row_self, key-get_row, Option-cases, Bool-cases, inl, inr,
}
use schema_pilot.Errors.{Result, ok, err}
use schema_pilot.Evidence.{Sealer, Store, StoredEvidenceBundle}
use schema_pilot.Deletion.Workflow.{
  Request, Approval, Db, WorkflowResult, Report, request_key, legal_hold_active,
}
use schema_pilot.Deletion.Approval.{get_deletion_request}
use schema_pilot.Deletion.Execution.{
  DeletionEvidence, Attestation, AttestationPayload, Executed, executed, block_row,
  finish_execution, attest_bundle, attest_execution, after_workflow, run_workflow, execute_row,
  execute_deletion_request,
}
use schema_pilot.Deletion.Duties.{is_by_other, is_cleared, held_of_get}
use schema_pilot.Deletion.Traces.{Reach, cleared_by_other}

-- the row of an executed request
abbrev pub executed_row : String → Request → Request
executed_row uri row = record row { status = "executed"; evidence_bundle_uri = some uri }

approved_cleared : (row : Request) → row.status ≡ "approved" → is_cleared row ≡ true
approved_cleared row approved = ground (arith, eq_iff row.status "approved", approved)

-- the row that both writes of an execution leave
executed_held :
    (rows : List Request) (uri id : String) (row : Request)
    → get_row request_key id rows ≡ some row
    → let row' : Request = record row { legal_hold_active = false } in
      get_row request_key id
        (put_row request_key (executed_row uri row') (put_row request_key row' rows))
      ≡ some (executed_row uri row')
executed_held rows uri id row held =
    let row' : Request = record row { legal_hold_active = false } in
    let same : row.deletion_request_id ≡ id = key-get_row request_key id row rows held in
    let own : get_row request_key row.deletion_request_id rows ≡ some row =
      ap (λ k. get_row request_key k rows) same ∙ held in
    ap
      (λ k.
        get_row request_key k
          (put_row request_key (executed_row uri row') (put_row request_key row' rows)))
      (sym same)
    ∙ get_row-put_row_self request_key (executed_row uri row') row' (put_row request_key row' rows)
        (get_row-put_row_self request_key row' row rows own)

module _ (sealer : Sealer DeletionEvidence) (sign : AttestationPayload → String) (now : ℕ)
    (deletion_id report_path path uri : String) (signed : Attestation) where
  -- a call that answers an execution has written the executed row over the requests
  abbrev Writes : Request → List Request → Result Executed × Db → Type 0
  Writes row rows r =
      r.0 ≡ ok (executed path uri signed)
      → r.1.requests ≡ put_row request_key (executed_row uri row) rows

  finish_execution-Writes :
      (p u : String) (s : Attestation) (row : Request) (stored : Result StoredEvidenceBundle)
      (evidence : Store) (db : Db)
      → Writes row db.requests
          (finish_execution sealer sign now deletion_id report_path p u s row stored evidence db)
  unfolding finish_execution
  finish_execution-Writes p u s row (err e) evidence db h = cc
  finish_execution-Writes p u s row (ok _) evidence db h = let same : u ≡ uri = cc in rw same refl

  attest_bundle-Writes :
      (ws : String) (row : Request) (result : WorkflowResult) (report : Option Report)
      (stored : Result StoredEvidenceBundle) (evidence : Store) (db : Db)
      → Writes row db.requests (
          attest_bundle sealer sign now deletion_id report_path ws row result report stored evidence
            db)
  unfolding attest_bundle
  attest_bundle-Writes ws row result report (err e) evidence db h = cc
  attest_bundle-Writes ws row result report (ok bundle) evidence db h =
      finish_execution-Writes _ _ _ row _ _ db h

  after_workflow-Writes :
      (ws : String) (row : Request) (result : WorkflowResult) (db : Db)
      → Writes row db.requests
          (after_workflow sealer sign now deletion_id report_path ws row result db)
  unfolding after_workflow block_row attest_execution
  after_workflow-Writes ws row result db h = elim (Bool-cases (result.status == "executed")) [
    | inl done ↦
        let same : after_workflow sealer sign now deletion_id report_path ws row result db
            ≡ attest_execution sealer sign now deletion_id report_path ws row result db =
          rw (done, after_workflow) refl in
        subst (Writes row db.requests) (sym same)
          (λ g. attest_bundle-Writes ws row result _ _ _ db g) h
    | inr other ↦ absurd (cc (rw (other, after_workflow) at h))
  ]

  execute_row-Writes :
      (ws : String) (backup : Option String) (row : Request) (db : Db)
      → let r = execute_row sealer sign now deletion_id report_path ws backup row db in
        r.0 ≡ ok (executed path uri signed)
        → (legal_hold_active ws db ≡ false)
          × (row.status ≡ "approved")
          × (r.1.requests
              ≡ put_row request_key
                  (executed_row uri (record row { legal_hold_active = false }))
                  (put_row request_key (record row { legal_hold_active = false }) db.requests))
  unfolding execute_row block_row run_workflow
  execute_row-Writes ws backup row db h = elim (Bool-cases (legal_hold_active ws db)) [
    | inl held ↦ absurd (cc (rw (held, execute_row) at h))
    | inr free ↦ elim (Bool-cases (row.status == "approved")) [
      | inr other ↦ absurd (cc (rw (free, execute_row, other) at h))
      | inl approved ↦
          let row' : Request = record row { legal_hold_active = false } in
          let db' : Db = record db { requests = put_row request_key row' db.requests } in
          let same : execute_row sealer sign now deletion_id report_path ws backup row db
              ≡ run_workflow sealer sign now deletion_id report_path ws backup row' db' =
            rw (free, execute_row, approved) refl in
          (
            free,
            (eq_iff row.status "approved").0 approved,
            subst (Writes row' db'.requests) (sym same) (λ g. after_workflow-Writes ws row' _ _ g)
                h,
          )
    ]
  ]

  executed_found :
      (ws id : String) (backup : Option String) (db : Db)
      → (execute_deletion_request sealer sign now deletion_id report_path ws id backup db).0
        ≡ some (ok (executed path uri signed))
      → (row : Request) × (get_deletion_request ws id db ≡ some row)
        × ((execute_row sealer sign now deletion_id report_path ws backup row db).0
            ≡ ok (executed path uri signed))
        × ((execute_deletion_request sealer sign now deletion_id report_path ws id backup db).1
            ≡ (execute_row sealer sign now deletion_id report_path ws backup row db).1)
  unfolding execute_deletion_request
  executed_found ws id backup db h = elim (Option-cases (get_deletion_request ws id db)) [
    | inl missing ↦ absurd (cc (rw (missing, execute_deletion_request) at h))
    | inr (row, found) ↦
        let answer = rw (found, execute_deletion_request) at h in
        (row, found, cc, rw (found, execute_deletion_request) refl)
  ]

  -- From tables with no requests, after any calls: where an execution is answered, the workspace is
  -- under no legal hold, the request was approved, and it was so by an actor other than its requester;
  -- the request is executed then, with the evidence that the answer names.
  pub executed_cleared :
      {start db : Db} (ws id : String) (backup : Option String)
      → start.requests ≡ []
      → Reach sealer sign start db
      → (execute_deletion_request sealer sign now deletion_id report_path ws id backup db).0
        ≡ some (ok (executed path uri signed))
      → let after =
          (execute_deletion_request sealer sign now deletion_id report_path ws id backup db).1 in
        (legal_hold_active ws db ≡ false)
        × (row : Request) × (get_deletion_request ws id db ≡ some row)
        × (row.status ≡ "approved")
        × (get_row request_key id after.requests
            ≡ some (executed_row uri (record row { legal_hold_active = false })))
        × (a : Approval) × (find (is_by_other row) db.approvals ≡ some a)
        × (a.decision ≡ "approve")
        × (a.approver_actor_id ≢ row.requester_actor_id)
  executed_cleared {start} {db} ws id backup empty reached h =
      let (row, found, answer, left) = executed_found ws id backup db h in
      let (free, approved, rows) = execute_row-Writes ws backup row db answer in
      let held = held_of_get ws id row db found in
      let (a, there, same, approves, other) =
        cleared_by_other sealer sign id row empty reached held (approved_cleared row approved) in
      (
        free,
        row,
        found,
        approved,
        ap (λ (d : Db). get_row request_key id d.requests) left
            ∙ ap (get_row request_key id) rows
            ∙ executed_held db.requests uri id row held,
        a,
        there,
        approves,
        other,
      )
