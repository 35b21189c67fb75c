-- ===== src/Examples/Lifecycles.antt =====
-- The theorems on deletions at concrete inputs.
use schema_pilot.Base.{
  String, ◌≡◌, ◌≢◌, refl, false, none, some, [], ◌∷◌, find, get_row, lower, strip, sort_texts,
  spaces_to_underscores, take_text,
}
use schema_pilot.Errors.{ok}
use schema_pilot.Evidence.Uri.{build_evidence_uri}
use schema_pilot.Evidence.{
  Sealer, store_evidence_bundle, write_envelope, envelope_of, safe_bundle_type,
}
use schema_pilot.Policies.{normalize_decision}
use schema_pilot.Retention.Table.{get_retention_policy_row}
use schema_pilot.Deletion.Workflow.{Request, Approval, Db, request_key}
use schema_pilot.Deletion.Approval.{
  submit_deletion_request, approve_deletion_request, get_deletion_request, decide_request,
  decided_row,
}
use schema_pilot.Deletion.Workflow.{legal_hold_active, execute_deletion_workflow}
use schema_pilot.Deletion.Execution.{
  DeletionEvidence, AttestationPayload, Attestation, executed, execute_deletion_request,
  execute_row, run_workflow, after_workflow, attest_execution, attest_bundle, block_row,
  build_deletion_attestation, finish_execution,
}
use schema_pilot.Deletion.Duties.{is_by_other}
use schema_pilot.Deletion.Traces.{Reach, here, next, submit, decide, cleared_by_other}
use schema_pilot.Deletion.Cleared.{executed_row, executed_cleared}

abbrev sealer : Sealer DeletionEvidence
sealer = record { content_hash = λ _. "c0ffee"; encrypt_payload = λ _. "sealed" }

abbrev sign : AttestationPayload → String
sign _ = "signature"

abbrev no_requests : Db
no_requests = record { retention = []; requests = []; approvals = []; evidence = []; reports = [] }

abbrev submitted : Db
submitted = (submit_deletion_request "r1" "ws" "alice" "{}" ("s1" ∷ []) [] no_requests).1

abbrev approved : Db
approved = (approve_deletion_request "a1" "ws" "r1" "bob" " Approve" "requested by law" submitted).1

abbrev approved_request : Request
approved_request = record {
  deletion_request_id = "r1";
  workspace_id = "ws";
  requester_actor_id = "alice";
  status = "approved";
  subject_selector = "{}";
  affected_snapshots = "s1" ∷ [];
  affected_indexes = [];
  legal_hold_active = false;
  approval_reason = some "requested by law";
  evidence_bundle_uri = none;
}

reached : Reach sealer sign no_requests approved
reached =
    next (next here (submit "r1" "ws" "alice" "{}" ("s1" ∷ []) []))
      (decide "a1" "ws" "r1" "bob" " Approve" "requested by law")

cleared_by_other_example :
    (a : Approval) × (find (is_by_other approved_request) approved.approvals ≡ some a)
    × (a.deletion_request_id ≡ "r1")
    × (a.decision ≡ "approve")
    × (a.approver_actor_id ≢ "alice")
unfolding submit_deletion_request approve_deletion_request get_deletion_request decide_request
    decided_row legal_hold_active normalize_decision lower strip get_retention_policy_row sort_texts
cleared_by_other_example =
    cleared_by_other sealer sign {start = no_requests} {db = approved} "r1" approved_request refl
      reached refl refl

abbrev attestation_of_r1 : Attestation
attestation_of_r1 = record {
  payload = record {
    workspace_id = "ws";
    deletion_request_id = "r1";
    status = "executed";
    reason = "approved";
    execution_epoch = 100;
    snapshots_updated = "s1" ∷ [];
    indexes_updated = [];
  };
  signature = "signature";
}

executed_ok :
    (execute_deletion_request sealer sign 100 "d1" "deletions/ws/d1.json" "ws" "r1" none approved).0
    ≡ some (
        ok (
          executed "deletions/ws/d1.json" "evidence://ws/deletion_execution_c0ffee"
            attestation_of_r1))
unfolding execute_deletion_request get_deletion_request approve_deletion_request
    submit_deletion_request decide_request normalize_decision lower strip legal_hold_active
    get_retention_policy_row execute_row run_workflow after_workflow execute_deletion_workflow
    attest_execution attest_bundle store_evidence_bundle write_envelope sort_texts
    spaces_to_underscores take_text decided_row block_row build_deletion_attestation
    finish_execution build_evidence_uri envelope_of safe_bundle_type
executed_ok = refl

executed_cleared_example :
    let after =
      (execute_deletion_request sealer sign 100 "d1" "deletions/ws/d1.json" "ws" "r1" none
        approved).1 in
    (legal_hold_active "ws" approved ≡ false)
    × (row : Request) × (get_deletion_request "ws" "r1" approved ≡ some row)
    × (row.status ≡ "approved")
    × (get_row request_key "r1" after.requests
        ≡ some (
            executed_row "evidence://ws/deletion_execution_c0ffee"
              (record row { legal_hold_active = false })))
    × (a : Approval) × (find (is_by_other row) approved.approvals ≡ some a)
    × (a.decision ≡ "approve")
    × (a.approver_actor_id ≢ row.requester_actor_id)
executed_cleared_example =
    executed_cleared sealer sign 100 "d1" "deletions/ws/d1.json" "deletions/ws/d1.json"
      "evidence://ws/deletion_execution_c0ffee" attestation_of_r1 {start = no_requests}
      {db = approved} "ws" "r1" none refl reached executed_ok
