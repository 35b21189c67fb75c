-- ===== src/Deletion/Approval.antt =====
-- Submitting a request, and deciding it.
use schema_pilot.Base.{
  String, Bool, true, ◌&&◌, Option, none, some, List, [], ◌∷◌, ◌++◌, ◌==◌, if◌then◌else◌,
  sort_texts, get_row, put_row,
}
use schema_pilot.Errors.{Result, ok, err, policy_denied, Exec}
use schema_pilot.Policies.{normalize_decision}
use schema_pilot.Deletion.Workflow.{Request, Approval, Db, request_key, legal_hold_active}

unfoldable pub submit_deletion_request :
    String → String → String → String → List String → List String → Db → Request × Db
submit_deletion_request new_id workspace_id requester_actor_id subject_selector affected_snapshots
      affected_indexes db =
    let row : Request = record {
      deletion_request_id = new_id;
      workspace_id = workspace_id;
      requester_actor_id = requester_actor_id;
      status = "requested";
      subject_selector = subject_selector;
      affected_snapshots = sort_texts affected_snapshots;
      affected_indexes = sort_texts affected_indexes;
      legal_hold_active = legal_hold_active workspace_id db;
      approval_reason = none;
      evidence_bundle_uri = none;
    } in
    (row, record db { requests = db.requests ++ row ∷ [] })

-- The row once the decision is taken; the hold is that of the workspace.
unfoldable pub decided_row : String → String → Bool → Request → Request
decided_row decision reason hold row =
    if decision == "approve" && hold
    then record row {
      legal_hold_active = true;
      status = "blocked";
      approval_reason = some "legal_hold_active";
    }
    else if decision == "approve"
    then record row { status = "approved"; approval_reason = some reason }
    else if decision == "reject"
    then record row { status = "rejected"; approval_reason = some reason }
    else record row { status = "deferred"; approval_reason = some reason }

unfoldable pub decide_request :
    String → String → String → String → String → Request → Exec Db (Request × Approval)
unfolding decided_row
decide_request approval_id workspace_id approver_actor_id decision reason row db =
    if decision == "approve" && row.requester_actor_id == approver_actor_id
    then (err (policy_denied "requester_cannot_self_approve"), db)
    else let row' = decided_row decision reason (legal_hold_active workspace_id db) row in
      let approval : Approval = record {
        deletion_approval_id = approval_id;
        deletion_request_id = row'.deletion_request_id;
        workspace_id = row'.workspace_id;
        approver_actor_id = approver_actor_id;
        decision = decision;
        decision_reason = reason;
      } in
      (
        ok (row', approval),
        record db {
          requests = put_row request_key row' db.requests;
          approvals = db.approvals ++ approval ∷ [];
        },
      )

-- the row of the request, if it belongs to the workspace: `get_deletion_request`
unfoldable pub get_deletion_request : String → String → Db → Option Request
get_deletion_request workspace_id deletion_request_id db =
    elim (get_row request_key deletion_request_id db.requests) [
      | none ↦ none
      | some row ↦ if row.workspace_id == workspace_id then some row else none
    ]

-- `None` is the `none` of the result: there is no such request in the workspace.
unfoldable pub approve_deletion_request :
    String
    → String
    → String
    → String
    → String
    → String
    → Db
    → Option (Result (Request × Approval)) × Db
approve_deletion_request approval_id workspace_id deletion_request_id approver_actor_id decision
      reason db =
    elim (get_deletion_request workspace_id deletion_request_id db) [
      | none ↦ (none, db)
      | some row ↦
          let (r, db') =
            decide_request approval_id workspace_id approver_actor_id (normalize_decision decision)
              reason row db in
          (some r, db')
    ]
