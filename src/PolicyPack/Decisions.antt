-- ===== src/PolicyPack/Decisions.antt =====
-- Deciding a staged change: record the review, then close the request, refuse the pack, start a
-- canary or put the pack in force.
use schema_pilot.Base.{
  String, Bool, Option, none, some, List, [], ◌∷◌, ◌++◌, ◌==◌, if◌then◌else◌, strip, is_empty,
  put_row,
}
use schema_pilot.Errors.{Result, ok, err, policy_denied, not_found, Exec}
use schema_pilot.Review.{decide_review_task}
use schema_pilot.Policies.{policy_key, normalize_decision}
use schema_pilot.PolicyPack.Invariants.{Pack, evaluate_policy_pack_invariants, load_policy_pack}
use schema_pilot.PolicyPack.Model.{
  PackState, ChangeRequest, Canary, Row, change, canary, load_change_request, Db, find_pack_row,
  find_canary_row, active_state, next_state, write_active, get_change_request_row,
}

-- What the call returns: the closed request, the started canary, or the state in force.
pub data Decided : Type 0 where
  closed : ChangeRequest → Decided
  canary_active : String → Canary → Decided
  applied : String → PackState → Decided

-- `staged["status"] = …`, with the approver and the reason, on the definition and on the row
unfoldable pub close_row : String → String → String → Row → Row
close_row status approver_actor_id reason row =
    let staged = load_change_request row.definition_ref in
    record row {
      definition_ref = change (record staged {
        status = status;
        approved_by = approver_actor_id;
        decision_reason = reason;
      });
      status = status;
    }

-- The review task of the request is decided with it, if the request names one.
unfoldable pub record_review :
    String → String → String → String → String → String → String → Db → Db
record_review approval_id audit_event_id workspace_id review_task_id approver_actor_id decision
      reason db =
    if is_empty review_task_id then db else record db {
      review =
          (decide_review_task approval_id audit_event_id workspace_id review_task_id
            approver_actor_id decision reason db.review).1;
    }

-- `_upsert_policy_pack_canary`
unfoldable pub upsert_policy_pack_canary : String → String → Canary → List Row → List Row
upsert_policy_pack_canary new_id workspace_id payload rows =
    elim (find_canary_row workspace_id rows) [
      | none ↦
          rows
          ++ record {
            policy_id = new_id;
            workspace_id = workspace_id;
            policy_type = "policy_pack_canary";
            definition_ref = canary payload;
            status = "active";
          }
            ∷ []
      | some existing ↦
          put_row policy_key
            (record existing { definition_ref = canary payload; status = "active" }) rows
    ]

-- A decision other than "approve".
unfoldable pub finish_unapplied : String → String → String → Row → Exec Db Decided
unfolding close_row
finish_unapplied decision approver_actor_id reason row db =
    let status = if decision == "reject" then "rejected" else "deferred" in
    let row' = close_row status approver_actor_id reason row in
    (
      ok (closed (load_change_request row'.definition_ref)),
      record db { policies = put_row policy_key row' db.policies },
    )

unfoldable pub start_canary : String → String → String → String → String → Row → Exec Db Decided
unfolding close_row upsert_policy_pack_canary
start_canary new_id workspace_id change_request_id approver_actor_id reason row db =
    let staged = load_change_request row.definition_ref in
    let payload : Canary = record {
      workspace_id = workspace_id;
      pack_id = strip staged.requested_pack_id;
      pack_checksum = staged.requested_pack_checksum;
      requested_by = staged.requester_actor_id;
      approved_by = approver_actor_id;
      change_request_id = change_request_id;
      status = "canary_active";
      promoted_by = "";
    } in
    let rows = upsert_policy_pack_canary new_id workspace_id payload db.policies in
    (
      ok (canary_active change_request_id payload),
      record db {
        policies = put_row policy_key (close_row "canary_active" approver_actor_id reason row) rows;
      },
    )

unfoldable pub apply_pack : String → String → String → String → String → Row → Exec Db Decided
unfolding close_row
apply_pack new_id workspace_id change_request_id approver_actor_id reason row db =
    let staged = load_change_request row.definition_ref in
    let active_row = find_pack_row workspace_id db.policies in
    let state =
      next_state workspace_id (strip staged.requested_pack_id) staged.requested_pack_checksum
        (active_state active_row) in
    let rows = write_active new_id workspace_id state active_row db.policies in
    (
      ok (applied change_request_id state),
      record db {
        policies = put_row policy_key (close_row "applied" approver_actor_id reason row) rows;
      },
    )

-- With the failures of the checks in hand.
unfoldable pub start_or_apply :
    String → String → String → String → String → Bool → Row → List String → Exec Db Decided
start_or_apply new_id workspace_id change_request_id approver_actor_id reason canary_enabled row []
      db =
    if canary_enabled
    then start_canary new_id workspace_id change_request_id approver_actor_id reason row db
    else apply_pack new_id workspace_id change_request_id approver_actor_id reason row db
start_or_apply new_id workspace_id change_request_id approver_actor_id reason canary_enabled row
      (failure ∷ failures) db =
    (err (policy_denied "policy_pack_test_failed"), db)

-- Behind an approval: the pack must exist and pass its checks.
unfoldable pub approve_change :
    List Pack → String → String → String → String → String → Bool → Row → Exec Db Decided
unfolding start_or_apply
approve_change packs new_id workspace_id change_request_id approver_actor_id reason canary_enabled
      row db =
    let staged = load_change_request row.definition_ref in
    elim (load_policy_pack (strip staged.requested_pack_id) packs) [
      | none ↦ (err (not_found "Policy pack not found."), db)
      | some pack ↦
          start_or_apply new_id workspace_id change_request_id approver_actor_id reason
            canary_enabled row (evaluate_policy_pack_invariants pack) db
    ]

unfoldable pub decide_row :
    List Pack
    → String
    → String
    → String
    → String
    → String
    → String
    → String
    → String
    → Bool
    → Row
    → Exec Db Decided
unfolding record_review
decide_row packs approval_id audit_event_id new_id workspace_id change_request_id approver_actor_id
      decision reason canary_enabled row db =
    let staged = load_change_request row.definition_ref in
    let db' =
      record_review approval_id audit_event_id workspace_id staged.review_task_id approver_actor_id
        decision reason db in
    if decision == "approve"
    then approve_change packs new_id workspace_id change_request_id approver_actor_id reason
        canary_enabled row db'
    else finish_unapplied decision approver_actor_id reason row db'

-- `None` is the `none` of the result: there is no such request in the workspace.
unfoldable pub decide_policy_pack_change :
    List Pack
    → String
    → String
    → String
    → String
    → String
    → String
    → String
    → String
    → Bool
    → Db
    → Option (Result Decided) × Db
decide_policy_pack_change packs approval_id audit_event_id new_id workspace_id change_request_id
      approver_actor_id decision reason canary_enabled db =
    elim (get_change_request_row workspace_id change_request_id db.policies) [
      | none ↦ (none, db)
      | some row ↦
          let (r, db') =
            decide_row packs approval_id audit_event_id new_id workspace_id change_request_id
              approver_actor_id (normalize_decision decision) reason canary_enabled row db in
          (some r, db')
    ]
