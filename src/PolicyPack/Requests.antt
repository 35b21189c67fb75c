-- ===== src/PolicyPack/Requests.antt =====
-- Staging a change of the policy pack.
use schema_pilot.Base.{
  String, Bool, true, false, Option, none, some, List, [], ◌∷◌, ◌++◌, ◌==◌, if◌then◌else◌, contains,
}
use schema_pilot.Errors.{ok, err, policy_denied, not_found, Exec}
use schema_pilot.Evidence.{Sealer, store_evidence_bundle}
use schema_pilot.Review.{create_proposal, create_review_task}
use schema_pilot.PolicyPack.Invariants.{Pack, load_policy_pack}
use schema_pilot.PolicyPack.Model.{
  PackState, ChangeRequest, Row, change, Db, ChangeEvidence, get_effective_policy_pack,
}

-- `current is not None and current.get("pack_id") == requested_pack_id`
abbrev pub already_active : String → Option PackState → Bool
already_active requested_pack_id none = false
already_active requested_pack_id (some s) = s.pack_id == requested_pack_id

-- Behind the guards: the evidence, the proposal, the blocking review task and the staged row.
module _ (sealer : Sealer ChangeEvidence) (pack_checksum : Pack → String)
    (proposal_id task_id change_request_id : String) where
  unfoldable pub stage_change : String → String → String → Pack → Exec Db ChangeRequest
  stage_change workspace_id requester_actor_id requested_pack_id pack db =
      let requested_checksum = pack_checksum pack in
      let payload : ChangeEvidence = record {
        workspace_id = workspace_id;
        requested_pack_id = requested_pack_id;
        requested_pack_checksum = requested_checksum;
        current_pack = get_effective_policy_pack workspace_id db;
      } in
      let (stored, evidence) =
        store_evidence_bundle sealer workspace_id payload "policy_pack_change" none db.evidence in
      elim stored [
        | err e ↦ (err e, record db { evidence = evidence })
        | ok bundle ↦
            let (proposal, review) =
              create_proposal proposal_id workspace_id "policy_pack_change_proposal"
                bundle.evidence_bundle_uri 10000 db.review in
            let (task, review') =
              create_review_task task_id workspace_id proposal.proposal_id "security_critical" true
                review in
            let request : ChangeRequest = record {
              change_request_id = change_request_id;
              workspace_id = workspace_id;
              requested_pack_id = requested_pack_id;
              requested_pack_checksum = requested_checksum;
              requester_actor_id = requester_actor_id;
              proposal_id = proposal.proposal_id;
              review_task_id = task.task_id;
              status = "staged";
              approved_by = "";
              decision_reason = "";
            } in
            let row : Row = record {
              policy_id = change_request_id;
              workspace_id = workspace_id;
              policy_type = "policy_pack_change_request";
              definition_ref = change request;
              status = "staged";
            } in
            (
              ok request,
              record db {
                evidence = evidence;
                review = review';
                policies = db.policies ++ row ∷ [];
              },
            )
      ]

  unfoldable pub request_policy_pack_change :
      List Pack → String → String → String → Exec Db ChangeRequest
  unfolding stage_change
  request_policy_pack_change packs workspace_id requester_actor_id requested_pack_id db =
      if contains workspace_id db.workspaces
      then elim (load_policy_pack requested_pack_id packs) [
        | none ↦ (err (not_found "Policy pack not found."), db)
        | some pack ↦
            if already_active requested_pack_id (get_effective_policy_pack workspace_id db)
            then (err (policy_denied "policy_pack_already_active"), db)
            else stage_change workspace_id requester_actor_id requested_pack_id pack db
      ]
      else (err (not_found "Workspace not found."), db)
