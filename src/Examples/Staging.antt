-- ===== src/Examples/Staging.antt =====
-- The theorem on staged policy-pack changes at concrete inputs.
use schema_pilot.Base.{◌+◌, String, ◌≡◌, refl, true, false, some, [], ◌∷◌}
use schema_pilot.Evidence.{Sealer, store_evidence_bundle, write_envelope, envelope_of}
use schema_pilot.Review.{
  no_review, create_proposal, create_review_task, unresolved_blocking_task_count,
}
use schema_pilot.Gating.{evaluate_gold_publish_gate}
use schema_pilot.PolicyPack.Invariants.{Pack, load_policy_pack}
use schema_pilot.PolicyPack.Model.{ChangeRequest, ChangeEvidence, Db, get_effective_policy_pack}
use schema_pilot.PolicyPack.Requests.{request_policy_pack_change, stage_change}
use schema_pilot.PolicyPack.Staging.{staging_waits}

abbrev sealer : Sealer ChangeEvidence
sealer = record { content_hash = λ _. "c0ffee"; encrypt_payload = λ _. "sealed" }

abbrev checksum : Pack → String
checksum pack = "s0"

abbrev strict : Pack
strict = record {
  pack_id = "strict";
  template_actor =
      some (record {
        actor_type = "human";
        roles = some ("analyst" ∷ []);
        attributes_is_object = true;
      });
}

abbrev db : Db
db = record { workspaces = "ws" ∷ []; policies = []; review = no_review; evidence = [] }

abbrev request : ChangeRequest
request = record {
  change_request_id = "c1";
  workspace_id = "ws";
  requested_pack_id = "strict";
  requested_pack_checksum = "s0";
  requester_actor_id = "alice";
  proposal_id = "q1";
  review_task_id = "t1";
  status = "staged";
  approved_by = "";
  decision_reason = "";
}

staging_waits_example :
    let after =
      (request_policy_pack_change sealer checksum "q1" "t1" "c1"
        (strict ∷ [])
        "ws"
        "alice"
        "strict"
        db).1 in
    (unresolved_blocking_task_count "ws" after.review
      ≡ unresolved_blocking_task_count "ws" no_review + 1)
    × ((evaluate_gold_publish_gate true (unresolved_blocking_task_count "ws" after.review)).allowed
        ≡ false)
    × (get_effective_policy_pack "ws" after ≡ get_effective_policy_pack "ws" db)
unfolding request_policy_pack_change stage_change load_policy_pack get_effective_policy_pack
    store_evidence_bundle write_envelope envelope_of create_proposal create_review_task
staging_waits_example =
    staging_waits sealer checksum "q1" "t1" "c1" (strict ∷ []) "ws" "alice" "strict" db request "ws"
      refl
