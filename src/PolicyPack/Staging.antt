-- ===== src/PolicyPack/Staging.antt =====
-- A staged change waits for its review.
use schema_pilot.Base.{
  ℕ, ◌+◌, String, ◌≡◌, refl, sym, ap, ◌∙◌, true, false, none, List, contains, find-append_unseen,
  arith, eq_refl, Bool-cases, Option-cases, inl, inr,
}
use schema_pilot.Errors.{ok, Result-cases}
use schema_pilot.Evidence.{Sealer, store_evidence_bundle}
use schema_pilot.Review.{create_proposal, unresolved_blocking_task_count, Review}
use schema_pilot.Review.Counts.{create-count}
use schema_pilot.Gating.{evaluate_gold_publish_gate}
use schema_pilot.Policies.{is_active}
use schema_pilot.PolicyPack.Invariants.{Pack, load_policy_pack}
use schema_pilot.PolicyPack.Model.{
  ChangeRequest, ChangeEvidence, Db, get_effective_policy_pack, find_pack_row,
}
use schema_pilot.PolicyPack.Requests.{already_active, stage_change, request_policy_pack_change}
use schema_pilot.PolicyPack.InForce.{effective-eq}

proposal-count :
    (id ws kind uri : String) (confidence : ℕ) (other : String) (s : Review)
    → unresolved_blocking_task_count other (create_proposal id ws kind uri confidence s).1
      ≡ unresolved_blocking_task_count other s
unfolding create_proposal unresolved_blocking_task_count
proposal-count id ws kind uri confidence other s = refl

module _ (sealer : Sealer ChangeEvidence) (pack_checksum : Pack → String)
    (proposal_id task_id change_request_id : String) where
  -- the review queue and the pack in force
  abbrev pub IsWaiting : String → Db → Db → Type 0
  IsWaiting ws db after =
      (unresolved_blocking_task_count ws after.review
        ≡ unresolved_blocking_task_count ws db.review + 1)
      × ((w : String) → find_pack_row w after.policies ≡ find_pack_row w db.policies)

  stage-IsWaiting :
      (ws requester pack_id : String) (pack : Pack) (db : Db) (r : ChangeRequest)
      → (stage_change sealer pack_checksum proposal_id task_id change_request_id ws requester
          pack_id pack db).0
        ≡ ok r
      → IsWaiting ws db
          (stage_change sealer pack_checksum proposal_id task_id change_request_id ws requester
            pack_id pack db).1
  unfolding stage_change
  stage-IsWaiting ws requester pack_id pack db r h =
      let payload : ChangeEvidence = record {
        workspace_id = ws;
        requested_pack_id = pack_id;
        requested_pack_checksum = pack_checksum pack;
        current_pack = get_effective_policy_pack ws db;
      } in
      elim (Result-cases
        (store_evidence_bundle sealer ws payload "policy_pack_change" none db.evidence).0) [
          | inl (bundle, e) ↦
              let proposed =
                create_proposal proposal_id ws "policy_pack_change_proposal"
                  bundle.evidence_bundle_uri 10000 db.review in
              (
                ground (
                  arith,
                  e,
                  create-count task_id ws proposed.0.proposal_id "security_critical" true ws
                      proposed.1,
                  proposal-count proposal_id ws "policy_pack_change_proposal"
                      bundle.evidence_bundle_uri 10000 ws db.review,
                  eq_refl ws,
                ),
                λ w.
                    rw (e, stage_change)
                      (find-append_unseen (is_active w "policy_pack") _ db.policies (ground arith)),
              )
          | inr (x, e) ↦ ground (arith, e, h)
        ]

  request-stages :
      (packs : List Pack) (ws requester pack_id : String) (db : Db) (r : ChangeRequest)
      → (request_policy_pack_change sealer pack_checksum proposal_id task_id change_request_id packs
          ws requester pack_id db).0
        ≡ ok r
      → IsWaiting ws db
          (request_policy_pack_change sealer pack_checksum proposal_id task_id change_request_id
            packs ws requester pack_id db).1
  unfolding request_policy_pack_change
  request-stages packs ws requester pack_id db r h = elim (Bool-cases (contains ws db.workspaces)) [
    | inr e ↦ ground (arith, e, h)
    | inl known ↦ elim (Option-cases (load_policy_pack pack_id packs)) [
      | inl e ↦ ground (arith, known, e, h)
      | inr (pack, loaded) ↦
          elim (Bool-cases (already_active pack_id (get_effective_policy_pack ws db))) [
            | inl e ↦ ground (arith, known, loaded, e, h)
            | inr fresh ↦
                let staged : request_policy_pack_change sealer pack_checksum proposal_id task_id
                      change_request_id packs ws requester pack_id db
                    ≡ stage_change sealer pack_checksum proposal_id task_id change_request_id ws
                        requester pack_id pack db =
                  ground (arith, known, loaded, fresh) in
                rw staged
                  (stage-IsWaiting ws requester pack_id pack db r (ap (λ o. o.0) (sym staged) ∙ h))
          ]
    ]
  ]

  -- A change that is accepted for staging adds one unresolved blocking review task to its workspace,
  -- closes the gate of the gold publication there, and leaves the pack in force as it is in every
  -- workspace.
  pub staging_waits :
      (packs : List Pack) (ws requester pack_id : String) (db : Db) (r : ChangeRequest) (w : String)
      → (request_policy_pack_change sealer pack_checksum proposal_id task_id change_request_id packs
          ws requester pack_id db).0
        ≡ ok r
      → let after =
          (request_policy_pack_change sealer pack_checksum proposal_id task_id change_request_id
            packs ws requester pack_id db).1 in
        (unresolved_blocking_task_count ws after.review
          ≡ unresolved_blocking_task_count ws db.review + 1)
        × ((evaluate_gold_publish_gate true
              (unresolved_blocking_task_count ws after.review)).allowed
            ≡ false)
        × (get_effective_policy_pack w after ≡ get_effective_policy_pack w db)
  staging_waits packs ws requester pack_id db r w h =
      let after =
        (request_policy_pack_change sealer pack_checksum proposal_id task_id change_request_id packs
          ws requester pack_id db).1 in
      let (counted, kept) = request-stages packs ws requester pack_id db r h in
      (
        counted,
        unfold evaluate_gold_publish_gate in ground (arith, counted),
        effective-eq w db after (kept w),
      )
