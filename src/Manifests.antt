-- ===== src/Manifests.antt =====
-- backend/control_plane/semantic_manifest_service.py: the life cycle of a workspace's semantic
-- manifest, in the rows of the governance policies. New identifiers are arguments; `checksum` is the
-- SHA-256 of a manifest's canonical JSON, `repr` Python's text of a list or a dictionary.
pub mod Active
pub mod Undo
mod Model
unfoldable pub use Model.*
use schema_pilot.Base.{
  ℕ, ◌+◌, String, Bool, true, false, ◌&&◌, Option, none, some, List, [], ◌∷◌, ◌++◌, ◌==◌,
  if◌then◌else◌, contains, strip, is_empty, get_row, put_row,
}
use schema_pilot.Base.Json.{Json, null, object, end, Fields, as_dict}
use schema_pilot.Errors.{
  Error, disabled_integration, startup_configuration, not_found, policy_denied, value_error, Result,
  ok, err, Exec, require, ◌>>=◌, ◌>>◌,
}
use schema_pilot.Evidence.{Store, Sealer, store_evidence_bundle}
use schema_pilot.Review.{Review, create_proposal, create_review_task, decide_review_task}
use schema_pilot.Policies.{PolicyRow, policy_key, find_active, normalize_decision}
use schema_pilot.Semantic.{Manifest, manifest_json, validate_semantic_manifest}

module _ (repr : Json → String) (checksum : Manifest → String) where
  unfoldable pub validated_manifest : Fields → String → Result Manifest
  validated_manifest raw workspace_id = denied (validate_semantic_manifest repr raw workspace_id)

  -- The state that follows `active` when a manifest is put in force.
  unfoldable pub next_manifest_state : Manifest → ManifestState → ManifestState
  next_manifest_state m active = record {
    manifest = object (manifest_json m);
    manifest_checksum = some (checksum m);
    version = active.version + 1;
    previous_manifest = active.manifest;
    previous_manifest_checksum = active.manifest_checksum;
  }

  -- the answer for the state of the active row; a row without a manifest gives `None`
  unfoldable pub effective_of : String → ManifestState → Result (Option Effective)
  effective_of workspace_id state = elim (as_dict state.manifest) [
    | none ↦ ok none
    | some raw ↦ do
      m ← validated_manifest raw workspace_id
      let written = written_checksum state.manifest_checksum
      ok (
          some (record {
            manifest = m;
            manifest_checksum = if is_empty written then checksum m else written;
            version = state.version;
            previous_manifest_checksum = text_or_none state.previous_manifest_checksum;
          }))
  ]

  unfoldable pub get_effective_semantic_manifest : String → ManifestDb → Result (Option Effective)
  get_effective_semantic_manifest workspace_id db =
      elim (find_manifest_row workspace_id db.policies) [
        | none ↦ ok none
        | some row ↦ effective_of workspace_id (load_state row.definition_ref)
      ]

  abbrev pub manifest_already_active : String → Option Effective → Bool
  manifest_already_active manifest_checksum none = false
  manifest_already_active manifest_checksum (some e) = e.manifest_checksum == manifest_checksum

  -- Behind the guards: the evidence, the proposal, the blocking review task and the staged row.
  unfoldable pub stage_manifest_change :
      Sealer ManifestEvidence
      → String
      → String
      → String
      → String
      → String
      → Manifest
      → Option Effective
      → Exec ManifestDb ManifestChange
  stage_manifest_change sealer proposal_id task_id change_request_id workspace_id requester_actor_id
        m current db =
      let payload : ManifestEvidence = record {
        workspace_id = workspace_id;
        requested_manifest = m;
        requested_manifest_checksum = checksum m;
        current_manifest = current;
      } in
      let (stored, evidence) =
        store_evidence_bundle sealer workspace_id payload "semantic_manifest_change" none
          db.evidence in
      elim stored [
        | err e ↦ (err e, record db { evidence = evidence })
        | ok bundle ↦
            let (proposal, review) =
              create_proposal proposal_id workspace_id "semantic_manifest_change_proposal"
                bundle.evidence_bundle_uri 10000 db.review in
            let (task, review') =
              create_review_task task_id workspace_id proposal.proposal_id "quality_critical" true
                review in
            let request : ManifestChange = record {
              change_request_id = change_request_id;
              workspace_id = workspace_id;
              manifest_checksum = checksum m;
              requester_actor_id = requester_actor_id;
              proposal_id = proposal.proposal_id;
              review_task_id = task.task_id;
              semantic_manifest = object (manifest_json m);
              status = "staged";
              approved_by = "";
              decision_reason = "";
            } in
            let row : ManifestRow = record {
              policy_id = change_request_id;
              workspace_id = workspace_id;
              policy_type = "semantic_manifest_change_request";
              definition_ref = change request;
              status = "staged";
            } in
            (
              ok request,
              record db {
                evidence = evidence;
                review = review';
                policies = db.policies ++ row ∷ [];
              },
            )
      ]

  -- the guards of a request: the manifest, and what is in force
  unfoldable pub check_request : String → Fields → ManifestDb → Result (Manifest × Option Effective)
  check_request workspace_id raw db = do
    require (contains workspace_id db.workspaces) (not_found "Workspace not found.")
    m ← validated_manifest raw workspace_id
    current ← get_effective_semantic_manifest workspace_id db
    if manifest_already_active (checksum m) current
        then err (policy_denied "semantic_manifest_already_active")
        else ok (m, current)

  unfoldable pub request_semantic_manifest_change :
      Sealer ManifestEvidence
      → String
      → String
      → String
      → String
      → String
      → Fields
      → Exec ManifestDb ManifestChange
  request_semantic_manifest_change sealer proposal_id task_id change_request_id workspace_id
        requester_actor_id raw db =
      elim (check_request workspace_id raw db) [
        | err e ↦ (err e, db)
        | ok (m, current) ↦
            stage_manifest_change sealer proposal_id task_id change_request_id workspace_id
              requester_actor_id m current db
      ]

  -- Puts the manifest in force and closes the request.
  unfoldable pub apply_manifest :
      String
      → String
      → String
      → String
      → String
      → ManifestRow
      → Manifest
      → Exec ManifestDb ManifestDecided
  unfolding close_change_row
  apply_manifest new_id workspace_id change_request_id approver_actor_id reason row m db =
      let active_row = find_manifest_row workspace_id db.policies in
      let state = next_manifest_state m (active_manifest_state active_row) in
      let rows = write_active_manifest new_id workspace_id state active_row db.policies in
      (
        ok (applied change_request_id state),
        record db {
          policies =
              put_row policy_key (close_change_row "applied" approver_actor_id reason row) rows;
        },
      )

  -- Behind an approval: the manifest of the request must still be a dictionary that validates.
  unfoldable pub approve_manifest_change :
      String → String → String → String → String → ManifestRow → Exec ManifestDb ManifestDecided
  approve_manifest_change new_id workspace_id change_request_id approver_actor_id reason row db =
      let staged = load_change row.definition_ref in
      elim (as_dict staged.semantic_manifest) [
        | none ↦ (err (policy_denied "invalid_semantic_manifest_request"), db)
        | some raw ↦ elim (validated_manifest raw workspace_id) [
          | err e ↦ (err e, db)
          | ok m ↦
              apply_manifest new_id workspace_id change_request_id approver_actor_id reason row m db
        ]
      ]

  -- `None` is the `none` of the result: there is no such request in the workspace.
  unfoldable pub decide_semantic_manifest_change :
      String
      → String
      → String
      → String
      → String
      → String
      → String
      → String
      → ManifestDb
      → Option (Result ManifestDecided) × ManifestDb
  unfolding record_change_review
  decide_semantic_manifest_change approval_id audit_event_id new_id workspace_id change_request_id
        approver_actor_id decision reason db =
      elim (get_manifest_change_row workspace_id change_request_id db.policies) [
        | none ↦ (none, db)
        | some row ↦
            let staged = load_change row.definition_ref in
            let word = normalize_decision decision in
            let db' =
              record_change_review approval_id audit_event_id workspace_id staged.review_task_id
                approver_actor_id word reason db in
            let (r, db'') : Result ManifestDecided × ManifestDb =
              if word == "approve"
              then approve_manifest_change new_id workspace_id change_request_id approver_actor_id
                  reason row db'
              else finish_unpublished word approver_actor_id reason row db' in
            (some r, db'')
      ]

  -- the new state: the previous manifest, validated again, one version on
  unfoldable pub rollback_manifest_row :
      String → ManifestRow → ManifestState → Exec ManifestDb ManifestState
  rollback_manifest_row workspace_id row active db = elim (as_dict active.previous_manifest) [
    | none ↦ (err (policy_denied "semantic_manifest_rollback_unavailable"), db)
    | some raw ↦ elim (validated_manifest raw workspace_id) [
      | err e ↦ (err e, db)
      | ok m ↦
          let state = next_manifest_state m active in
          (
            ok state,
            record db {
              policies =
                  put_row policy_key (record row { definition_ref = active_manifest state })
                    db.policies;
            },
          )
    ]
  ]

  unfoldable pub rollback_semantic_manifest : String → Exec ManifestDb ManifestState
  rollback_semantic_manifest workspace_id db = elim (find_manifest_row workspace_id db.policies) [
    | none ↦ (err (policy_denied "semantic_manifest_not_configured"), db)
    | some row ↦ rollback_manifest_row workspace_id row (load_state row.definition_ref) db
  ]
