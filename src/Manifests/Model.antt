-- ===== src/Manifests/Model.antt =====
-- backend/control_plane/semantic_manifest_service.py: the rows and their definitions.
use schema_pilot.Base.{
  ℕ, String, ◌&&◌, Option, none, some, List, [], ◌∷◌, ◌++◌, ◌==◌, if◌then◌else◌, strip, is_empty,
  get_row, put_row,
}
use schema_pilot.Base.Json.{Json, null, object, end}
use schema_pilot.Errors.{
  disabled_integration, startup_configuration, not_found, policy_denied, value_error, Result, ok,
  err, Exec,
}
use schema_pilot.Evidence.{Store}
use schema_pilot.Review.{Review, decide_review_task}
use schema_pilot.Policies.{PolicyRow, policy_key, find_active}
use schema_pilot.Semantic.{Manifest}

-- The definition of the active row. A key that is missing is read as `None`, the version as 0.
pub record ManifestState : Type 0 where
  pub manifest : Json
  pub manifest_checksum : Option String
  pub version : ℕ
  pub previous_manifest : Json
  pub previous_manifest_checksum : Option String

-- The definition of a change request.
pub record ManifestChange : Type 0 where
  pub change_request_id : String
  pub workspace_id : String
  pub manifest_checksum : String
  pub requester_actor_id : String
  pub proposal_id : String
  pub review_task_id : String
  pub semantic_manifest : Json
  pub status : String
  pub approved_by : String
  pub decision_reason : String

-- `unreadable` is a text that `_load_definition` reads as `{}`.
pub data ManifestDefinition : Type 0 where
  active_manifest : ManifestState → ManifestDefinition
  change : ManifestChange → ManifestDefinition
  unreadable : ManifestDefinition

abbrev pub ManifestRow : Type 0
ManifestRow = PolicyRow ManifestDefinition

abbrev pub no_manifest_state : ManifestState
no_manifest_state = record {
  manifest = null;
  manifest_checksum = none;
  version = 0;
  previous_manifest = null;
  previous_manifest_checksum = none;
}

abbrev pub no_change : ManifestChange
no_change = record {
  change_request_id = "";
  workspace_id = "";
  manifest_checksum = "";
  requester_actor_id = "";
  proposal_id = "";
  review_task_id = "";
  semantic_manifest = object end;
  status = "";
  approved_by = "";
  decision_reason = "";
}

abbrev pub load_state : ManifestDefinition → ManifestState
load_state (active_manifest s) = s
load_state _ = no_manifest_state

abbrev pub load_change : ManifestDefinition → ManifestChange
load_change (change r) = r
load_change _ = no_change

pub record ManifestDb : Type 0 where
  pub workspaces : List String
  pub policies : List ManifestRow
  pub review : Review
  pub evidence : Store

-- what `get_effective_semantic_manifest` answers, beside the workspace
pub record Effective : Type 0 where
  pub manifest : Manifest
  pub manifest_checksum : String
  pub version : ℕ
  pub previous_manifest_checksum : String

-- The payload of the evidence of a request.
pub record ManifestEvidence : Type 0 where
  pub workspace_id : String
  pub requested_manifest : Manifest
  pub requested_manifest_checksum : String
  pub current_manifest : Option Effective

abbrev pub find_manifest_row : String → List ManifestRow → Option ManifestRow
find_manifest_row workspace_id = find_active workspace_id "semantic_manifest"

-- `_get_change_request_row`
unfoldable pub get_manifest_change_row : String → String → List ManifestRow → Option ManifestRow
get_manifest_change_row workspace_id change_request_id rows =
    elim (get_row policy_key change_request_id rows) [
      | none ↦ none
      | some row ↦
          if row.workspace_id == workspace_id
            && row.policy_type == "semantic_manifest_change_request"
          then some row
          else none
    ]

-- `_validated_manifest`: the error becomes a denial
unfoldable pub denied : Result Manifest → Result Manifest
denied (ok m) = ok m
denied (err (value_error e)) = err (policy_denied "invalid_semantic_manifest")
denied (err (policy_denied e)) = err (policy_denied e)
denied (err (not_found e)) = err (not_found e)
denied (err (disabled_integration e)) = err (disabled_integration e)
denied (err (startup_configuration e)) = err (startup_configuration e)

-- `str(value)` of a text or `None`
abbrev pub text_or_none : Option String → String
text_or_none none = "None"
text_or_none (some t) = t

-- `str(state.get("manifest_checksum", "")).strip()`: the key is there in every state that is written
abbrev pub written_checksum : Option String → String
written_checksum none = ""
written_checksum (some t) = strip t

abbrev pub active_manifest_state : Option ManifestRow → ManifestState
active_manifest_state none = no_manifest_state
active_manifest_state (some row) = load_state row.definition_ref

-- Writes the state over the active row, or adds a row with a new identifier.
unfoldable pub write_active_manifest :
    String → String → ManifestState → Option ManifestRow → List ManifestRow → List ManifestRow
write_active_manifest new_id workspace_id state none rows =
    rows
    ++ record {
      policy_id = new_id;
      workspace_id = workspace_id;
      policy_type = "semantic_manifest";
      definition_ref = active_manifest state;
      status = "active";
    }
      ∷ []
write_active_manifest new_id workspace_id state (some row) rows =
    put_row policy_key (record row { definition_ref = active_manifest state; status = "active" })
      rows

-- `staged["status"] = …`, with the approver and the reason, on the definition and on the row
unfoldable pub close_change_row : String → String → String → ManifestRow → ManifestRow
close_change_row status approver_actor_id reason row =
    let staged = load_change row.definition_ref in
    record row {
      definition_ref = change (record staged {
        status = status;
        approved_by = approver_actor_id;
        decision_reason = reason;
      });
      status = status;
    }

-- The review task of the request is decided with it, if the request names one.
unfoldable pub record_change_review :
    String → String → String → String → String → String → String → ManifestDb → ManifestDb
record_change_review approval_id audit_event_id workspace_id review_task_id approver_actor_id
      decision reason db =
    if is_empty review_task_id then db else record db {
      review =
          (decide_review_task approval_id audit_event_id workspace_id review_task_id
            approver_actor_id decision reason db.review).1;
    }

-- What the call returns: the closed request, or the state in force.
pub data ManifestDecided : Type 0 where
  closed : ManifestChange → ManifestDecided
  applied : String → ManifestState → ManifestDecided

-- A decision other than "approve".
unfoldable pub finish_unpublished :
    String → String → String → ManifestRow → Exec ManifestDb ManifestDecided
unfolding close_change_row
finish_unpublished decision approver_actor_id reason row db =
    let status = if decision == "reject" then "rejected" else "deferred" in
    let row' = close_change_row status approver_actor_id reason row in
    (
      ok (closed (load_change row'.definition_ref)),
      record db { policies = put_row policy_key row' db.policies },
    )
