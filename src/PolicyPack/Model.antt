-- ===== src/PolicyPack/Model.antt =====
-- The tables and the operations of the service. New identifiers are arguments, and so are the
-- bundled packs; `pack_checksum` is the SHA-256 of a pack's canonical JSON.
use schema_pilot.Base.{
  ℕ, ◌+◌, String, ◌&&◌, Option, none, some, List, [], ◌∷◌, ◌++◌, ◌==◌, if◌then◌else◌, get_row,
  put_row,
}
use schema_pilot.Evidence.{Store}
use schema_pilot.Review.{Review}
use schema_pilot.Policies.{PolicyRow, policy_key, find_active}

-- The definition of an active pack, of a change request and of a canary. A key that is missing is
-- read as "", and is so here.
pub record PackState : Type 0 where
  pub workspace_id : String
  pub pack_id : String
  pub pack_checksum : String
  pub version : ℕ
  pub previous_pack_id : String
  pub previous_pack_checksum : String

pub record ChangeRequest : Type 0 where
  pub change_request_id : String
  pub workspace_id : String
  pub requested_pack_id : String
  pub requested_pack_checksum : String
  pub requester_actor_id : String
  pub proposal_id : String
  pub review_task_id : String
  pub status : String
  pub approved_by : String
  pub decision_reason : String

pub record Canary : Type 0 where
  pub workspace_id : String
  pub pack_id : String
  pub pack_checksum : String
  pub requested_by : String
  pub approved_by : String
  pub change_request_id : String
  pub status : String
  pub promoted_by : String

-- `unreadable` is a text that `_load_definition` reads as `{}`.
pub data Definition : Type 0 where
  active_pack : PackState → Definition
  change : ChangeRequest → Definition
  canary : Canary → Definition
  unreadable : Definition

abbrev pub Row : Type 0
Row = PolicyRow Definition

abbrev pub no_state : PackState
no_state = record {
  workspace_id = "";
  pack_id = "";
  pack_checksum = "";
  version = 0;
  previous_pack_id = "";
  previous_pack_checksum = "";
}

abbrev pub no_request : ChangeRequest
no_request = record {
  change_request_id = "";
  workspace_id = "";
  requested_pack_id = "";
  requested_pack_checksum = "";
  requester_actor_id = "";
  proposal_id = "";
  review_task_id = "";
  status = "";
  approved_by = "";
  decision_reason = "";
}

abbrev pub no_canary : Canary
no_canary = record {
  workspace_id = "";
  pack_id = "";
  pack_checksum = "";
  requested_by = "";
  approved_by = "";
  change_request_id = "";
  status = "canary_active";
  promoted_by = "";
}

-- `_load_definition` of a row that holds an active pack, a change request, a canary; its type says
-- which, and a text of another kind is not written there.
abbrev pub load_pack_state : Definition → PackState
load_pack_state (active_pack s) = s
load_pack_state _ = no_state

abbrev pub load_change_request : Definition → ChangeRequest
load_change_request (change r) = r
load_change_request _ = no_request

abbrev pub load_canary : Definition → Canary
load_canary (canary c) = c
load_canary _ = no_canary

pub record Db : Type 0 where
  pub workspaces : List String
  pub policies : List Row
  pub review : Review
  pub evidence : Store

-- The payload of the evidence of a request.
pub record ChangeEvidence : Type 0 where
  pub workspace_id : String
  pub requested_pack_id : String
  pub requested_pack_checksum : String
  pub current_pack : Option PackState

abbrev pub find_pack_row : String → List Row → Option Row
find_pack_row workspace_id = find_active workspace_id "policy_pack"

abbrev pub find_canary_row : String → List Row → Option Row
find_canary_row workspace_id = find_active workspace_id "policy_pack_canary"

-- `get_effective_policy_pack`, which answers with the workspace that was asked for
unfoldable pub get_effective_policy_pack : String → Db → Option PackState
get_effective_policy_pack workspace_id db = elim (find_pack_row workspace_id db.policies) [
  | none ↦ none
  | some row ↦
      let definition = load_pack_state row.definition_ref in
      some (record definition { workspace_id = workspace_id })
]

-- the definition of the active row, or `{}`
abbrev pub active_state : Option Row → PackState
active_state none = no_state
active_state (some row) = load_pack_state row.definition_ref

-- The state that follows `active` when another pack is put in force.
abbrev pub next_state : String → String → String → PackState → PackState
next_state workspace_id pack_id pack_checksum active = record {
  workspace_id = workspace_id;
  pack_id = pack_id;
  pack_checksum = pack_checksum;
  version = active.version + 1;
  previous_pack_id = active.pack_id;
  previous_pack_checksum = active.pack_checksum;
}

-- Writes the state over the active row, or adds a row with a new identifier.
unfoldable pub write_active : String → String → PackState → Option Row → List Row → List Row
write_active new_id workspace_id state none rows =
    rows
    ++ record {
      policy_id = new_id;
      workspace_id = workspace_id;
      policy_type = "policy_pack";
      definition_ref = active_pack state;
      status = "active";
    }
      ∷ []
write_active new_id workspace_id state (some row) rows =
    put_row policy_key (record row { definition_ref = active_pack state; status = "active" }) rows

-- `_get_change_request_row`
unfoldable pub get_change_request_row : String → String → List Row → Option Row
get_change_request_row workspace_id change_request_id rows =
    elim (get_row policy_key change_request_id rows) [
      | none ↦ none
      | some row ↦
          if row.workspace_id == workspace_id && row.policy_type == "policy_pack_change_request"
          then some row
          else none
    ]
