-- ===== src/Policies.antt =====
-- backend/shared_domain/metadata_models.py, `GovernancePolicy`: the rows that several services keep
-- their state in. `D` is what a service reads from the JSON text of `definition_ref`.
use schema_pilot.Base.{
  String, Bool, ◌&&◌, Option, List, ◌==◌, if◌then◌else◌, ◌||◌, find, strip, lower,
}

pub record PolicyRow (D : Type 0) : Type 0 where
  pub policy_id : String
  pub workspace_id : String
  pub policy_type : String
  pub definition_ref : D
  pub status : String

abbrev pub policy_key : {D : Type 0} → PolicyRow D → String
policy_key r = r.policy_id

-- the `where` of the queries for an active row of one type in a workspace
abbrev pub is_active : {D : Type 0} → String → String → PolicyRow D → Bool
is_active workspace_id policy_type r =
    r.workspace_id == workspace_id && (r.policy_type == policy_type && r.status == "active")

abbrev pub find_active : {D : Type 0} → String → String → List (PolicyRow D) → Option (PolicyRow D)
find_active workspace_id policy_type = find (is_active workspace_id policy_type)

-- `decision.strip().lower()`, and "defer" for any other word
unfoldable pub normalize_decision : String → String
normalize_decision decision =
    let word = lower (strip decision) in
    if word == "approve" || (word == "reject" || word == "defer") then word else "defer"
