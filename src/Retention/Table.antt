-- ===== src/Retention/Table.antt =====
-- The table of retention policies, and the query for the latest row of a workspace.
use schema_pilot.Base.{
  String, Bool, Option, none, some, List, [], ◌∷◌, ◌==◌, if◌then◌else◌, text_leb,
}
use schema_pilot.Base.Int.{ℤ}

pub record RetentionPolicy : Type 0 where
  pub retention_policy_id : String
  pub workspace_id : String
  pub retention_days : ℤ
  pub enabled : Bool
  pub purge_enabled : Bool
  pub legal_hold_active : Bool
  pub created_by : String
  pub status : String

abbrev pub retention_key : RetentionPolicy → String
retention_key r = r.retention_policy_id

-- of two rows the one that `order_by(retention_policy_id.desc())` puts first
abbrev pub later : RetentionPolicy → Option RetentionPolicy → RetentionPolicy
later r none = r
later r (some s) = if text_leb s.retention_policy_id r.retention_policy_id then r else s

-- `_get_retention_policy_row`: the row of the workspace with the greatest identifier
unfoldable pub get_retention_policy_row : String → List RetentionPolicy → Option RetentionPolicy
get_retention_policy_row workspace_id [] = none
get_retention_policy_row workspace_id (r ∷ rows) =
    let rest = get_retention_policy_row workspace_id rows in
    if r.workspace_id == workspace_id then some (later r rest) else rest
