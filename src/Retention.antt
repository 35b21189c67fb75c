-- ===== src/Retention.antt =====
-- backend/control_plane/retention.py: the retention policy of a workspace, and the purge behind it.
pub mod Table
pub mod Guards
pub mod Latest
pub use Table.{RetentionPolicy, retention_key, get_retention_policy_row}
use schema_pilot.Base.{
  ℕ, String, Bool, true, false, not, ◌&&◌, ◌||◌, Option, none, some, List, [], ◌∷◌, ◌++◌, ◌==◌,
  if◌then◌else◌, contains, strip, is_empty, put_row,
}
use schema_pilot.Base.Int.{ℤ, pos, leb_ℤ}
use schema_pilot.Errors.{Error, Result, ok, err, not_found, policy_denied, value_error, Exec}
use schema_pilot.Evidence.{Sealer, Store, store_evidence_bundle}
use schema_pilot.Purge.{Storage, PurgeExecution, purge_workspace_artifacts}

pub record PurgeRun : Type 0 where
  pub purge_run_id : String
  pub workspace_id : String
  pub retention_policy_id : String
  pub dry_run : Bool
  pub status : String
  pub deleted_count : ℕ
  pub deleted_paths : List String
  pub evidence_bundle_uri : String

-- The tables, the evidence store and the files below the purge root.
pub record Db : Type 0 where
  pub workspaces : List String
  pub retention : List RetentionPolicy
  pub purge_runs : List PurgeRun
  pub evidence : Store
  pub storage : Storage

unfoldable pub configure_retention_policy :
    String → String → String → ℤ → Bool → Bool → Bool → Exec Db RetentionPolicy
configure_retention_policy new_id workspace_id actor_id retention_days enabled purge_enabled
      legal_hold_active db =
    if not (contains workspace_id db.workspaces)
    then (err (not_found "Workspace not found."), db)
    else if enabled && leb_ℤ retention_days (pos 0)
    then (err (policy_denied "invalid_retention_days"), db)
    else elim (get_retention_policy_row workspace_id db.retention) [
      | none ↦
          let policy : RetentionPolicy = record {
            retention_policy_id = new_id;
            workspace_id = workspace_id;
            retention_days = retention_days;
            enabled = enabled;
            purge_enabled = purge_enabled;
            legal_hold_active = legal_hold_active;
            created_by = actor_id;
            status = "active";
          } in
          (ok policy, record db { retention = db.retention ++ policy ∷ [] })
      | some old ↦
          let policy : RetentionPolicy = record old {
            retention_days = retention_days;
            enabled = enabled;
            purge_enabled = purge_enabled;
            legal_hold_active = legal_hold_active;
            created_by = actor_id;
            status = "active";
          } in
          (ok policy, record db { retention = put_row retention_key policy db.retention })
    ]

unfoldable pub get_retention_policy : String → Db → Option RetentionPolicy
get_retention_policy workspace_id db = get_retention_policy_row workspace_id db.retention

-- The payload of the evidence of a purge. (The cutoff is left out: a time that only the record holds.)
pub record PurgeEvidence : Type 0 where
  pub workspace_id : String
  pub actor_id : String
  pub retention_policy_id : String
  pub retention_days : ℤ
  pub dry_run : Bool
  pub scanned_count : ℕ
  pub deleted_count : ℕ
  pub deleted_paths : List String

-- The checks before anything is removed.
unfoldable pub purge_refusal : Option RetentionPolicy → Option String → Option String
purge_refusal none purge_root = some "retention_disabled"
purge_refusal (some policy) purge_root =
    if not policy.enabled
    then some "retention_disabled"
    else if not policy.purge_enabled
    then some "purge_not_enabled"
    else if policy.legal_hold_active
    then some "legal_hold_active"
    else elim purge_root [
      | none ↦ some "missing_purge_path_config"
      | some root ↦ if is_empty (strip root) then some "missing_purge_path_config" else none
    ]

-- `except ValueError as exc: raise PolicyDeniedError(… str(exc))`
abbrev as_denied : Error → Error
as_denied (value_error reason) = policy_denied reason
as_denied e = e

module _ (sealer : Sealer PurgeEvidence) (now : ℕ) (purge_run_id : String) where
  -- the evidence and the record of a purge that has run
  record_purge : String → String → Bool → RetentionPolicy → PurgeExecution → Exec Db PurgeRun
  record_purge workspace_id actor_id dry_run policy execution db =
      let payload : PurgeEvidence = record {
        workspace_id = workspace_id;
        actor_id = actor_id;
        retention_policy_id = policy.retention_policy_id;
        retention_days = policy.retention_days;
        dry_run = dry_run;
        scanned_count = execution.scanned_count;
        deleted_count = execution.deleted_count;
        deleted_paths = execution.deleted_paths;
      } in
      let (stored, evidence) =
        store_evidence_bundle sealer workspace_id payload "retention_purge" none db.evidence in
      elim stored [
        | err e ↦ (err e, record db { evidence = evidence })
        | ok bundle ↦
            let run : PurgeRun = record {
              purge_run_id = purge_run_id;
              workspace_id = workspace_id;
              retention_policy_id = policy.retention_policy_id;
              dry_run = dry_run;
              status = "succeeded";
              deleted_count = execution.deleted_count;
              deleted_paths = execution.deleted_paths;
              evidence_bundle_uri = bundle.evidence_bundle_uri;
            } in
            (ok run, record db { evidence = evidence; purge_runs = db.purge_runs ++ run ∷ [] })
      ]

  run_purge : String → String → Bool → RetentionPolicy → Exec Db PurgeRun
  unfolding record_purge
  run_purge workspace_id actor_id dry_run policy db =
      let (done, storage) =
        purge_workspace_artifacts now workspace_id policy.retention_days dry_run db.storage in
      elim done [
        | err e ↦ (err (as_denied e), record db { storage = storage })
        | ok execution ↦
            record_purge workspace_id actor_id dry_run policy execution
              (record db { storage = storage })
      ]

  unfoldable pub execute_retention_purge : String → String → Option String → Bool → Exec Db PurgeRun
  unfolding run_purge
  execute_retention_purge workspace_id actor_id purge_root dry_run db =
      let policy = get_retention_policy_row workspace_id db.retention in
      elim (purge_refusal policy purge_root) [
        | some reason ↦ (err (policy_denied reason), db)
        | none ↦ elim policy [
          | none ↦ (err (policy_denied "retention_disabled"), db)
          | some p ↦ run_purge workspace_id actor_id dry_run p db
        ]
      ]
