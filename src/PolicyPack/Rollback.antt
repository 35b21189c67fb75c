-- ===== src/PolicyPack/Rollback.antt =====
-- Rolling the policy pack back, and promoting a canary.
use schema_pilot.Base.{
  String, ◌||◌, Option, none, some, List, if◌then◌else◌, strip, is_empty, put_row,
}
use schema_pilot.Errors.{ok, err, policy_denied, Exec}
use schema_pilot.Policies.{policy_key}
use schema_pilot.PolicyPack.Model.{
  PackState, Canary, Row, active_pack, canary, load_pack_state, load_canary, Db, find_pack_row,
  find_canary_row, active_state, next_state, write_active,
}

-- the new state: the previous pack, with its whitespace taken off, one version on
unfoldable pub rollback_row : String → Row → Exec Db PackState
rollback_row workspace_id row db =
    let active = load_pack_state row.definition_ref in
    let previous_pack_id = strip active.previous_pack_id in
    let previous_checksum = strip active.previous_pack_checksum in
    if is_empty previous_pack_id || is_empty previous_checksum
    then (err (policy_denied "policy_pack_rollback_unavailable"), db)
    else let state = next_state workspace_id previous_pack_id previous_checksum active in
      (
        ok state,
        record db {
          policies =
              put_row policy_key (record row { definition_ref = active_pack state }) db.policies;
        },
      )

unfoldable pub rollback_policy_pack : String → Exec Db PackState
rollback_policy_pack workspace_id db = elim (find_pack_row workspace_id db.policies) [
  | none ↦ (err (policy_denied "policy_pack_not_configured"), db)
  | some row ↦ rollback_row workspace_id row db
]

-- the answer names the workspace that was asked for
unfoldable pub get_policy_pack_canary : String → Db → Option Canary
get_policy_pack_canary workspace_id db = elim (find_canary_row workspace_id db.policies) [
  | none ↦ none
  | some row ↦
      let definition = load_canary row.definition_ref in
      some (record definition { workspace_id = workspace_id })
]

-- the canary row, once the pack is in force
unfoldable pub close_canary : String → String → List Row → List Row
close_canary workspace_id actor_id rows = elim (find_canary_row workspace_id rows) [
  | none ↦ rows
  | some row ↦
      let definition = load_canary row.definition_ref in
      put_row policy_key
        (record row {
          definition_ref =
              canary (record definition { status = "promoted"; promoted_by = actor_id });
          status = "promoted";
        })
        rows
]

-- The state in force and the change request of the canary.
unfoldable pub promote_policy_pack_canary : String → String → String → Exec Db (PackState × String)
unfolding get_policy_pack_canary close_canary
promote_policy_pack_canary new_id workspace_id actor_id db =
    elim (get_policy_pack_canary workspace_id db) [
      | none ↦ (err (policy_denied "policy_pack_canary_not_found"), db)
      | some c ↦
          let active_row = find_pack_row workspace_id db.policies in
          let state = next_state workspace_id c.pack_id c.pack_checksum (active_state active_row) in
          let rows = write_active new_id workspace_id state active_row db.policies in
          (
            ok (state, c.change_request_id),
            record db { policies = close_canary workspace_id actor_id rows },
          )
    ]
