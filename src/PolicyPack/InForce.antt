-- ===== src/PolicyPack/InForce.antt =====
-- Which pack is in force after a decision, a rollback or a promotion.
use schema_pilot.Base.{String, ◌≡◌, ◌∙◌, some, strip, IsKeyed}
use schema_pilot.Policies.{policy_key}
use schema_pilot.PolicyPack.Model.{
  Row, active_pack, Db, find_pack_row, active_state, next_state, write_active,
  get_effective_policy_pack, load_change_request,
}
use schema_pilot.PolicyPack.Decisions.{finish_unapplied, apply_pack}
use schema_pilot.PolicyPack.Rows.{
  IsRequest, find_pack_row-close, find_pack_row-write, write_active-IsRequest,
}

-- The pack in force is what the query for its row gives.
pub effective-eq :
    (ws : String) (db db' : Db)
    → find_pack_row ws db'.policies ≡ find_pack_row ws db.policies
    → get_effective_policy_pack ws db' ≡ get_effective_policy_pack ws db
unfolding get_effective_policy_pack
effective-eq ws db db' h = rw (h, get_effective_policy_pack)

pub finish_unapplied-keeps :
    (ws decision actor reason : String) (row : Row) (db : Db)
    → IsRequest row db.policies
    → find_pack_row ws (finish_unapplied decision actor reason row db).1.policies
      ≡ find_pack_row ws db.policies
unfolding finish_unapplied
finish_unapplied-keeps ws decision actor reason row db h =
    find_pack_row-close ws _ actor reason row db.policies h

-- The active row once `apply_pack` has run.
pub apply_pack-row :
    (new_id ws id actor reason : String) (row : Row) (db : Db)
    → IsKeyed policy_key db.policies
    → IsRequest row db.policies
    → let staged = load_change_request row.definition_ref in
      let state =
        next_state ws
          (strip staged.requested_pack_id)
          staged.requested_pack_checksum
          (active_state (find_pack_row ws db.policies)) in
      (r : Row) × (find_pack_row ws (apply_pack new_id ws id actor reason row db).1.policies
        ≡ some r)
      × (r.definition_ref ≡ active_pack state)
unfolding apply_pack
apply_pack-row new_id ws id actor reason row db keyed h =
    let staged = load_change_request row.definition_ref in
    let state =
      next_state ws (strip staged.requested_pack_id) staged.requested_pack_checksum
        (active_state (find_pack_row ws db.policies)) in
    let (r, found, holds) = find_pack_row-write new_id ws state db.policies keyed in
    (
      r,
      find_pack_row-close ws "applied" actor reason row
            (write_active new_id ws state (find_pack_row ws db.policies) db.policies)
            (write_active-IsRequest new_id ws state row db.policies keyed h)
          ∙ found,
      holds,
    )
