-- ===== src/PolicyPack/RoundTrip.antt =====
-- An applied change can be rolled back.
use mathlib.Core.Path.{subst}
use schema_pilot.Base.{
  String, ◌≡◌, refl, sym, ap, ◌∙◌, false, some, List, [], arith, strip, is_empty, IsKeyed,
  IsKeyed-put_row, Bool, put_row, find-put_row_self, get_row_of_find, find_passes,
}
use schema_pilot.Errors.{ok}
use schema_pilot.Policies.{policy_key, is_active, normalize_decision}
use schema_pilot.PolicyPack.Invariants.{Pack, evaluate_policy_pack_invariants, load_policy_pack}
use schema_pilot.PolicyPack.Model.{
  PackState, Row, active_pack, Db, find_pack_row, active_state, next_state, get_change_request_row,
  get_effective_policy_pack, load_change_request, load_pack_state, write_active,
}
use schema_pilot.PolicyPack.Decisions.{
  apply_pack, approve_change, decide_row, decide_policy_pack_change, record_review,
}
use schema_pilot.PolicyPack.Rollback.{rollback_policy_pack, rollback_row}
use schema_pilot.PolicyPack.Rows.{
  IsRequest, get_change_request_row-IsRequest, policies-record_review,
}
use schema_pilot.PolicyPack.InForce.{apply_pack-row}

-- A name or checksum that the rollback accepts as it stands.
abbrev IsClean : String → Type 0
IsClean t = (strip t ≡ t) × (is_empty t ≡ false)

rollback_row-ok :
    (ws : String) (row : Row) (db : Db) (state : PackState)
    → row.definition_ref ≡ active_pack state
    → IsClean state.previous_pack_id
    → IsClean state.previous_pack_checksum
    → (rollback_row ws row db).0
      ≡ ok (next_state ws state.previous_pack_id state.previous_pack_checksum state)
unfolding rollback_row
rollback_row-ok ws row db state e p c = rw (e, p.0, c.0, p.1, c.1, rollback_row) refl

rollback_found :
    (ws : String) (row : Row) (db : Db)
    → find_pack_row ws db.policies ≡ some row
    → rollback_policy_pack ws db ≡ rollback_row ws row db
unfolding rollback_policy_pack
rollback_found ws row db e = rw (e, rollback_policy_pack) refl

-- What the query for the active row shows.
effective_found :
    (ws : String) (row : Row) (state : PackState) (db : Db)
    → find_pack_row ws db.policies ≡ some row
    → row.definition_ref ≡ active_pack state
    → state.workspace_id ≡ ws
    → get_effective_policy_pack ws db ≡ some state
unfolding get_effective_policy_pack
effective_found ws row state db found holds here =
    rw (found, get_effective_policy_pack, holds) (ground arith)

rollback-ok :
    (ws : String) (row : Row) (state : PackState) (db : Db)
    → find_pack_row ws db.policies ≡ some row
    → row.definition_ref ≡ active_pack state
    → IsClean state.previous_pack_id
    → IsClean state.previous_pack_checksum
    → (rollback_policy_pack ws db).0
      ≡ ok (next_state ws state.previous_pack_id state.previous_pack_checksum state)
rollback-ok ws row state db found holds p c =
    rw (rollback_found ws row db found) (rollback_row-ok ws row db state holds p c)

-- the tables once the rollback has written the row
rolled_back : Row → PackState → Db → Db
rolled_back row state db = record db {
  policies = put_row policy_key (record row { definition_ref = active_pack state }) db.policies;
}

rollback-writes :
    (ws : String) (row : Row) (state : PackState) (db : Db)
    → find_pack_row ws db.policies ≡ some row
    → row.definition_ref ≡ active_pack state
    → IsClean state.previous_pack_id
    → IsClean state.previous_pack_checksum
    → (rollback_policy_pack ws db).1
      ≡ rolled_back row (next_state ws state.previous_pack_id state.previous_pack_checksum state) db
unfolding rollback_row rolled_back
rollback-writes ws row state db found e p c =
    ap (λ o. o.1) (rollback_found ws row db found) ∙ rw (e, p.0, c.0, p.1, c.1, rollback_row) refl

effective-rollback :
    (ws : String) (row : Row) (state : PackState) (db : Db)
    → IsKeyed policy_key db.policies
    → find_pack_row ws db.policies ≡ some row
    → row.definition_ref ≡ active_pack state
    → IsClean state.previous_pack_id
    → IsClean state.previous_pack_checksum
    → get_effective_policy_pack ws (rollback_policy_pack ws db).1
      ≡ some (next_state ws state.previous_pack_id state.previous_pack_checksum state)
unfolding rolled_back
effective-rollback ws row state db keyed found holds p c =
    let after = next_state ws state.previous_pack_id state.previous_pack_checksum state in
    let row' : Row = record row { definition_ref = active_pack after } in
    let active : Row → Bool = is_active ws "policy_pack" in
    ap (get_effective_policy_pack ws) (rollback-writes ws row state db found holds p c)
    ∙ effective_found ws row' after (rolled_back row after db)
        (find-put_row_self policy_key active row' row db.policies
          (get_row_of_find policy_key active row db.policies keyed found) found
          (find_passes active row db.policies found))
        refl refl

write_active-IsKeyed :
    (new_id ws : String) (state : PackState) (old : Row) (rows : List Row)
    → IsKeyed policy_key rows
    → find_pack_row ws rows ≡ some old
    → IsKeyed policy_key (write_active new_id ws state (find_pack_row ws rows) rows)
unfolding write_active
write_active-IsKeyed new_id ws state old rows keyed found =
    subst (λ o. IsKeyed policy_key (write_active new_id ws state o rows)) (sym found)
      (IsKeyed-put_row policy_key
        (record old { definition_ref = active_pack state; status = "active" }) rows keyed)

apply_pack-IsKeyed :
    (new_id ws id actor reason : String) (row old : Row) (db : Db)
    → IsKeyed policy_key db.policies
    → find_pack_row ws db.policies ≡ some old
    → IsKeyed policy_key (apply_pack new_id ws id actor reason row db).1.policies
unfolding apply_pack
apply_pack-IsKeyed new_id ws id actor reason row old db keyed found =
    IsKeyed-put_row policy_key _ _ (write_active-IsKeyed new_id ws _ old db.policies keyed found)

module _ (packs : List Pack) (a u new_id ws id actor reason : String) where
  pub approve_row :
      (row : Row) (db : Db) (pack : Pack)
      → let staged = load_change_request row.definition_ref in
        load_policy_pack (strip staged.requested_pack_id) packs ≡ some pack
        → evaluate_policy_pack_invariants pack ≡ []
        → decide_row packs a u new_id ws id actor "approve" reason false row db
          ≡ apply_pack new_id ws id actor reason row (
              record_review a u ws
                (load_change_request row.definition_ref).review_task_id
                actor
                "approve"
                reason
                db)
  unfolding decide_row approve_change
  approve_row row db pack loads sound = ground (arith, loads, sound)

  decide_found :
      (decision : String) (row : Row) (db : Db)
      → get_change_request_row ws id db.policies ≡ some row
      → (decide_policy_pack_change packs a u new_id ws id actor decision reason false db).1
        ≡ (decide_row packs a u new_id ws id actor
            (normalize_decision decision)
            reason
            false
            row
            db).1
  unfolding decide_policy_pack_change
  decide_found decision row db found = rw (found, decide_policy_pack_change) refl

  -- Approving a change of a sound pack puts that pack in force one version on; the rollback that
  -- follows answers the pack and the checksum that were in force before, at the version after it, and
  -- that is then the state in force.
  pub apply-rollback :
      (decision : String) (row old : Row) (db : Db) (pack : Pack)
      → IsKeyed policy_key db.policies
      → get_change_request_row ws id db.policies ≡ some row
      → normalize_decision decision ≡ "approve"
      → load_policy_pack (strip (load_change_request row.definition_ref).requested_pack_id) packs
        ≡ some pack
      → evaluate_policy_pack_invariants pack ≡ []
      → find_pack_row ws db.policies ≡ some old
      → IsClean (load_pack_state old.definition_ref).pack_id
      → IsClean (load_pack_state old.definition_ref).pack_checksum
      → let before = load_pack_state old.definition_ref in
        let staged = load_change_request row.definition_ref in
        let db' =
          (decide_policy_pack_change packs a u new_id ws id actor decision reason false db).1 in
        let requested =
          next_state ws (strip staged.requested_pack_id) staged.requested_pack_checksum before in
        (get_effective_policy_pack ws db' ≡ some requested)
        × ((rollback_policy_pack ws db').0
            ≡ ok (next_state ws before.pack_id before.pack_checksum requested))
        × (get_effective_policy_pack ws (rollback_policy_pack ws db').1
            ≡ some (next_state ws before.pack_id before.pack_checksum requested))
  apply-rollback decision row old db pack keyed found approved loads sound active name checksum =
      let staged = load_change_request row.definition_ref in
      let request = get_change_request_row-IsRequest ws id row db.policies found in
      let reviewed = record_review a u ws staged.review_task_id actor "approve" reason db in
      let same : reviewed.policies ≡ db.policies =
        policies-record_review a u ws staged.review_task_id actor "approve" reason db in
      let (r, in_force, holds) =
        apply_pack-row new_id ws id actor reason row reviewed
          (subst (IsKeyed policy_key) (sym same) keyed)
          (subst (IsRequest row) (sym same) request) in
      let before : active_state (find_pack_row ws reviewed.policies)
          ≡ load_pack_state old.definition_ref =
        ap active_state (ap (find_pack_row ws) same ∙ active) in
      let made : (decide_policy_pack_change packs a u new_id ws id actor decision reason false db).1
          ≡ (apply_pack new_id ws id actor reason row reviewed).1 =
        decide_found decision row db found
        ∙ ap (λ d. (decide_row packs a u new_id ws id actor d reason false row db).1) approved
        ∙ ap (λ o. o.1) (approve_row row db pack loads sound) in
      let requested =
        next_state ws (strip staged.requested_pack_id) staged.requested_pack_checksum
          (load_pack_state old.definition_ref) in
      let written : r.definition_ref ≡ active_pack requested =
        holds
        ∙ ap
            (λ s.
              active_pack
                (next_state ws (strip staged.requested_pack_id) staged.requested_pack_checksum s))
            before in
      rw made (
        effective_found ws r requested (apply_pack new_id ws id actor reason row reviewed).1
            in_force written refl,
        rollback-ok ws r requested (apply_pack new_id ws id actor reason row reviewed).1 in_force
            written name checksum,
        effective-rollback ws r requested (apply_pack new_id ws id actor reason row reviewed).1
            (apply_pack-IsKeyed new_id ws id actor reason row old reviewed
              (subst (IsKeyed policy_key) (sym same) keyed) (ap (find_pack_row ws) same ∙ active))
            in_force written name checksum,
      )
