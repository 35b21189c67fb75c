-- ===== src/PolicyPack/Replays.antt =====
-- The status of a request is not consulted when it is decided.
use mathlib.Core.Path.{subst}
use schema_pilot.Base.{
  String, ◌≡◌, ◌≢◌, refl, sym, ap, ◌∙◌, true, false, some, List, [], ◌==◌, if◌then◌else◌, arith,
  eq_iff, inl, inr, Option-cases, strip, get_row, put_row, key-get_row, get_row-put_row_self,
}
use schema_pilot.Errors.{ok}
use schema_pilot.Policies.{policy_key, normalize_decision}
use schema_pilot.PolicyPack.Invariants.{Pack, evaluate_policy_pack_invariants, load_policy_pack}
use schema_pilot.PolicyPack.Model.{
  Row, Db, find_pack_row, active_state, next_state, get_change_request_row, load_change_request,
}
use schema_pilot.PolicyPack.Decisions.{
  applied, finish_unapplied, apply_pack, decide_row, decide_policy_pack_change, record_review,
  close_row,
}
use schema_pilot.PolicyPack.Rows.{
  get_change_request_row-IsRequest, policies-record_review, find_pack_row-close,
}
use schema_pilot.PolicyPack.RoundTrip.{approve_row}

abbrev IsFound : String → String → Row → List Row → Type 0
IsFound ws id row rows =
    (get_row policy_key id rows ≡ some row)
    × (row.policy_id ≡ id)
    × ((row.workspace_id == ws) ≡ true)
    × ((row.policy_type == "policy_pack_change_request") ≡ true)

IsFound-row :
    (ws id : String) (row : Row) (rows : List Row)
    → get_change_request_row ws id rows ≡ some row
    → IsFound ws id row rows
unfolding get_change_request_row
IsFound-row ws id row rows h = elim (Option-cases (get_row policy_key id rows)) [
  | inl missing ↦ ground (arith, missing, h)
  | inr (r, e) ↦ ground (arith, e, key-get_row policy_key id r rows e, h)
]

row_found :
    (ws id : String) (row : Row) (rows : List Row)
    → IsFound ws id row rows
    → get_change_request_row ws id rows ≡ some row
unfolding get_change_request_row
row_found ws id row rows h = ground arith

-- A request that was rejected or deferred is still found, with what it requests.
found_again :
    (ws id status actor reason : String) (row : Row) (rows : List Row)
    → get_change_request_row ws id rows ≡ some row
    → get_change_request_row ws id (put_row policy_key (close_row status actor reason row) rows)
      ≡ some (close_row status actor reason row)
unfolding close_row
found_again ws id status actor reason row rows h =
    let (held, key, here, typed) = IsFound-row ws id row rows h in
    let again =
      get_row-put_row_self policy_key (close_row status actor reason row) row rows
        (subst (λ k. get_row policy_key k rows ≡ some row) (sym key) held) in
    row_found ws id (close_row status actor reason row)
      (put_row policy_key (close_row status actor reason row) rows)
      (
        subst
            (λ k.
              get_row policy_key k (put_row policy_key (close_row status actor reason row) rows)
              ≡ some (close_row status actor reason row))
            key again,
        key,
        here,
        typed,
      )

abbrev closing_status : String → String
closing_status d = if d == "reject" then "rejected" else "deferred"

module _ (packs : List Pack) (a u new_id ws id actor reason : String) where
  decide_result :
      (decision d : String) (row : Row) (db : Db)
      → get_change_request_row ws id db.policies ≡ some row
      → normalize_decision decision ≡ d
      → decide_policy_pack_change packs a u new_id ws id actor decision reason false db ≡ (
        some (decide_row packs a u new_id ws id actor d reason false row db).0,
        (decide_row packs a u new_id ws id actor d reason false row db).1,
      )
  unfolding decide_policy_pack_change
  decide_result decision d row db found e = rw (found, e, decide_policy_pack_change) refl

  unapproved-policies :
      (d : String) (row : Row) (db : Db)
      → (d == "approve") ≡ false
      → (decide_row packs a u new_id ws id actor d reason false row db).1.policies
        ≡ put_row policy_key (close_row (closing_status d) actor reason row) db.policies
  unfolding decide_row finish_unapplied
  unapproved-policies d row db e =
      rw (e, decide_row)
        (ap (put_row policy_key (close_row (closing_status d) actor reason row)) (
          policies-record_review a u ws (load_change_request row.definition_ref).review_task_id
            actor d reason db))

  apply_pack-result :
      (row : Row) (db : Db)
      → (apply_pack new_id ws id actor reason row db).0
        ≡ ok (
            applied id (
              next_state ws
                (strip (load_change_request row.definition_ref).requested_pack_id)
                (load_change_request row.definition_ref).requested_pack_checksum
                (active_state (find_pack_row ws db.policies))))
  unfolding apply_pack
  apply_pack-result row db = refl

  -- A request that was closed, as rejected or deferred, can still be approved: the later approval puts
  -- its pack in force as if there had been no earlier decision.
  pub approve_after_close :
      (first second : String) (row : Row) (db : Db) (pack : Pack)
      → get_change_request_row ws id db.policies ≡ some row
      → normalize_decision first ≢ "approve"
      → normalize_decision second ≡ "approve"
      → load_policy_pack (strip (load_change_request row.definition_ref).requested_pack_id) packs
        ≡ some pack
      → evaluate_policy_pack_invariants pack ≡ []
      → let closed_db =
          (decide_policy_pack_change packs a u new_id ws id actor first reason false db).1 in
        (decide_policy_pack_change packs a u new_id ws id actor second reason false closed_db).0
        ≡ some (
            ok (
              applied id (
                next_state ws
                  (strip (load_change_request row.definition_ref).requested_pack_id)
                  (load_change_request row.definition_ref).requested_pack_checksum
                  (active_state (find_pack_row ws db.policies)))))
  unfolding close_row
  approve_after_close first second row db pack found not_approved approved loads sound =
      let d = normalize_decision first in
      let closed_row = close_row (closing_status d) actor reason row in
      let closed_db =
        (decide_policy_pack_change packs a u new_id ws id actor first reason false db).1 in
      let rows : closed_db.policies ≡ put_row policy_key closed_row db.policies =
        ap (λ o. o.1.policies) (decide_result first d row db found refl)
        ∙ unapproved-policies d row db (ground (arith, not_approved, eq_iff d "approve")) in
      let found' : get_change_request_row ws id closed_db.policies ≡ some closed_row =
        ap (get_change_request_row ws id) rows
        ∙ found_again ws id (closing_status d) actor reason row db.policies found in
      let reviewed =
        record_review a u ws (load_change_request closed_row.definition_ref).review_task_id actor
          "approve" reason closed_db in
      let active : find_pack_row ws reviewed.policies ≡ find_pack_row ws db.policies =
        ap (find_pack_row ws) (
          policies-record_review a u ws
            (load_change_request closed_row.definition_ref).review_task_id actor "approve" reason
            closed_db
          ∙ rows)
        ∙ find_pack_row-close ws (closing_status d) actor reason row db.policies
            (get_change_request_row-IsRequest ws id row db.policies found) in
      ap (λ o. o.0) (decide_result second "approve" closed_row closed_db found' approved)
      ∙ ap (λ o. some o.0)
          (approve_row packs a u new_id ws id actor reason closed_row closed_db pack loads sound)
      ∙ ap some (apply_pack-result closed_row reviewed)
      ∙ ap
          (λ o. some (
            ok (
              applied id (
                next_state ws (strip (load_change_request row.definition_ref).requested_pack_id)
                  (load_change_request row.definition_ref).requested_pack_checksum
                  (active_state o)))))
          active
