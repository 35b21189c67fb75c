-- ===== src/PolicyPack/Guards.antt =====
-- A canary leaves the pack in force, and the request, as they were.
use schema_pilot.Base.{
  String, ◌≡◌, ◌≢◌, ◌∙◌, true, false, some, List, [], ◌∷◌, ◌==◌, arith, eq_iff, inl, inr,
  Option-cases, strip, IsKeyed, get_row_of_find, find-put_row_unseen, find-append_unseen,
  find_passes, get_row-append_some, get_row-put_row_ne,
}
use schema_pilot.Policies.{policy_key, is_active}
use schema_pilot.PolicyPack.Model.{
  Canary, Row, canary, Db, find_pack_row, find_canary_row, load_change_request,
}
use schema_pilot.PolicyPack.Decisions.{upsert_policy_pack_canary, start_canary}
use schema_pilot.PolicyPack.Rows.{IsRequest, find_pack_row-close}

abbrev new_canary : String → String → Canary → Row
new_canary new_id ws payload = record {
  policy_id = new_id;
  workspace_id = ws;
  policy_type = "policy_pack_canary";
  definition_ref = canary payload;
  status = "active";
}

abbrev over_canary : Row → Canary → Row
over_canary row payload = record row { definition_ref = canary payload; status = "active" }

canary_typed :
    (ws : String) (row : Row)
    → is_active ws "policy_pack_canary" row ≡ true
    → row.policy_type ≡ "policy_pack_canary"
canary_typed ws row h = ground (arith, eq_iff row.policy_type "policy_pack_canary")

types_differ : ◌≢◌ {A = String} "policy_pack_canary" "policy_pack_change_request"
types_differ = ground (arith, eq_iff "policy_pack_canary" "policy_pack_change_request")

-- A canary is no pack in force, and no change request.
canary_not_pack :
    (ws w : String) (row : Row) (payload : Canary)
    → is_active ws "policy_pack_canary" row ≡ true
    → (is_active w "policy_pack" row ≡ false)
      × (is_active w "policy_pack" (over_canary row payload) ≡ false)
canary_not_pack ws w row payload h = rw (canary_typed ws row h) (ground arith, ground arith)

upsert-find :
    (new_id ws w : String) (payload : Canary) (rows : List Row)
    → IsKeyed policy_key rows
    → find_pack_row w (upsert_policy_pack_canary new_id ws payload rows) ≡ find_pack_row w rows
unfolding upsert_policy_pack_canary
upsert-find new_id ws w payload rows keyed = elim (Option-cases (find_canary_row ws rows)) [
  | inl e ↦
      rw (e, upsert_policy_pack_canary)
        (find-append_unseen (is_active w "policy_pack") (new_canary new_id ws payload) rows
          (ground arith))
  | inr (old, e) ↦
      let (before, after) =
        canary_not_pack ws w old payload
          (find_passes (is_active ws "policy_pack_canary") old rows e) in
      rw (e, upsert_policy_pack_canary)
        (find-put_row_unseen policy_key (is_active w "policy_pack") (over_canary old payload) old
          rows (get_row_of_find policy_key (is_active ws "policy_pack_canary") old rows keyed e)
          before after)
]

other_key :
    (ws : String) (row old : Row) (rows : List Row)
    → IsKeyed policy_key rows
    → IsRequest row rows
    → find_canary_row ws rows ≡ some old
    → (old.policy_id == row.policy_id) ≡ false
other_key ws row old rows keyed h e = ground (
  arith,
  eq_iff old.policy_id row.policy_id,
  get_row_of_find policy_key (is_active ws "policy_pack_canary") old rows keyed e,
  h.held,
  h.typed,
  canary_typed ws old (find_passes (is_active ws "policy_pack_canary") old rows e),
  types_differ,
)

upsert-IsRequest :
    (new_id ws : String) (payload : Canary) (row : Row) (rows : List Row)
    → IsKeyed policy_key rows
    → IsRequest row rows
    → IsRequest row (upsert_policy_pack_canary new_id ws payload rows)
unfolding upsert_policy_pack_canary
upsert-IsRequest new_id ws payload row rows keyed h =
    elim (Option-cases (find_canary_row ws rows)) [
      | inl e ↦
          rw (e, upsert_policy_pack_canary)
            (record {
              held =
                  get_row-append_some policy_key row.policy_id row rows
                    (new_canary new_id ws payload ∷ []) h.held;
              typed = h.typed;
            })
      | inr (old, e) ↦
          rw (e, upsert_policy_pack_canary)
            (record {
              held =
                  get_row-put_row_ne policy_key (over_canary old payload) row.policy_id rows
                    (other_key ws row old rows keyed h e)
                  ∙ h.held;
              typed = h.typed;
            })
    ]

pub start_canary-keeps :
    (new_id ws id actor reason w : String) (row : Row) (db : Db)
    → IsKeyed policy_key db.policies
    → IsRequest row db.policies
    → find_pack_row w (start_canary new_id ws id actor reason row db).1.policies
      ≡ find_pack_row w db.policies
unfolding start_canary
start_canary-keeps new_id ws id actor reason w row db keyed h =
    let staged = load_change_request row.definition_ref in
    let payload : Canary = record {
      workspace_id = ws;
      pack_id = strip staged.requested_pack_id;
      pack_checksum = staged.requested_pack_checksum;
      requested_by = staged.requester_actor_id;
      approved_by = actor;
      change_request_id = id;
      status = "canary_active";
      promoted_by = "";
    } in
    find_pack_row-close w "canary_active" actor reason row
      (upsert_policy_pack_canary new_id ws payload db.policies)
      (upsert-IsRequest new_id ws payload row db.policies keyed h)
    ∙ upsert-find new_id ws w payload db.policies keyed
