-- ===== src/PolicyPack/Rows.antt =====
-- The rows that the operations write, as the query for the pack in force sees them.
use schema_pilot.Base.{
  String, ◌≡◌, refl, ◌∙◌, Bool, true, false, some, List, [], ◌∷◌, ◌==◌, arith, eq_iff, eq_refl, inl,
  inr, Option-cases, get_row, put_row, IsKeyed, find-put_row_self, find-put_row_unseen,
  find-append_none, find_passes, get_row_of_find, get_row-append_some, get_row-put_row_ne,
  key-get_row,
}
use schema_pilot.Policies.{policy_key, is_active}
use schema_pilot.PolicyPack.Model.{
  PackState, Row, active_pack, Db, find_pack_row, write_active, get_change_request_row,
}
use schema_pilot.PolicyPack.Decisions.{close_row, record_review}

-- A row of a change request that the table holds.
pub record IsRequest (row : Row) (rows : List Row) : Type 0 where
  pub held : get_row policy_key row.policy_id rows ≡ some row
  pub typed : row.policy_type ≡ "policy_pack_change_request"

pub get_change_request_row-IsRequest :
    (ws id : String) (row : Row) (rows : List Row)
    → get_change_request_row ws id rows ≡ some row
    → IsRequest row rows
unfolding get_change_request_row
get_change_request_row-IsRequest ws id row rows h =
    elim (Option-cases (get_row policy_key id rows)) [
      | inl missing ↦ cc (missing, h)
      | inr (found, e) ↦
          let k : found.policy_id ≡ id = key-get_row policy_key id found rows e in
          ground (
            arith,
            e,
            k,
            h,
            eq_iff found.workspace_id ws,
            eq_iff found.policy_type "policy_pack_change_request",
          )
    ]

pub policies-record_review :
    (a u ws task actor d reason : String) (db : Db)
    → (record_review a u ws task actor d reason db).policies ≡ db.policies
unfolding record_review
policies-record_review a u ws task actor d reason db = ground arith

-- A change request is not a pack in force, in whatever workspace.
request_not_active :
    (row : Row) (ws : String)
    → row.policy_type ≡ "policy_pack_change_request"
    → is_active ws "policy_pack" row ≡ false
request_not_active row ws h = rw h (ground arith)

pub find_pack_row-close :
    (ws status actor reason : String) (row : Row) (rows : List Row)
    → IsRequest row rows
    → find_pack_row ws (put_row policy_key (close_row status actor reason row) rows)
      ≡ find_pack_row ws rows
unfolding close_row
find_pack_row-close ws status actor reason row rows h =
    find-put_row_unseen policy_key (is_active ws "policy_pack") (close_row status actor reason row)
      row rows h.held (request_not_active row ws h.typed)
      (request_not_active (close_row status actor reason row) ws h.typed)

abbrev new_row : String → String → PackState → Row
new_row new_id ws state = record {
  policy_id = new_id;
  workspace_id = ws;
  policy_type = "policy_pack";
  definition_ref = active_pack state;
  status = "active";
}

abbrev write_over : Row → PackState → Row
write_over row state = record row { definition_ref = active_pack state; status = "active" }

still_active :
    (ws : String) (row : Row) (state : PackState)
    → is_active ws "policy_pack" row ≡ true
    → is_active ws "policy_pack" (write_over row state) ≡ true
still_active ws row state h = ground arith

-- After `write_active` the query finds the state that was written.
pub find_pack_row-write :
    (new_id ws : String) (state : PackState) (rows : List Row)
    → IsKeyed policy_key rows
    → (r : Row) × (find_pack_row ws (write_active new_id ws state (find_pack_row ws rows) rows)
        ≡ some r)
      × (r.definition_ref ≡ active_pack state)
unfolding write_active
find_pack_row-write new_id ws state rows keyed = elim (Option-cases (find_pack_row ws rows)) [
  | inl e ↦
      rw (e, write_active)
        (
          new_row new_id ws state,
          find-append_none test rows (new_row new_id ws state ∷ []) e ∙ simp eq_refl,
          refl,
        )
  | inr (old, e) ↦
      rw (e, write_active)
        (
          write_over old state,
          find-put_row_self policy_key test (write_over old state) old rows
              (get_row_of_find policy_key test old rows keyed e) e
              (still_active ws old state (find_passes test old rows e)),
          refl,
        )
]
  where
    test : Row → Bool
    test = is_active ws "policy_pack"

other_key :
    (ws : String) (row old : Row) (rows : List Row)
    → IsKeyed policy_key rows
    → IsRequest row rows
    → find_pack_row ws rows ≡ some old
    → (old.policy_id == row.policy_id) ≡ false
other_key ws row old rows keyed h e = ground (
  arith,
  eq_iff old.policy_id row.policy_id,
  get_row_of_find policy_key (is_active ws "policy_pack") old rows keyed e,
  h.held,
  request_not_active row ws h.typed,
  find_passes (is_active ws "policy_pack") old rows e,
)

-- Writing the active pack leaves the request's row where it is.
pub write_active-IsRequest :
    (new_id ws : String) (state : PackState) (row : Row) (rows : List Row)
    → IsKeyed policy_key rows
    → IsRequest row rows
    → IsRequest row (write_active new_id ws state (find_pack_row ws rows) rows)
unfolding write_active
write_active-IsRequest new_id ws state row rows keyed h =
    elim (Option-cases (find_pack_row ws rows)) [
      | inl e ↦
          rw (e, write_active)
            (record {
              held =
                  get_row-append_some policy_key row.policy_id row rows
                    (new_row new_id ws state ∷ []) h.held;
              typed = h.typed;
            })
      | inr (old, e) ↦
          rw (e, write_active)
            (record {
              held =
                  get_row-put_row_ne policy_key (write_over old state) row.policy_id rows
                    (other_key ws row old rows keyed h e)
                  ∙ h.held;
              typed = h.typed;
            })
    ]
