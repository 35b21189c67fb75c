-- ===== src/Deletion/Duties.antt =====
-- Separation of duties, over every sequence of calls.
use schema_pilot.Base.{
  String, ◌≡◌, refl, Bool, true, false, not, ◌&&◌, ◌||◌, some, List, [], ◌∷◌, ◌++◌, ◌==◌,
  if◌then◌else◌, arith, eq_iff, inl, inr, Option-cases, Bool-cases, any, All, get_row, put_row,
}
use schema_pilot.Errors.{Result}
use schema_pilot.Policies.{normalize_decision}
use schema_pilot.Deletion.Workflow.{Request, Approval, Db, request_key, legal_hold_active}
use schema_pilot.Deletion.Approval.{
  submit_deletion_request, decided_row, decide_request, approve_deletion_request,
  get_deletion_request,
}

-- The request may be executed, or was.
abbrev pub is_cleared : Request → Bool
is_cleared r = r.status == "approved" || r.status == "executed"

-- An approval of the request by somebody other than its requester.
abbrev pub is_by_other : Request → Approval → Bool
is_by_other r a =
    a.deletion_request_id == r.deletion_request_id
    && (a.decision == "approve" && not (a.approver_actor_id == r.requester_actor_id))

abbrev pub IsSeparated : List Approval → Request → Type 0
IsSeparated approvals r = (not (is_cleared r) || any (is_by_other r) approvals) ≡ true

abbrev pub IsSafe : Db → Type 0
IsSafe db = All (IsSeparated db.approvals) db.requests

any-append :
    (p : Approval → Bool) (xs ys : List Approval) → any p (xs ++ ys) ≡ (any p xs || any p ys)
any-append p [] ys = refl
any-append p (x ∷ xs) ys = ground (arith, any-append p xs ys)

-- More approvals take nothing away.
All-more :
    (xs ys : List Approval) (rows : List Request)
    → All (IsSeparated xs) rows
    → All (IsSeparated (xs ++ ys)) rows
All-more xs ys [] h = tt
All-more xs ys (r ∷ rows) h =
    (ground (arith, h.0, any-append (is_by_other r) xs ys), All-more xs ys rows h.1)

pub All-put_row :
    (xs : List Approval) (r : Request) (rows : List Request)
    → All (IsSeparated xs) rows
    → IsSeparated xs r
    → All (IsSeparated xs) (put_row request_key r rows)
All-put_row xs r [] h hr = tt
All-put_row xs r (t ∷ rows) h hr =
    elim (Bool-cases (t.deletion_request_id == r.deletion_request_id)) [
      | inl e ↦ rw e (hr, h.1)
      | inr e ↦ rw e (h.0, All-put_row xs r rows h.1 hr)
    ]

All-append :
    (xs : List Approval) (rows : List Request) (r : Request)
    → All (IsSeparated xs) rows
    → IsSeparated xs r
    → All (IsSeparated xs) (rows ++ r ∷ [])
All-append xs [] r h hr = (hr, tt)
All-append xs (t ∷ rows) r h hr = (h.0, All-append xs rows r h.1 hr)

pub All-get_row :
    (xs : List Approval) (k : String) (r : Request) (rows : List Request)
    → All (IsSeparated xs) rows
    → get_row request_key k rows ≡ some r
    → IsSeparated xs r
All-get_row xs k r [] h e = cc
All-get_row xs k r (t ∷ rows) h e = ground (arith, h.0, e, All-get_row xs k r rows h.1)

-- a call that branches leaves a safe state if both branches do
pub if_IsSafe :
    {A : Type 0} (b : Bool) (x y : Result A × Db)
    → IsSafe x.1
    → (b ≡ false → IsSafe y.1)
    → IsSafe (if b then x else y).1
if_IsSafe true x y hx hy = hx
if_IsSafe false x y hx hy = hy refl

pub submit-IsSafe :
    (new_id ws actor selector : String) (snapshots indexes : List String) (db : Db)
    → IsSafe db
    → IsSafe (submit_deletion_request new_id ws actor selector snapshots indexes db).1
unfolding submit_deletion_request
submit-IsSafe new_id ws actor selector snapshots indexes db h =
    All-append db.approvals db.requests
      (submit_deletion_request new_id ws actor selector snapshots indexes db).0 h refl

abbrev approval_of : String → String → String → String → Request → Approval
approval_of approval_id actor decision reason row = record {
  deletion_approval_id = approval_id;
  deletion_request_id = row.deletion_request_id;
  workspace_id = row.workspace_id;
  approver_actor_id = actor;
  decision = decision;
  decision_reason = reason;
}

-- The row that a decision leaves is covered by the approval that it adds.
decided-IsSeparated :
    (approval_id actor decision reason : String) (hold : Bool) (row : Request) (xs : List Approval)
    → (decision == "approve" && row.requester_actor_id == actor) ≡ false
    → IsSeparated
        (xs
          ++ approval_of approval_id actor decision reason (decided_row decision reason hold row)
            ∷ [])
        (decided_row decision reason hold row)
unfolding decided_row
decided-IsSeparated approval_id actor decision reason hold row xs e =
    let a = approval_of approval_id actor decision reason row in
    elim (Bool-cases (decision == "approve")) [
      | inl approves ↦ elim (Bool-cases hold) [
        | inl held ↦ rw (approves, held, decided_row) refl
        | inr free ↦
            rw (free, approves, decided_row)
              (ground (
                arith,
                e,
                approves,
                any-append (is_by_other row) xs (a ∷ []),
                eq_iff row.deletion_request_id row.deletion_request_id,
                eq_iff row.requester_actor_id actor,
                eq_iff actor row.requester_actor_id,
              ))
      ]
      | inr other ↦ elim (Bool-cases (decision == "reject")) [
        | inl rejects ↦ rw (other, rejects, decided_row) refl
        | inr defers ↦ rw (other, defers, decided_row) refl
      ]
    ]

decide-IsSafe :
    (approval_id ws actor decision reason : String) (row : Request) (db : Db)
    → IsSafe db
    → IsSafe (decide_request approval_id ws actor decision reason row db).1
unfolding decide_request
decide-IsSafe approval_id ws actor decision reason row db h =
    elim (Bool-cases (decision == "approve" && row.requester_actor_id == actor)) [
      | inl self ↦ rw (self, decide_request) h
      | inr e ↦
          let a =
            approval_of approval_id actor decision reason
              (decided_row decision reason (legal_hold_active ws db) row) in
          rw (e, decide_request)
            (All-put_row (db.approvals ++ a ∷ [])
              (decided_row decision reason (legal_hold_active ws db) row) db.requests
              (All-more db.approvals (a ∷ []) db.requests h)
              (decided-IsSeparated approval_id actor decision reason (legal_hold_active ws db) row
                db.approvals e))
    ]

pub approve-IsSafe :
    (approval_id ws id actor decision reason : String) (db : Db)
    → IsSafe db
    → IsSafe (approve_deletion_request approval_id ws id actor decision reason db).1
unfolding approve_deletion_request
approve-IsSafe approval_id ws id actor decision reason db h =
    elim (Option-cases (get_deletion_request ws id db)) [
      | inl missing ↦ rw (missing, approve_deletion_request) h
      | inr (row, found) ↦
          rw (found, approve_deletion_request)
            (decide-IsSafe approval_id ws actor (normalize_decision decision) reason row db h)
    ]

pub held_of_get :
    (ws id : String) (row : Request) (db : Db)
    → get_deletion_request ws id db ≡ some row
    → get_row request_key id db.requests ≡ some row
unfolding get_deletion_request
held_of_get ws id row db h = elim (Option-cases (get_row request_key id db.requests)) [
  | inl missing ↦ ground (arith, missing, h)
  | inr (r, e) ↦ ground (arith, e, h)
]
