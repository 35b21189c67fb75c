-- ===== src/Deletion/Traces.antt =====
-- Sequences of calls, with changes of the retention policies between them.
use schema_pilot.Base.{
  ℕ, String, ◌≡◌, ◌≢◌, Bool, true, Option, none, some, List, [], ◌∷◌, arith, eq_iff, inl, inr, any,
  find, find_passes, get_row, Option-cases,
}
use schema_pilot.Evidence.{Sealer}
use schema_pilot.Retention.{RetentionPolicy}
use schema_pilot.Deletion.Workflow.{Request, Approval, Db, request_key}
use schema_pilot.Deletion.Approval.{submit_deletion_request, approve_deletion_request}
use schema_pilot.Deletion.Execution.{DeletionEvidence, AttestationPayload, execute_deletion_request}
use schema_pilot.Deletion.Duties.{
  IsSafe, is_cleared, is_by_other, submit-IsSafe, approve-IsSafe, All-get_row,
}
use schema_pilot.Deletion.Safety.{execute-IsSafe}

any-find : (p : Approval → Bool) (xs : List Approval) → any p xs ≡ true → find p xs ≢ none
any-find p [] h = cc
any-find p (x ∷ xs) h = ground (arith, h, any-find p xs)

by_other_parts :
    (r : Request) (a : Approval)
    → is_by_other r a ≡ true
    → (a.deletion_request_id ≡ r.deletion_request_id)
      × (a.decision ≡ "approve")
      × (a.approver_actor_id ≢ r.requester_actor_id)
by_other_parts r a h = ground (
  arith,
  eq_iff a.deletion_request_id r.deletion_request_id,
  eq_iff a.decision "approve",
  eq_iff a.approver_actor_id r.requester_actor_id,
)

IsSafe-of_empty : (db : Db) → db.requests ≡ [] → IsSafe db
IsSafe-of_empty db empty = rw empty tt

module _ (sealer : Sealer DeletionEvidence) (sign : AttestationPayload → String) where
  -- One call of the service, by whatever caller and at whatever time, or a change of the retention
  -- policies; a call that raises counts with what it had written.
  pub data Step (db : Db) : Db → Type 0 where
    submit :
        (new_id ws actor selector : String) (snapshots indexes : List String)
        → Step db (submit_deletion_request new_id ws actor selector snapshots indexes db).1
    decide :
        (approval_id ws id actor decision reason : String)
        → Step db (approve_deletion_request approval_id ws id actor decision reason db).1
    execute :
        (now : ℕ) (deletion_id path ws id : String) (backup : Option String)
        → Step db (execute_deletion_request sealer sign now deletion_id path ws id backup db).1
    configure : (rows : List RetentionPolicy) → Step db (record db { retention = rows })

  pub data Reach (db : Db) : Db → Type 0 where
    here : Reach db db
    next : {t u : Db} → Reach db t → Step t u → Reach db u

  Step-IsSafe : {t u : Db} → Step t u → IsSafe t → IsSafe u
  Step-IsSafe {t} (submit new_id ws actor selector snapshots indexes) h =
      submit-IsSafe new_id ws actor selector snapshots indexes t h
  Step-IsSafe {t} (decide approval_id ws id actor decision reason) h =
      approve-IsSafe approval_id ws id actor decision reason t h
  Step-IsSafe {t} (execute now deletion_id path ws id backup) h =
      execute-IsSafe sealer sign now deletion_id path ws id backup t h
  Step-IsSafe (configure rows) h = h

  Reach-IsSafe : {s t : Db} → IsSafe s → Reach s t → IsSafe t
  Reach-IsSafe h here = h
  Reach-IsSafe h (next r st) = Step-IsSafe st (Reach-IsSafe h r)

  -- From tables with no requests, after any calls: a request that is approved or executed has been
  -- approved by an actor other than its requester.
  pub cleared_by_other :
      {start db : Db} (id : String) (r : Request)
      → start.requests ≡ []
      → Reach start db
      → get_row request_key id db.requests ≡ some r
      → is_cleared r ≡ true
      → (a : Approval) × (find (is_by_other r) db.approvals ≡ some a)
        × (a.deletion_request_id ≡ r.deletion_request_id)
        × (a.decision ≡ "approve")
        × (a.approver_actor_id ≢ r.requester_actor_id)
  cleared_by_other {start} {db} id r empty reached found cleared =
      let safe : IsSafe start = IsSafe-of_empty start empty in
      let separated = All-get_row db.approvals id r db.requests (Reach-IsSafe safe reached) found in
      let some_other : any (is_by_other r) db.approvals ≡ true =
        ground (arith, separated, cleared) in
      elim (Option-cases (find (is_by_other r) db.approvals)) [
        | inl nobody ↦ absurd (any-find (is_by_other r) db.approvals some_other nobody)
        | inr (a, e) ↦
            let (same, approves, other) =
              by_other_parts r a (find_passes (is_by_other r) a db.approvals e) in
            (a, e, same, approves, other)
      ]
