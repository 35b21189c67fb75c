-- ===== src/Review/Counts.antt =====
-- How the number of unresolved blocking tasks moves.
use mathlib.Core.Path.{subst}
use schema_pilot.Base.{
  ℕ, ◌+◌, String, ◌≡◌, refl, Bool, true, false, ◌&&◌, some, List, [], ◌∷◌, ◌==◌, eq_iff, arith,
  length, keep, get_row, put_row, inl, inr, Bool-cases, keep-append, key-get_row, sym,
  length-append,
}
use schema_pilot.Review.{
  Review, Task, task_key, create_review_task, decide_review_task, decided_status, is_blocking_in,
  unresolved_blocking_task_count,
}

abbrev bit : Bool → ℕ
bit true = 1
bit false = 0

-- One row is written: the count of a test moves by that row alone.
count-put_row :
    (p : Task → Bool) (r s : Task) (rows : List Task)
    → get_row task_key r.task_id rows ≡ some s
    → length (keep p (put_row task_key r rows)) + bit (p s) ≡ length (keep p rows) + bit (p r)
count-put_row p r s [] h = cc
count-put_row p r s (t ∷ rows) h =
    ground (arith, count-put_row p r s rows, eq_iff t.task_id r.task_id)

decided_not_open :
    (d : String)
    → ((decided_status d == "open") ≡ false) × ((decided_status d == "in_review") ≡ false)
unfolding decided_status
decided_not_open d = elim (Bool-cases (d == "approve")) [
  | inl yes_ ↦ rw yes_ (refl, refl)
  | inr other ↦ elim (Bool-cases (d == "reject")) [
    | inl e ↦ rw (other, e) (refl, refl)
    | inr e ↦ rw (other, e) (refl, refl)
  ]
]

-- A decision on an unresolved blocking task of the workspace, whatever it says, lowers the count of
-- unresolved blocking tasks by exactly one.
pub decide-count :
    (approval_id audit_id ws id actor decision reason : String) (t : Task) (s : Review)
    → get_row task_key id s.tasks ≡ some t
    → is_blocking_in ws t ≡ true
    → unresolved_blocking_task_count ws
          (decide_review_task approval_id audit_id ws id actor decision reason s).1
        + 1
      ≡ unresolved_blocking_task_count ws s
unfolding decide_review_task unresolved_blocking_task_count
decide-count approval_id audit_id ws id actor decision reason t s found blocks =
    let same : t.task_id ≡ id = key-get_row task_key id t s.tasks found in
    let decided : Task = record t { status = decided_status decision } in
    let counted =
      count-put_row (is_blocking_in ws) decided t s.tasks
        (subst (λ k. get_row task_key k s.tasks ≡ some t) (sym same) found) in
    ground (arith, found, blocks, counted, decided_not_open decision)

-- A new blocking task raises the count of its own workspace by one, and no other count.
pub create-count :
    (new_id ws subject priority : String) (blocking : Bool) (other : String) (s : Review)
    → unresolved_blocking_task_count other
        (create_review_task new_id ws subject priority blocking s).1
      ≡ unresolved_blocking_task_count other s + bit (ws == other && blocking)
unfolding create_review_task unresolved_blocking_task_count
create-count new_id ws subject priority blocking other s =
    let task = (create_review_task new_id ws subject priority blocking s).0 in
    ground (
      arith,
      keep-append (is_blocking_in other) s.tasks (task ∷ []),
      length-append (keep (is_blocking_in other) s.tasks) (keep (is_blocking_in other) (task ∷ [])),
    )
