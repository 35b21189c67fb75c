-- ===== src/Scheduling/Due.antt =====
-- Each due schedule gets one run, once.
use schema_pilot.Base.{
  ℕ, suc, ◌≡◌, refl, ap, String, false, List, [], ◌∷◌, if◌then◌else◌, keep, any, map, arith, All,
  ◌++◌, Bool-cases, inl, inr,
}
use schema_pilot.Policies.{PolicyRow}
use schema_pilot.Scheduling.{
  Schedule, RunRecord, Db, is_due, queued_run, advanced, enqueue_rows, enqueue_due_scheduled_runs,
}

enqueue_rows-ids :
    (new_id : ℕ → String) (now n : ℕ) (rows : List (PolicyRow Schedule))
    → map (λ run. run.schedule_id) (enqueue_rows new_id now n rows).0
      ≡ map (λ r. r.definition_ref.schedule_id) (keep (is_due now) rows)
unfolding enqueue_rows queued_run
enqueue_rows-ids new_id now n [] = refl
enqueue_rows-ids new_id now n (r ∷ rows) =
    ground (arith, enqueue_rows-ids new_id now (if is_due now r then suc n else n) rows)

advanced_not_due : (now : ℕ) (r : PolicyRow Schedule) → is_due now (advanced now r) ≡ false
unfolding is_due advanced
advanced_not_due now r = ground arith

enqueue_rows-none_due :
    (new_id : ℕ → String) (now n : ℕ) (rows : List (PolicyRow Schedule))
    → any (is_due now) (enqueue_rows new_id now n rows).1 ≡ false
unfolding enqueue_rows
enqueue_rows-none_due new_id now n [] = refl
enqueue_rows-none_due new_id now n (r ∷ rows) = ground (
  arith,
  enqueue_rows-none_due new_id now (if is_due now r then suc n else n) rows,
  advanced_not_due now r,
)

enqueue_rows_idle :
    (new_id : ℕ → String) (now n : ℕ) (rows : List (PolicyRow Schedule))
    → any (is_due now) rows ≡ false
    → enqueue_rows new_id now n rows ≡ ([], rows)
unfolding enqueue_rows
enqueue_rows_idle new_id now n [] h = refl
enqueue_rows_idle new_id now n (r ∷ rows) h = ground (arith, enqueue_rows_idle new_id now n rows)

enqueue_rows-queued :
    (new_id : ℕ → String) (now n : ℕ) (rows : List (PolicyRow Schedule))
    → All (λ (run : RunRecord). run.status ≡ "queued") (enqueue_rows new_id now n rows).0
unfolding enqueue_rows queued_run
enqueue_rows-queued new_id now n [] = tt
enqueue_rows-queued new_id now n (r ∷ rows) = elim (Bool-cases (is_due now r)) [
  | inl due ↦ rw (due, enqueue_rows) (refl, enqueue_rows-queued new_id now (suc n) rows)
  | inr waits ↦ rw (waits, enqueue_rows) (enqueue_rows-queued new_id now n rows)
]

-- a due schedule moves to its next time, and no other row changes
abbrev pub moved : ℕ → PolicyRow Schedule → PolicyRow Schedule
moved now r = if is_due now r then advanced now r else r

enqueue_rows-moved :
    (new_id : ℕ → String) (now n : ℕ) (rows : List (PolicyRow Schedule))
    → (enqueue_rows new_id now n rows).1 ≡ map (moved now) rows
unfolding enqueue_rows
enqueue_rows-moved new_id now n [] = refl
enqueue_rows-moved new_id now n (r ∷ rows) =
    ground (arith, enqueue_rows-moved new_id now (if is_due now r then suc n else n) rows)

-- The runs created are queued, name exactly the due schedules in the order of the rows, and are
-- added to the table of runs; the due schedules move to their next times, and no other row changes;
-- and the same call made again at the same time creates no run.
pub enqueue_once :
    (new_id again : ℕ → String) (now : ℕ) (db : Db)
    → let (created, after) = enqueue_due_scheduled_runs new_id now db in
      (map (λ run. run.schedule_id) created
        ≡ map (λ r. r.definition_ref.schedule_id) (keep (is_due now) db.policies))
      × All (λ (run : RunRecord). run.status ≡ "queued") created
      × (after.runs ≡ db.runs ++ created)
      × (after.policies ≡ map (moved now) db.policies)
      × ((enqueue_due_scheduled_runs again now after).0 ≡ [])
unfolding enqueue_due_scheduled_runs
enqueue_once new_id again now db = (
  enqueue_rows-ids new_id now 0 db.policies,
  enqueue_rows-queued new_id now 0 db.policies,
  refl,
  enqueue_rows-moved new_id now 0 db.policies,
  ap (λ p. p.0)
      (enqueue_rows_idle again now 0 (enqueue_rows new_id now 0 db.policies).1
        (enqueue_rows-none_due new_id now 0 db.policies)),
)
