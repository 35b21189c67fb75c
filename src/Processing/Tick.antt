-- ===== src/Processing/Tick.antt =====
-- A tick of the worker processes as many runs as it may.
use mathlib.Core.Bool.{false≢true}
use schema_pilot.Base.{
  ℕ, zero, suc, ◌≤◌, String, Bool, true, false, none, some, List, [], ◌∷◌, ◌≡◌, ◌≢◌, ◌⊎◌, inl, inr,
  refl, ap, ◌∙◌, sym, ◌==◌, length, any, keep, find, order_rows, any-order_rows, get_row, max, Dict,
  arith, eq_refl, Option-cases, Bool-cases,
}
use schema_pilot.Base.Int.{ℤ, pos_part}
use schema_pilot.Scheduling.{RunRecord}
use schema_pilot.Runs.{RunStepRecord, run_key, is_queued, has_room, next_queued_run}
use schema_pilot.Processing.{
  Execution, WorkerDb, process_run_by_id, process_next_queued_run, process_runs,
}

any-get_row :
    (k : String) (rows : List RunRecord)
    → get_row run_key k rows ≡ none
    → any (λ r. run_key r == k) rows ≡ false
any-get_row k [] h = refl
any-get_row k (r ∷ rows) h = ground (arith, any-get_row k rows)

some_injective : {A : Type 0} {a b : A} → some a ≡ some b → a ≡ b
some_injective h = cc

any-find :
    (p q : RunRecord → Bool) (r : RunRecord) (rows : List RunRecord)
    → find p rows ≡ some r
    → q r ≡ true
    → any q rows ≡ true
any-find p q r [] h g = cc
any-find p q r (t ∷ rows) h g = elim (Bool-cases (p t)) [
  | inl hit ↦
      let same : q t ≡ true = ap q (some_injective (rw hit at h)) ∙ g in ground (arith, same)
  | inr miss ↦ ground (arith, any-find p q r rows (rw miss at h) g)
]

any-keep-le :
    (p q : RunRecord → Bool) (rows : List RunRecord)
    → any p (keep q rows) ≡ true
    → any p rows ≡ true
any-keep-le p q [] h = h
any-keep-le p q (r ∷ rows) h = ground (arith, any-keep-le p q rows)

-- the run that is picked is in the table
picked_there :
    (limit : ℤ) (run : RunRecord) (rows : List RunRecord)
    → next_queued_run limit rows ≡ some run
    → get_row run_key run.run_id rows ≢ none
unfolding next_queued_run
picked_there limit run rows h missing =
    let named : RunRecord → Bool = λ r. run_key r == run.run_id in
    let queued = keep is_queued rows in
    let in_order =
      any-find (has_room (max (pos_part limit) 1) rows) named run (order_rows run_key queued) h
        (eq_refl run.run_id) in
    let in_rows =
      any-keep-le named is_queued rows (sym (any-order_rows run_key named queued) ∙ in_order) in
    false≢true (sym (any-get_row run.run_id rows missing) ∙ in_rows)

some_not-none : {A : Type 0} {a : A} → some a ≢ none
some_not-none h = cc

module _ {O D : Type 0} (execute : RunRecord → Dict (RunStepRecord D) → Execution O D)
    (new_id : ℕ → String) (no_details : D) (details_of : O → D) (now : ℕ) where
  by_id-some :
      (run : RunRecord) (run_id : String) (db : WorkerDb O D)
      → get_row run_key run_id db.runs ≡ some run
      → (process_run_by_id execute new_id no_details details_of now run_id db).0 ≢ none
  unfolding process_run_by_id
  by_id-some run run_id db found = elim (Bool-cases (run.status == "queued")) [
    | inl queued ↦ rw (found, process_run_by_id, queued) some_not-none
    | inr other ↦ rw (found, process_run_by_id, other) some_not-none
  ]

  -- nothing is processed only where nothing can be taken
  idle :
      (limit : ℤ) (db : WorkerDb O D)
      → (process_next_queued_run execute new_id no_details details_of now limit db).0 ≡ none
      → (next_queued_run limit db.runs ≡ none)
        × ((process_next_queued_run execute new_id no_details details_of now limit db).1 ≡ db)
  unfolding process_next_queued_run
  idle limit db h = elim (Option-cases (next_queued_run limit db.runs)) [
    | inl nothing ↦ (nothing, rw (nothing, process_next_queued_run) refl)
    | inr (run, picked) ↦ elim (Option-cases (get_row run_key run.run_id db.runs)) [
      | inl missing ↦ absurd (picked_there limit run db.runs picked missing)
      | inr (row, found) ↦
          absurd (by_id-some row run.run_id db found (rw (picked, process_next_queued_run) at h))
    ]
  ]

  -- A tick that may process `n` runs processes at most `n`; and it processes exactly `n`, or leaves no
  -- queued run whose workspace has room for another running one.
  pub process_runs-drains :
      (n : ℕ) (limit : ℤ) (db : WorkerDb O D)
      → let r = process_runs execute new_id no_details details_of now n limit db in
        (length r.0 ≤ n) × ((length r.0 ≡ n) ⊎ (next_queued_run limit r.1.runs ≡ none))
  unfolding process_runs
  process_runs-drains zero limit db = (omega arith, inl refl)
  process_runs-drains (suc n) limit db =
      let next = process_next_queued_run execute new_id no_details details_of now limit db in
      let more = process_runs-drains n limit next.1 in
      elim (Option-cases next.0) [
        | inl nothing ↦
            let still = idle limit db nothing in
            rw (nothing, process_runs)
              (
                omega arith,
                inr (ap (λ (d : WorkerDb O D). next_queued_run limit d.runs) still.1 ∙ still.0),
              )
        | inr (p, outcome) ↦
            rw (outcome, process_runs)
              (
                omega (arith, more.0),
                elim more.1 [ inl full ↦ inl (ap (λ m. suc m) full) | inr drained ↦ inr drained ],
              )
      ]
