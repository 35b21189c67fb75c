-- ===== src/Runs/Failed.antt =====
-- A run that fails has a failed step, and a step that runs through is recorded.
use mathlib.Core.Path.{subst}
use schema_pilot.Base.{
  ℕ, ap, leb, ◌≡◌, ◌≢◌, ◌≤◌, refl, sym, ◌∙◌, length, String, Bool, true, ◌||◌, Option, none, some,
  List, [], ◌∷◌, ◌==◌, any, find, Dict, lookup, insert, arith, eq_iff, eq_refl, Option-cases,
  Bool-cases, inl, inr,
}
use schema_pilot.Scheduling.{RunRecord}
use schema_pilot.Runs.{
  RunStepRecord, change_step, started, start_step, succeeded, succeed_step, failed, fail_step,
  has_status, is_first, first_step, blamed_step, ensure_failed_run_step, by_key, ensure_run_steps,
  new_steps, run_step_definitions,
}

module _ {D : Type 0} where
  -- each row stands under its own key
  abbrev pub IsFiled : Dict (RunStepRecord D) → Type 0
  IsFiled [] = Unit
  IsFiled ((k, row) ∷ steps) = (row.step_key ≡ k) × IsFiled steps

  -- some entry has the key
  abbrev has_key : String → Dict (RunStepRecord D) → Bool
  has_key key = any (λ e. e.0 == key)

  any-insert :
      (key : String) (row : RunStepRecord D) (steps : Dict (RunStepRecord D))
      → has_status "failed" (key, row) ≡ true
      → any (has_status "failed") (insert key row steps) ≡ true
  unfolding insert
  any-insert key row [] h = ground arith
  any-insert key row ((k, r) ∷ steps) h = ground (arith, any-insert key row steps h)

  lookup_present :
      (key : String) (steps : Dict (RunStepRecord D))
      → has_key key steps ≡ true
      → lookup key steps ≢ none
  unfolding lookup
  lookup_present key [] h e = cc
  lookup_present key ((k, r) ∷ steps) h e = ground (arith, lookup_present key steps)

  first_step_present :
      (row : RunStepRecord D) (steps : Dict (RunStepRecord D))
      → IsFiled steps
      → (row.step_key == (first_step row steps).step_key
          || has_key (first_step row steps).step_key steps)
        ≡ true
  unfolding first_step
  first_step_present row [] w = ground (arith, eq_refl row.step_key)
  first_step_present row ((k, r) ∷ steps) w = elim (Bool-cases (is_first row r)) [
    | inl h ↦ ground (arith, first_step_present row steps w.1)
    | inr h ↦ ground (arith, w.0, first_step_present r steps w.1)
  ]

  find_present :
      (p : String × RunStepRecord D → Bool) (steps : Dict (RunStepRecord D))
      (e : String × RunStepRecord D)
      → IsFiled steps
      → find p steps ≡ some e
      → has_key e.1.step_key steps ≡ true
  find_present p [] e w h = cc
  find_present p ((k, r) ∷ steps) e w h = ground (arith, w.0, find_present p steps e w.1, eq_refl k)

  fail_step-failed :
      (now : ℕ) (key code : String) (details : D) (uri : Option String)
      (steps : Dict (RunStepRecord D))
      → has_key key steps ≡ true
      → any (has_status "failed") (fail_step now key code details uri steps) ≡ true
  unfolding fail_step change_step failed
  fail_step-failed now key code details uri steps h = elim (Option-cases (lookup key steps)) [
    | inl e ↦ absurd (lookup_present key steps h e)
    | inr (row, e) ↦
        ground (arith, any-insert key (failed now code details uri row) steps, eq_refl "failed")
  ]

  insert-IsFiled :
      (row : RunStepRecord D) (steps : Dict (RunStepRecord D))
      → IsFiled steps
      → IsFiled (insert row.step_key row steps)
  unfolding insert
  insert-IsFiled row [] w = (refl, tt)
  insert-IsFiled row ((k, r) ∷ steps) w = ground (arith, insert-IsFiled row steps w.1, w.0)

  by_key-IsFiled :
      (rows : List (RunStepRecord D)) (steps : Dict (RunStepRecord D))
      → IsFiled steps
      → IsFiled (by_key rows steps)
  unfolding by_key
  by_key-IsFiled [] steps w = w
  by_key-IsFiled (row ∷ rows) steps w =
      by_key-IsFiled rows (insert row.step_key row steps) (insert-IsFiled row steps w)

  ensure_run_steps-IsFiled :
      (new_id : ℕ → String) (no_details : D) (run : RunRecord) (existing : List (RunStepRecord D))
      → IsFiled (ensure_run_steps new_id no_details run existing)
  unfolding ensure_run_steps
  ensure_run_steps-IsFiled new_id no_details run [] =
      by_key-IsFiled (new_steps new_id no_details run 0 (run_step_definitions run.run_type)) [] tt
  ensure_run_steps-IsFiled new_id no_details run (row ∷ existing) =
      by_key-IsFiled (row ∷ existing) [] tt

  blamed_present :
      (row : RunStepRecord D) (steps : Dict (RunStepRecord D))
      → IsFiled steps
      → (row.step_key == (blamed_step row steps).step_key
          || has_key (blamed_step row steps).step_key steps)
        ≡ true
  blamed_present row steps w = elim (Option-cases (find (has_status "running") steps)) [
    | inl e ↦
        let same : blamed_step row steps ≡ first_step row steps =
          unfold blamed_step in rw (e, blamed_step) refl in
        rw same (first_step_present row steps w)
    | inr (s, e) ↦
        let same : blamed_step row steps ≡ s.1 = unfold blamed_step in rw (e, blamed_step) refl in
        rw same (ground (arith, find_present (has_status "running") steps s w e))
  ]

  failed_of_filed :
      (now : ℕ) (code : String) (details : D) (uri : Option String) (steps : Dict (RunStepRecord D))
      → IsFiled steps
      → 1 ≤ length steps
      → any (has_status "failed") (ensure_failed_run_step now code details uri steps) ≡ true
  unfolding ensure_failed_run_step
  failed_of_filed now code details uri [] w some_step = ground arith
  failed_of_filed now code details uri ((k, row) ∷ rest) w some_step =
      elim (Bool-cases (any (has_status "failed") ((k, row) ∷ rest))) [
        | inl h ↦ rw (h, ensure_failed_run_step) h
        | inr h ↦
            rw (h, ensure_failed_run_step)
              (fail_step-failed now (blamed_step row ((k, row) ∷ rest)).step_key code details uri
                ((k, row) ∷ rest) (ground (arith, blamed_present row ((k, row) ∷ rest) w, w.0)))
      ]

  lookup-step_key :
      (key : String) (row : RunStepRecord D) (steps : Dict (RunStepRecord D))
      → IsFiled steps
      → lookup key steps ≡ some row
      → row.step_key ≡ key
  unfolding lookup
  lookup-step_key key row [] w h = cc
  lookup-step_key key row ((k, r) ∷ steps) w h =
      ground (arith, lookup-step_key key row steps w.1, w.0, eq_iff k key)

  length-insert :
      (key : String) (row : RunStepRecord D) (steps : Dict (RunStepRecord D))
      → 1 ≤ length (insert key row steps)
  unfolding insert
  length-insert key row [] = omega arith
  length-insert key row ((k, r) ∷ steps) = ground arith

  -- rows under their keys, and at least one
  abbrev pub IsStepped : Dict (RunStepRecord D) → Type 0
  IsStepped steps = IsFiled steps × (1 ≤ length steps)

  change_step-IsStepped :
      (f : RunStepRecord D → RunStepRecord D) (key : String) (steps : Dict (RunStepRecord D))
      → ((row : RunStepRecord D) → (f row).step_key ≡ row.step_key)
      → IsStepped steps
      → IsStepped (change_step f key steps)
  unfolding change_step
  change_step-IsStepped f key steps keeps h = elim (Option-cases (lookup key steps)) [
    | inl e ↦ rw (e, change_step) h
    | inr (row, e) ↦
        let same : key ≡ (f row).step_key = sym (keeps row ∙ lookup-step_key key row steps h.0 e) in
        rw (e, change_step)
          (
            subst (λ k. IsFiled (insert k (f row) steps)) (sym same)
                (insert-IsFiled (f row) steps h.0),
            length-insert key (f row) steps,
          )
  ]

-- What the processing of a run does to its steps.
pub data Change (D : Type 0) : Type 0 where
  start : D → ℕ → String → Change D
  succeed : ℕ → String → D → Option String → Change D
  fail : ℕ → String → String → D → Option String → Change D

module _ {D : Type 0} where
  abbrev pub apply : Change D → Dict (RunStepRecord D) → Dict (RunStepRecord D)
  apply (start no_details now key) = start_step no_details now key
  apply (succeed now key details uri) = succeed_step now key details uri
  apply (fail now key code details uri) = fail_step now key code details uri

  abbrev pub apply_all : List (Change D) → Dict (RunStepRecord D) → Dict (RunStepRecord D)
  apply_all [] steps = steps
  apply_all (c ∷ changes) steps = apply_all changes (apply c steps)

  apply-IsStepped :
      (c : Change D) (steps : Dict (RunStepRecord D)) → IsStepped steps → IsStepped (apply c steps)
  unfolding start_step succeed_step fail_step started succeeded failed
  apply-IsStepped (start no_details now key) steps h =
      change_step-IsStepped (started no_details now) key steps (λ row. refl) h
  apply-IsStepped (succeed now key details uri) steps h =
      change_step-IsStepped (succeeded now details uri) key steps (λ row. refl) h
  apply-IsStepped (fail now key code details uri) steps h =
      change_step-IsStepped (failed now code details uri) key steps (λ row. refl) h

  apply_all-IsStepped :
      (changes : List (Change D)) (steps : Dict (RunStepRecord D))
      → IsStepped steps
      → IsStepped (apply_all changes steps)
  apply_all-IsStepped [] steps h = h
  apply_all-IsStepped (c ∷ changes) steps h =
      apply_all-IsStepped changes (apply c steps) (apply-IsStepped c steps h)

  apply-nil : (c : Change D) → apply c [] ≡ []
  unfolding start_step succeed_step fail_step change_step lookup
  apply-nil (start no_details now key) = refl
  apply-nil (succeed now key details uri) = refl
  apply-nil (fail now key code details uri) = refl

  apply_all-nil : (changes : List (Change D)) → apply_all changes [] ≡ []
  apply_all-nil [] = refl
  apply_all-nil (c ∷ changes) = ap (apply_all changes) (apply-nil c) ∙ apply_all-nil changes

  blames_some :
      (changes : List (Change D)) (now : ℕ) (code : String) (details : D) (uri : Option String)
      (begun : Dict (RunStepRecord D))
      → IsFiled begun
      → any
          (has_status "failed")
          (ensure_failed_run_step now code details uri (apply_all changes begun))
        ≡ leb 1 (length begun)
  unfolding ensure_failed_run_step
  blames_some changes now code details uri [] w = rw (apply_all-nil changes) refl
  blames_some changes now code details uri (e ∷ begun) w =
      let stepped = apply_all-IsStepped changes (e ∷ begun) (w, omega arith) in
      failed_of_filed now code details uri (apply_all changes (e ∷ begun)) stepped.0 stepped.1
      ∙ ground arith

  -- Whatever was done to the steps of a run, when its processing raises, one of its steps is marked
  -- as failed exactly where the run has steps: a run of a type without steps has none to blame.
  pub ensure_failed-blames :
      (new_id : ℕ → String) (no_details : D) (run : RunRecord) (existing : List (RunStepRecord D))
      (changes : List (Change D)) (now : ℕ) (code : String) (details : D) (uri : Option String)
      → let begun = ensure_run_steps new_id no_details run existing in
        any
          (has_status "failed")
          (ensure_failed_run_step now code details uri (apply_all changes begun))
        ≡ leb 1 (length begun)
  ensure_failed-blames new_id no_details run existing changes now code details uri =
      blames_some changes now code details uri (ensure_run_steps new_id no_details run existing)
        (ensure_run_steps-IsFiled new_id no_details run existing)
