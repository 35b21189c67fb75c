-- ===== src/GoldPointer/Undo.antt =====
-- A rollback without a build undoes the publication before it.
use mathlib.Core.Path.{subst}
use schema_pilot.Base.{
  String, Option, none, some, List, [], ◌∷◌, ◌++◌, ◌≡◌, ◌≢◌, refl, sym, ap, ◌∙◌, ◌==◌, arith,
  eq_iff, Option-cases, Bool-cases, inl, inr,
}
use schema_pilot.Errors.{ok, Result-cases}
use schema_pilot.GoldPointer.History.{Call, publish, rollback, step, run}
use schema_pilot.GoldPointer.{
  Pointer, Files, last?, second_last?, load_latest_gold_pointer, publish_gold_pointer,
  rollback_target, rollback_to, rollback_gold_pointer, same_pointer,
}

last-append : (h : List Pointer) (q : Pointer) → last? (h ++ q ∷ []) ≡ some q
unfolding last?
last-append [] q = refl
last-append (p ∷ []) q = refl
last-append (p ∷ r ∷ h) q = last-append (r ∷ h) q

second_last-append :
    (h : List Pointer) (p q : Pointer) → last? h ≡ some p → second_last? (h ++ q ∷ []) ≡ some p
unfolding last? second_last?
second_last-append [] p q e = cc
second_last-append (r ∷ []) p q e = e
second_last-append (r ∷ s ∷ []) p q e = e
second_last-append (r ∷ s ∷ t ∷ h) p q e = second_last-append (s ∷ t ∷ h) p q e

rollback-publish_last :
    (ws build snapshot model : String) (files : Files) (p : Pointer)
    → last? files.history ≡ some p
    → p.build_id ≢ build
    → let (new, after) = publish_gold_pointer ws build snapshot model files in
      let (outcome, back) = rollback_gold_pointer none after in
      (outcome ≡ ok (record { current = new; rolled_back_to = p }))
      × (load_latest_gold_pointer back ≡ some p)
unfolding publish_gold_pointer rollback_gold_pointer load_latest_gold_pointer rollback_target
    rollback_to
rollback-publish_last ws build snapshot model files p e different =
    let new : Pointer = record {
      workspace_id = ws;
      build_id = build;
      snapshot_id = snapshot;
      model_name = model;
    } in
    ground (
      arith,
      last-append files.history new,
      second_last-append files.history p new e,
      eq_iff p.build_id build,
    )

abbrev build_of : Option Pointer → Option String
build_of none = none
build_of (some p) = some p.build_id

-- the latest pointer is of the build that the history ends with
abbrev IsCurrent : Files → Type 0
IsCurrent files = build_of (last? files.history) ≡ build_of (load_latest_gold_pointer files)

publish-IsCurrent :
    (ws build snapshot model : String) (files : Files)
    → IsCurrent (publish_gold_pointer ws build snapshot model files).1
unfolding publish_gold_pointer load_latest_gold_pointer
publish-IsCurrent ws build snapshot model files =
    let new : Pointer = record {
      workspace_id = ws;
      build_id = build;
      snapshot_id = snapshot;
      model_name = model;
    } in
    let added = ap build_of (last-append files.history new) in
    elim (Option-cases (last? files.history)) [
      | inl nothing ↦ ground (arith, nothing, added)
      | inr (p, found) ↦ elim (Bool-cases (p.build_id == build)) [
        | inl again ↦
            rw (found, again, found) (ap (λ b. some b) ((eq_iff p.build_id build).0 again))
        | inr other ↦ rw (found, other) added
      ]
    ]

rollback_to-IsCurrent :
    (current target : Pointer) (files : Files)
    → last? files.history ≡ some current
    → IsCurrent (rollback_to current target files)
unfolding rollback_to same_pointer load_latest_gold_pointer
rollback_to-IsCurrent current target files found = elim (Bool-cases (same_pointer current target)) [
  | inl same ↦ ground (arith, same, found, eq_iff current.build_id target.build_id)
  | inr other ↦ rw other (ap build_of (last-append files.history target))
]

rollback-IsCurrent :
    (build : Option String) (files : Files)
    → IsCurrent files
    → IsCurrent (rollback_gold_pointer build files).1
unfolding rollback_gold_pointer
rollback-IsCurrent build files h = elim (Option-cases (last? files.history)) [
  | inl e ↦
      let same : (rollback_gold_pointer build files).1 ≡ files =
        rw (e, rollback_gold_pointer) refl in
      subst IsCurrent (sym same) h
  | inr (current, e) ↦ elim (Result-cases (rollback_target build files.history current)) [
    | inl (target, t) ↦
        let same : (rollback_gold_pointer build files).1 ≡ rollback_to current target files =
          rw (e, rollback_gold_pointer, t) refl in
        subst IsCurrent (sym same) (rollback_to-IsCurrent current target files e)
    | inr (x, t) ↦
        let same : (rollback_gold_pointer build files).1 ≡ files =
          rw (e, rollback_gold_pointer, t) refl in
        subst IsCurrent (sym same) h
  ]
]

step-IsCurrent : (c : Call) (files : Files) → IsCurrent files → IsCurrent (step c files)
step-IsCurrent (publish ws build snapshot model) files h =
    publish-IsCurrent ws build snapshot model files
step-IsCurrent (rollback build) files h = rollback-IsCurrent build files h

run-IsCurrent : (calls : List Call) (files : Files) → IsCurrent files → IsCurrent (run calls files)
run-IsCurrent [] files h = h
run-IsCurrent (c ∷ calls) files h = run-IsCurrent calls (step c files) (step-IsCurrent c files h)

build_of-some :
    (o : Option Pointer) (q : Pointer)
    → build_of o ≡ some q.build_id
    → (p : Pointer) × (o ≡ some p) × (p.build_id ≡ q.build_id)
build_of-some none q h = cc
build_of-some (some p) q h = (p, refl, cc)

IsCurrent-no_files : IsCurrent (record { latest = none; history = [] })
unfolding last? load_latest_gold_pointer
IsCurrent-no_files = refl

-- no file of a workspace exists
abbrev pub no_files : Files
no_files = record { latest = none; history = [] }

-- After any calls on a workspace without files: where the latest pointer is of another build than
-- the one that is published next, a rollback that names no build undoes that publication. It
-- succeeds, reports the new pointer as the current one, and makes the pointer with which the history
-- ended before the publication the latest; that pointer is of the build that was the latest before.
pub rollback-publish :
    (ws build snapshot model : String) (calls : List Call) (before : Pointer)
    → load_latest_gold_pointer (run calls no_files) ≡ some before
    → before.build_id ≢ build
    → let files = run calls no_files in
      let (new, after) = publish_gold_pointer ws build snapshot model files in
      let (outcome, back) = rollback_gold_pointer none after in
      (p : Pointer) × (outcome ≡ ok (record { current = new; rolled_back_to = p }))
      × (load_latest_gold_pointer back ≡ some p)
      × (last? files.history ≡ some p)
      × (p.build_id ≡ before.build_id)
rollback-publish ws build snapshot model calls before latest different =
    let files = run calls no_files in
    let current : IsCurrent files = run-IsCurrent calls no_files IsCurrent-no_files in
    let (p, ended, same) =
      build_of-some (last? files.history) before (current ∙ ap build_of latest) in
    let (outcome, back) =
      rollback-publish_last ws build snapshot model files p ended (λ e. different (sym same ∙ e)) in
    (p, outcome, back, ended, same)
