-- ===== src/GoldPointer/History.antt =====
-- The history only grows, so what was published stays a target of rollbacks.
use schema_pilot.Base.{
  String, Bool, true, false, ◌||◌, Option, none, some, List, [], ◌∷◌, ◌++◌, ◌==◌, ◌≡◌, ◌≢◌, refl,
  ◌∙◌, arith, eq_iff, eq_refl, reverse, any, find, is_empty, Option-cases, Bool-cases, inl, inr,
}
use mathlib.Core.List.{reverse-cons}
use schema_pilot.Errors.{ok, Result-cases}
use schema_pilot.GoldPointer.{
  Pointer, Files, RolledBack, last?, load_latest_gold_pointer, publish_gold_pointer,
  rollback_target, rollback_to, rollback_gold_pointer,
}

-- one call on a workspace's files
pub data Call : Type 0 where
  publish : String → String → String → String → Call
  rollback : Option String → Call

abbrev pub step : Call → Files → Files
step (publish ws build snapshot model) files =
    (publish_gold_pointer ws build snapshot model files).1
step (rollback build) files = (rollback_gold_pointer build files).1

abbrev pub run : List Call → Files → Files
run [] files = files
run (c ∷ calls) files = run calls (step c files)

-- some entry of the history has the build
abbrev pub has_build : String → List Pointer → Bool
has_build build = any (λ p. p.build_id == build)

has_build-append :
    (b : String) (h more : List Pointer)
    → has_build b (h ++ more) ≡ (has_build b h || has_build b more)
has_build-append b [] more = refl
has_build-append b (p ∷ h) more = ground (arith, has_build-append b h more)

step-has_build :
    (b : String) (c : Call) (files : Files)
    → has_build b files.history ≡ true
    → has_build b (step c files).history ≡ true
unfolding publish_gold_pointer rollback_gold_pointer rollback_to
step-has_build b (publish ws build snapshot model) files h =
    let new : Pointer = record {
      workspace_id = ws;
      build_id = build;
      snapshot_id = snapshot;
      model_name = model;
    } in
    ground (arith, has_build-append b files.history (new ∷ []))
step-has_build b (rollback build) files h = elim (Option-cases (last? files.history)) [
  | inl e ↦ ground (arith, h)
  | inr (current, e) ↦ elim (Result-cases (rollback_target build files.history current)) [
    | inl (target, t) ↦ ground (arith, has_build-append b files.history (target ∷ []))
    | inr (x, t) ↦ ground (arith, h)
  ]
]

run-has_build :
    (b : String) (calls : List Call) (files : Files)
    → has_build b files.history ≡ true
    → has_build b (run calls files).history ≡ true
run-has_build b [] files h = h
run-has_build b (c ∷ calls) files h =
    run-has_build b calls (step c files) (step-has_build b c files h)

last-has_build : (h : List Pointer) (p : Pointer) → last? h ≡ some p → has_build p.build_id h ≡ true
unfolding last?
last-has_build [] p e = cc
last-has_build (q ∷ []) p e = ground (arith, eq_refl p.build_id)
last-has_build (q ∷ r ∷ h) p e = ground (arith, last-has_build (r ∷ h) p e)

last-cons : (p : Pointer) (h : List Pointer) → last? (p ∷ h) ≢ none
unfolding last?
last-cons p [] e = cc
last-cons p (q ∷ rest) e = last-cons q rest e

has_build-last : (b : String) (h : List Pointer) → has_build b h ≡ true → last? h ≢ none
has_build-last b [] h e = cc
has_build-last b (p ∷ rest) h e = last-cons p rest e

publish-has_build :
    (ws b snapshot model : String) (files : Files)
    → has_build b (publish_gold_pointer ws b snapshot model files).1.history ≡ true
unfolding publish_gold_pointer
publish-has_build ws b snapshot model files =
    let new : Pointer = record {
      workspace_id = ws;
      build_id = b;
      snapshot_id = snapshot;
      model_name = model;
    } in
    elim (Option-cases (last? files.history)) [
      | inl e ↦ ground (arith, has_build-append b files.history (new ∷ []), eq_refl b)
      | inr (p, e) ↦ ground (
        arith,
        has_build-append b files.history (new ∷ []),
        eq_refl b,
        last-has_build files.history p e,
        eq_iff p.build_id b,
      )
    ]

has_build-reverse : (b : String) (h : List Pointer) → has_build b (reverse h) ≡ has_build b h
has_build-reverse b [] = refl
has_build-reverse b (p ∷ h) =
    ground (arith, reverse-cons p h, has_build-append b (reverse h) (p ∷ []), has_build-reverse b h)

find-has_build :
    (b : String) (h : List Pointer)
    → has_build b h ≡ true
    → (p : Pointer) × (find (λ q. q.build_id == b) h ≡ some p) × (p.build_id ≡ b)
find-has_build b [] e = cc
find-has_build b (p ∷ h) e = elim (Bool-cases (p.build_id == b)) [
  | inl y ↦ (p, ground arith, ground (arith, eq_iff p.build_id b))
  | inr n ↦ let (q, f, s) = find-has_build b h (ground arith) in (q, ground arith, s)
]

-- A published build, whose name is not empty, stays a target: after any calls that follow its
-- publication, a rollback that names it succeeds, with a pointer of that build, and makes that
-- pointer the latest.
pub rollback_published :
    (ws b snapshot model : String) (files : Files) (calls : List Call)
    → is_empty b ≡ false
    → let after = run calls (publish_gold_pointer ws b snapshot model files).1 in
      (r : RolledBack) × ((rollback_gold_pointer (some b) after).0 ≡ ok r)
      × (r.rolled_back_to.build_id ≡ b)
      × (load_latest_gold_pointer (rollback_gold_pointer (some b) after).1 ≡ some r.rolled_back_to)
unfolding rollback_gold_pointer rollback_target rollback_to load_latest_gold_pointer
rollback_published ws b snapshot model files calls named =
    let after : Files = run calls (publish_gold_pointer ws b snapshot model files).1 in
    let listed : has_build b after.history ≡ true =
      run-has_build b calls (publish_gold_pointer ws b snapshot model files).1
        (publish-has_build ws b snapshot model files) in
    let (p, found, same) =
      find-has_build b (reverse after.history) (has_build-reverse b after.history ∙ listed) in
    elim (Option-cases (last? after.history)) [
      | inl e ↦ elim (has_build-last b after.history listed e) [ ]
      | inr (current, e) ↦
          (record { current = current; rolled_back_to = p }, ground arith, same, ground arith)
    ]
