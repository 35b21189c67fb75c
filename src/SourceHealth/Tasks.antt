-- ===== src/SourceHealth/Tasks.antt =====
-- Each violation becomes a review task.
use schema_pilot.Base.{
  ℕ, suc, ◌<◌, ◌≤◌, String, Bool, true, false, not, ◌&&◌, ◌||◌, none, List, [], ◌∷◌, ◌++◌, ◌≡◌, ◌≢◌,
  refl, ap, ◌∙◌, sym, inl, inr, ◌==◌, any, length, arith, length-append,
}
use schema_pilot.Errors.{Error, ok, err, Result-cases, ok_injective}
use schema_pilot.Evidence.{Sealer, store_evidence_bundle}
use schema_pilot.Review.{Review, Task, is_unresolved, create_proposal, create_review_task}
use schema_pilot.SourceHealth.{
  Violation, SlaDb, has_open_quality_task, review_violation, report_violations,
}

-- no task is on a proposal with that identifier
abbrev pub is_unseen : String → Review → Bool
is_unseen proposal_id review = not (any (λ (t : Task). t.subject_ref == proposal_id) review.tasks)

not_open :
    (ws id : String) (tasks : List Task)
    → any (λ (t : Task). t.subject_ref == id) tasks ≡ false
    → any
        (λ (t : Task).
          t.workspace_id == ws
          && (t.subject_ref == id && (t.priority == "quality_critical" && is_unresolved t)))
        tasks
      ≡ false
not_open ws id [] h = refl
not_open ws id (t ∷ tasks) h = ground (arith, not_open ws id tasks)

any-end :
    (p : Task → Bool) (t : Task) (tasks : List Task)
    → any p (tasks ++ t ∷ []) ≡ (any p tasks || p t)
any-end p t [] = ground arith
any-end p t (s ∷ tasks) = ground (arith, any-end p t tasks)

not-any-end :
    (other : String) (t : Task) (tasks : List Task)
    → not (any (λ (t : Task). t.subject_ref == other) tasks) ≡ true
    → (t.subject_ref == other) ≡ false
    → not (any (λ (t : Task). t.subject_ref == other) (tasks ++ t ∷ [])) ≡ true
not-any-end other t tasks g differ =
    ground (arith, any-end (λ (t : Task). t.subject_ref == other) t tasks, g, differ)

-- one violation: a task is made, and a proposal of another name stays unseen
review_violation-one :
    (proposal_id task_id ws uri : String) (review : Review)
    → is_unseen proposal_id review ≡ true
    → (review_violation proposal_id task_id ws uri review).0 ≡ task_id ∷ []
unfolding review_violation has_open_quality_task create_proposal create_review_task
review_violation-one proposal_id task_id ws uri review h =
    rw (not_open ws proposal_id review.tasks (ground arith)) refl

review_violation-unseen :
    (proposal_id task_id ws uri other : String) (review : Review)
    → is_unseen proposal_id review ≡ true
    → is_unseen other review ≡ true
    → (proposal_id == other) ≡ false
    → is_unseen other (review_violation proposal_id task_id ws uri review).1 ≡ true
unfolding review_violation has_open_quality_task create_proposal create_review_task
review_violation-unseen proposal_id task_id ws uri other review h g differ =
    rw (not_open ws proposal_id review.tasks (ground arith)) (
      not-any-end other
        (record {
          task_id = task_id;
          workspace_id = ws;
          priority = "quality_critical";
          subject_ref = proposal_id;
          status = "open";
          blocking = true;
        })
        review.tasks g differ)

err_not-ok : {A : Type 0} {e : Error} {a : A} → err e ≢ ok a
err_not-ok h = cc

module _ (sealer : Sealer Violation) (proposal_id task_id : ℕ → String) (ws : String)
    (differ : (i j : ℕ) → i < j → (proposal_id i == proposal_id j) ≡ false) where
  -- Where the identifiers of the proposals differ and are on no task yet, a call that returns has made
  -- one review task for each violation.
  pub report_violations-length :
      (n : ℕ) (violations : List Violation) (db : SlaDb) (ids : List String)
      → ((k : ℕ) → n ≤ k → is_unseen (proposal_id k) db.review ≡ true)
      → (report_violations sealer proposal_id task_id ws n violations db).0 ≡ ok ids
      → length ids ≡ length violations
  unfolding report_violations
  report_violations-length n [] db ids unseen h = ap length (sym (ok_injective h))
  report_violations-length n (v ∷ more) db ids unseen h =
      elim (Result-cases
        (store_evidence_bundle sealer ws v "source_sla_violation" none db.evidence).0) [
          | inr (e, raised) ↦ absurd (err_not-ok (rw (raised, report_violations) at h))
          | inl (bundle, stored) ↦
              let store =
                store_evidence_bundle sealer ws v "source_sla_violation" none db.evidence in
              let reviewed =
                review_violation (proposal_id n) (task_id n) ws bundle.evidence_bundle_uri
                  db.review in
              let next : SlaDb = record db { evidence = store.1; review = reviewed.1 } in
              let here = unseen n (omega arith) in
              let one =
                review_violation-one (proposal_id n) (task_id n) ws bundle.evidence_bundle_uri
                  db.review here in
              let unseen' : (k : ℕ) → suc n ≤ k → is_unseen (proposal_id k) next.review ≡ true =
                λ k above.
                  review_violation-unseen (proposal_id n) (task_id n) ws bundle.evidence_bundle_uri
                    (proposal_id k) db.review here (unseen k (omega (arith, above)))
                    (differ n k (omega (arith, above))) in
              let h1 = rw (stored, report_violations) at h in
              elim (Result-cases
                (report_violations sealer proposal_id task_id ws (suc n) more next).0) [
                  | inr (e, raised) ↦ absurd (err_not-ok (rw raised at h1))
                  | inl (rest, given) ↦
                      let same : reviewed.0 ++ rest ≡ ids = ok_injective (rw given at h1) in
                      let shorter = report_violations-length (suc n) more next rest unseen' given in
                      sym (ap length same)
                      ∙ length-append reviewed.0 rest
                      ∙ omega (arith, ap length one, shorter)
                ]
        ]
