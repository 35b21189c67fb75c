-- ===== src/Drift/Columns.antt =====
-- What a drift event says about each column.
use schema_pilot.Base.{
  String, Bool, true, false, not, ◌&&◌, ◌||◌, List, [], ◌∷◌, ◌==◌, ◌≡◌, ◌⊎◌, inl, inr, Bool-cases,
  refl, ◌∙◌, keep, contains, sort_texts, insert_text, arith, eq_iff,
}
use schema_pilot.Drift.{
  distinct, sorted_difference, is_nonempty, detect_schema_drift, drift_to_review_task,
}

contains-insert :
    (c a : String) (l : List String) → contains c (insert_text a l) ≡ (a == c || contains c l)
unfolding insert_text
contains-insert c a [] = refl
contains-insert c a (b ∷ l) = ground (arith, contains-insert c a l)

contains-sort : (c : String) (l : List String) → contains c (sort_texts l) ≡ contains c l
unfolding sort_texts
contains-sort c [] = refl
contains-sort c (a ∷ l) = ground (arith, contains-insert c a (sort_texts l), contains-sort c l)

contains-distinct : (c : String) (l : List String) → contains c (distinct l) ≡ contains c l
unfolding distinct
contains-distinct c [] = refl
contains-distinct c (a ∷ l) = ground (arith, contains-distinct c l, eq_iff a c)

contains-keep :
    (p : String → Bool) (c : String) (l : List String)
    → contains c (keep p l) ≡ (p c && contains c l)
contains-keep p c [] = ground arith
contains-keep p c (a ∷ l) = ground (arith, contains-keep p c l, eq_iff a c)

contains-difference :
    (c : String) (xs ys : List String)
    → contains c (sorted_difference xs ys) ≡ (not (contains c ys) && contains c xs)
unfolding sorted_difference
contains-difference c xs ys =
    contains-sort c (keep (λ a. not (contains a ys)) (distinct xs))
    ∙ contains-keep (λ a. not (contains a ys)) c (distinct xs)
    ∙ ground (arith, contains-distinct c xs)

empty_contains : (c : String) (l : List String) → is_nonempty l ≡ false → contains c l ≡ false
unfolding is_nonempty
empty_contains c [] h = refl
empty_contains c (a ∷ l) h = cc

-- A column is listed as added exactly where only the new schema has it, as removed exactly where only
-- the old one has it; and where only one of them has it, the review task of the drift blocks.
pub drift_exact :
    (id ws ds : String) (previous current : List String) (c : String)
    → let event = detect_schema_drift previous current in
      (contains c event.added_columns ≡ (not (contains c previous) && contains c current))
      × (contains c event.removed_columns ≡ (not (contains c current) && contains c previous))
      × ((contains c previous ≡ contains c current)
          ⊎ ((drift_to_review_task id ws ds event).blocking ≡ true))
unfolding detect_schema_drift drift_to_review_task
drift_exact id ws ds previous current c =
    let added = contains-difference c current previous in
    let removed = contains-difference c previous current in
    (
      added,
      removed,
      elim (Bool-cases (
          is_nonempty (sorted_difference current previous)
          || is_nonempty (sorted_difference previous current))) [
            | inl changed ↦ inr changed
            | inr calm ↦ inl (
                ground (
                  arith,
                  added,
                  removed,
                  empty_contains c (sorted_difference current previous),
                  empty_contains c (sorted_difference previous current),
                ))
          ],
    )
