-- ===== src/Contracts/Partition.antt =====
-- Every row passes or is quarantined, and what passes is complete.
use schema_pilot.Base.{
  ℕ, suc, ◌≤◌, ◌<◌, ap, not, eqb, if◌then◌else◌, ◌≡◌, refl, String, Bool, false, ◌||◌, List, [],
  ◌∷◌, ◌++◌, map, keep, any, Dict, arith,
}
use schema_pilot.Contracts.Reasons.{not_null_reason}
use schema_pilot.Contracts.{
  Row, ContractResult, is_missing, is_blank, unique_failures, missing_failures, row_failures,
  add_row, evaluate_rows, nothing_seen, evaluate_quality_contracts,
}

-- some column of the list is missing, or some column of the other blank
abbrev pub is_incomplete : List String → List String → Row → Bool
is_incomplete required not_null row = any (is_missing row) required || any (is_blank row) not_null

-- some failure is of the row at this position
abbrev pub has_index : ℕ → List (ℕ × List String) → Bool
has_index i failures = any (λ f. eqb f.0 i) failures

-- the rows at the positions that pass, the first at position `i`
abbrev pub pick : (ℕ → Bool) → ℕ → List Row → List Row
pick p i [] = []
pick p i (row ∷ rows) = let rest = pick p (suc i) rows in if p i then row ∷ rest else rest

pick_congr :
    (p q : ℕ → Bool) (i : ℕ) (rows : List Row)
    → ((j : ℕ) → i ≤ j → p j ≡ q j)
    → pick p i rows ≡ pick q i rows
pick_congr p q i [] same = refl
pick_congr p q i (row ∷ rows) same =
    ground (
      arith,
      same i (omega arith),
      pick_congr p q (suc i) rows (λ j le. same j (omega (arith, le))),
    )

keep-nil : {A : Type 0} (p : A → Bool) (l : List A) → keep p l ≡ [] → any p l ≡ false
keep-nil p [] h = refl
keep-nil p (x ∷ l) h = ground (arith, keep-nil p l)

pub append-nil : {A : Type 0} (l m : List A) → l ++ m ≡ [] → (l ≡ []) × (m ≡ [])
append-nil [] m h = (refl, h)
append-nil (x ∷ l) m h = cc

missing-nil : (l : List String) → missing_failures l ≡ [] → l ≡ []
unfolding missing_failures
missing-nil [] h = refl
missing-nil (x ∷ l) h = cc

map-nil : {A B : Type 0} (f : A → B) (l : List A) → map f l ≡ [] → l ≡ []
map-nil f [] h = refl
map-nil f (x ∷ l) h = cc

module _ (required not_null unique : List String) where
  row_complete :
      (row : Row) (seen : Dict (List String))
      → (row_failures required not_null unique row seen).0 ≡ []
      → is_incomplete required not_null row ≡ false
  unfolding row_failures
  row_complete row seen h =
      let missing = keep (is_missing row) required in
      let blank = keep (is_blank row) not_null in
      let repeated = (unique_failures unique row seen).0 in
      let (m, rest) =
        append-nil (missing_failures missing) (map not_null_reason blank ++ repeated) h in
      let (n, u) = append-nil (map not_null_reason blank) repeated rest in
      ground (
        arith,
        keep-nil (is_missing row) required (missing-nil missing m),
        keep-nil (is_blank row) not_null (map-nil not_null_reason blank n),
      )

  add_row_complete :
      (index : ℕ) (row : Row) (reasons : List String) (later : ContractResult)
      → (reasons ≡ [] → is_incomplete required not_null row ≡ false)
      → any (is_incomplete required not_null) later.passed_rows ≡ false
      → any (is_incomplete required not_null) (add_row index row reasons later).passed_rows ≡ false
  unfolding add_row
  add_row_complete index row [] later complete h = ground (arith, complete refl, h)
  add_row_complete index row (reason ∷ reasons) later complete h = h

  rows_complete :
      (index : ℕ) (rows : List Row) (seen : Dict (List String))
      → any
          (is_incomplete required not_null)
          (evaluate_rows required not_null unique index rows seen).passed_rows
        ≡ false
  unfolding evaluate_rows
  rows_complete index [] seen = refl
  rows_complete index (row ∷ rows) seen =
      let (reasons, after) = row_failures required not_null unique row seen in
      add_row_complete index row reasons
        (evaluate_rows required not_null unique (suc index) rows after) (row_complete row seen)
        (rows_complete (suc index) rows after)

  -- the failures behind a position name later rows
  add_row_before :
      (i index : ℕ) (row : Row) (reasons : List String) (later : ContractResult)
      → i < index
      → has_index i later.failures ≡ false
      → has_index i (add_row index row reasons later).failures ≡ false
  unfolding add_row
  add_row_before i index row [] later lt h = h
  add_row_before i index row (reason ∷ reasons) later lt h = ground (arith, h, lt)

  failures_before :
      (i index : ℕ) (rows : List Row) (seen : Dict (List String))
      → i < index
      → has_index i (evaluate_rows required not_null unique index rows seen).failures ≡ false
  unfolding evaluate_rows
  failures_before i index [] seen lt = refl
  failures_before i index (row ∷ rows) seen lt =
      let (reasons, after) = row_failures required not_null unique row seen in
      add_row_before i index row reasons
        (evaluate_rows required not_null unique (suc index) rows after) lt
        (failures_before i (suc index) rows after (omega (arith, lt)))

  -- the result gives each row back, at its position
  abbrev IsSplit : ℕ → List Row → ContractResult → Type 0
  IsSplit index rows r =
      (r.passed_rows ≡ pick (λ i. not (has_index i r.failures)) index rows)
      × (map (λ q. q.0) r.quarantined_rows ≡ pick (λ i. has_index i r.failures) index rows)
      × (map (λ q. q.1) r.quarantined_rows ≡ map (λ f. f.1) r.failures)

  add_row-IsSplit :
      (index : ℕ) (row : Row) (reasons : List String) (rows : List Row) (later : ContractResult)
      → has_index index later.failures ≡ false
      → IsSplit (suc index) rows later
      → IsSplit index (row ∷ rows) (add_row index row reasons later)
  unfolding add_row
  add_row-IsSplit index row [] rows later fresh (passed, quarantined, why) =
      (rw fresh (ap (λ l. row ∷ l) passed), rw fresh quarantined, why)
  add_row-IsSplit index row (reason ∷ reasons) rows later fresh (passed, quarantined, why) =
      let now = reason ∷ reasons in
      (
        ground (
          arith,
          passed,
          pick_congr (λ i. not (has_index i ((index, now) ∷ later.failures)))
              (λ i. not (has_index i later.failures)) (suc index) rows (λ i le. ground (arith, le)),
        ),
        ground (
          arith,
          quarantined,
          pick_congr (λ i. has_index i ((index, now) ∷ later.failures))
              (λ i. has_index i later.failures) (suc index) rows (λ i le. ground (arith, le)),
        ),
        ap (λ l. now ∷ l) why,
      )

  rows-IsSplit :
      (index : ℕ) (rows : List Row) (seen : Dict (List String))
      → IsSplit index rows (evaluate_rows required not_null unique index rows seen)
  unfolding evaluate_rows
  rows-IsSplit index [] seen = (refl, refl, refl)
  rows-IsSplit index (row ∷ rows) seen =
      let (reasons, after) = row_failures required not_null unique row seen in
      add_row-IsSplit index row reasons rows
        (evaluate_rows required not_null unique (suc index) rows after)
        (failures_before index (suc index) rows after (omega arith))
        (rows-IsSplit (suc index) rows after)

-- The rows at the positions that the failures name are quarantined, with the reasons that the
-- failures give for them, and the rows at all other positions pass, both in their order; and no
-- passed row lacks a required column or has a blank in a column that may not be null.
pub contracts_partition :
    (rows : List Row) (required not_null unique : List String)
    → let r = evaluate_quality_contracts rows required not_null unique in
      (r.passed_rows ≡ pick (λ i. not (has_index i r.failures)) 0 rows)
      × (map (λ q. q.0) r.quarantined_rows ≡ pick (λ i. has_index i r.failures) 0 rows)
      × (map (λ q. q.1) r.quarantined_rows ≡ map (λ f. f.1) r.failures)
      × (any (is_incomplete required not_null) r.passed_rows ≡ false)
unfolding evaluate_quality_contracts
contracts_partition rows required not_null unique =
    let (passed, quarantined, why) =
      rows-IsSplit required not_null unique 0 rows (nothing_seen unique) in
    (passed, quarantined, why, rows_complete required not_null unique 0 rows (nothing_seen unique))
