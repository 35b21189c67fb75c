-- ===== src/Contracts/Unique.antt =====
-- The passed rows differ in every unique column.
use schema_pilot.Base.{
  ℕ, suc, ◌≡◌, refl, String, Bool, true, false, not, ◌&&◌, ◌==◌, List, [], ◌∷◌, ◌++◌, map,
  if◌then◌else◌, keep, contains, Dict, insert, lookup-insert, arith, eq_iff, eq_refl, Bool-cases,
  inl, inr,
}
use schema_pilot.Contracts.Reasons.{not_null_reason}
use schema_pilot.Contracts.Partition.{append-nil}
use schema_pilot.Contracts.{
  Row, ContractResult, is_missing, is_blank, cell_text, seen_of, unique_failures, missing_failures,
  row_failures, add_row, evaluate_rows, nothing_seen, evaluate_quality_contracts,
}

-- No text stands twice in the list.
abbrev pub is_distinct : List String → Bool
is_distinct [] = true
is_distinct (a ∷ l) = not (contains a l) && is_distinct l

seen_of-insert :
    (k c : String) (values : List String) (seen : Dict (List String))
    → seen_of k (insert c values seen) ≡ (if c == k then values else seen_of k seen)
unfolding seen_of
seen_of-insert k c values seen = ground (arith, lookup-insert c k values seen)

-- what was seen stays seen
unique_failures_grows :
    (columns : List String) (row : Row) (seen : Dict (List String)) (k x : String)
    → contains x (seen_of k seen) ≡ true
    → contains x (seen_of k (unique_failures columns row seen).1) ≡ true
unfolding unique_failures
unique_failures_grows [] row seen k x h = h
unique_failures_grows (c ∷ columns) row seen k x h =
    let values = cell_text row c ∷ seen_of c seen in
    unique_failures_grows columns row (insert c values seen) k x
      (ground (arith, seen_of-insert k c values seen, eq_iff c k, h))

unique_failures_sees :
    (columns : List String) (row : Row) (seen : Dict (List String)) (k : String)
    → contains k columns ≡ true
    → contains (cell_text row k) (seen_of k (unique_failures columns row seen).1) ≡ true
unfolding unique_failures
unique_failures_sees [] row seen k h = cc
unique_failures_sees (c ∷ columns) row seen k h =
    let values = cell_text row c ∷ seen_of c seen in
    elim (Bool-cases (c == k)) [
      | inl same ↦
          unique_failures_grows columns row (insert c values seen) k (cell_text row k)
            (ground (arith, seen_of-insert k c values seen, eq_iff c k, eq_refl (cell_text row k)))
      | inr differ ↦ unique_failures_sees columns row (insert c values seen) k (ground arith)
    ]

unique_failures_fresh :
    (columns : List String) (row : Row) (seen : Dict (List String)) (k : String)
    → contains k columns ≡ true
    → (unique_failures columns row seen).0 ≡ []
    → contains (cell_text row k) (seen_of k seen) ≡ false
unfolding unique_failures
unique_failures_fresh [] row seen k h e = cc
unique_failures_fresh (c ∷ columns) row seen k h e =
    let values = cell_text row c ∷ seen_of c seen in
    ground (
      arith,
      eq_iff c k,
      seen_of-insert k c values seen,
      unique_failures_fresh columns row (insert c values seen) k,
    )

module _ (required not_null unique : List String) (k : String)
    (unique_k : contains k unique ≡ true) where
  -- the texts of the passed rows in the column
  abbrev pub texts : ContractResult → List String
  texts r = map (λ row. cell_text row k) r.passed_rows

  texts-add_row :
      (x : String) (index : ℕ) (row : Row) (reasons : List String) (later : ContractResult)
      → (reasons ≡ [] → (cell_text row k == x) ≡ false)
      → contains x (texts later) ≡ false
      → contains x (texts (add_row index row reasons later)) ≡ false
  unfolding add_row
  texts-add_row x index row [] later fresh h = ground (arith, fresh refl, h)
  texts-add_row x index row (reason ∷ reasons) later fresh h = h

  distinct-add_row :
      (index : ℕ) (row : Row) (reasons : List String) (later : ContractResult)
      → contains (cell_text row k) (texts later) ≡ false
      → is_distinct (texts later) ≡ true
      → is_distinct (texts (add_row index row reasons later)) ≡ true
  unfolding add_row
  distinct-add_row index row [] later fresh h = ground arith
  distinct-add_row index row (reason ∷ reasons) later fresh h = h

  -- a row without failures has a new text in the column
  row_fresh :
      (row : Row) (seen : Dict (List String))
      → (row_failures required not_null unique row seen).0 ≡ []
      → contains (cell_text row k) (seen_of k seen) ≡ false
  unfolding row_failures
  row_fresh row seen h =
      let repeated = (unique_failures unique row seen).0 in
      let (m, rest) =
        append-nil (missing_failures (keep (is_missing row) required))
          (map not_null_reason (keep (is_blank row) not_null) ++ repeated) h in
      let (n, u) = append-nil (map not_null_reason (keep (is_blank row) not_null)) repeated rest in
      unique_failures_fresh unique row seen k unique_k u

  -- what was seen is the text of no later passed row
  seen_not_passed :
      (index : ℕ) (rows : List Row) (seen : Dict (List String)) (x : String)
      → contains x (seen_of k seen) ≡ true
      → contains x (texts (evaluate_rows required not_null unique index rows seen)) ≡ false
  unfolding evaluate_rows row_failures
  seen_not_passed index [] seen x h = refl
  seen_not_passed index (row ∷ rows) seen x h =
      let reasons = (row_failures required not_null unique row seen).0 in
      let after = (unique_failures unique row seen).1 in
      texts-add_row x index row reasons
        (evaluate_rows required not_null unique (suc index) rows after)
        (λ e. ground (arith, row_fresh row seen e, h, eq_iff (cell_text row k) x))
        (seen_not_passed (suc index) rows after x (unique_failures_grows unique row seen k x h))

  texts-distinct :
      (index : ℕ) (rows : List Row) (seen : Dict (List String))
      → is_distinct (texts (evaluate_rows required not_null unique index rows seen)) ≡ true
  unfolding evaluate_rows row_failures
  texts-distinct index [] seen = refl
  texts-distinct index (row ∷ rows) seen =
      let reasons = (row_failures required not_null unique row seen).0 in
      let after = (unique_failures unique row seen).1 in
      distinct-add_row index row reasons
        (evaluate_rows required not_null unique (suc index) rows after)
        (seen_not_passed (suc index) rows after (cell_text row k)
          (unique_failures_sees unique row seen k unique_k))
        (texts-distinct (suc index) rows after)

  -- In a column that is declared unique no two passed rows have the same text.
  pub passed_distinct :
      (rows : List Row)
      → is_distinct (texts (evaluate_quality_contracts rows required not_null unique)) ≡ true
  unfolding evaluate_quality_contracts
  passed_distinct rows = texts-distinct 0 rows (nothing_seen unique)
