-- ===== src/Contracts.antt =====
-- backend/workers/contracts.py: the quality contracts of rows, and the partition into passed and
-- quarantined rows. A cell is `None`, a text, or a value of another type with its `str`. A quarantined
-- row stands beside its reasons, which the code puts into the row.
pub mod Reasons
pub mod Partition
pub mod Unique
use schema_pilot.Base.{
  ℕ, suc, String, Bool, true, false, not, Option, none, some, List, [], ◌∷◌, ◌++◌, map,
  if◌then◌else◌, keep, contains, is_empty, is_some, sort_texts, Dict, lookup, insert,
}
use Reasons.{missing_reason, not_null_reason, unique_reason}

pub data Cell : Type 0 where
  null : Cell
  text : String → Cell
  other : String → Cell

abbrev pub Row : Type 0
Row = Dict Cell

pub record ContractResult : Type 0 where
  pub passed_rows : List Row
  pub quarantined_rows : List (Row × List String)
  pub failures : List (ℕ × List String)

abbrev pub is_missing : Row → String → Bool
is_missing row column = not (is_some (lookup column row))

-- `row.get(column) in (None, "")`
unfoldable pub is_blank : Row → String → Bool
is_blank row column = elim (lookup column row) [
  | none ↦ true
  | some cell ↦ elim cell [ null ↦ true | text s ↦ is_empty s | other s ↦ false ]
]

-- `str(row.get(column, ""))`
unfoldable pub cell_text : Row → String → String
cell_text row column = elim (lookup column row) [
  | none ↦ ""
  | some cell ↦ elim cell [ null ↦ "None" | text s ↦ s | other s ↦ s ]
]

-- `unique_seen[column]`
unfoldable pub seen_of : String → Dict (List String) → List String
seen_of column seen = elim (lookup column seen) [ none ↦ [] | some values ↦ values ]

-- the last loop over the columns of one row: its failures, and what was seen after it
unfoldable pub unique_failures :
    List String → Row → Dict (List String) → List String × Dict (List String)
unique_failures [] row seen = ([], seen)
unique_failures (column ∷ columns) row seen =
    let value = cell_text row column in
    let before = seen_of column seen in
    let (rest, after) = unique_failures columns row (insert column (value ∷ before) seen) in
    (if contains value before then unique_reason column ∷ rest else rest, after)

-- the columns that are missing, as one failure
unfoldable pub missing_failures : List String → List String
missing_failures [] = []
missing_failures (column ∷ columns) = missing_reason (sort_texts (column ∷ columns)) ∷ []

unfoldable pub row_failures :
    List String
    → List String
    → List String
    → Row
    → Dict (List String)
    → List String × Dict (List String)
row_failures required not_null unique row seen =
    let (repeated, after) = unique_failures unique row seen in
    (
      missing_failures (keep (is_missing row) required)
          ++ (map not_null_reason (keep (is_blank row) not_null) ++ repeated),
      after,
    )

-- a row with its failures, in front of what the later rows give
unfoldable pub add_row : ℕ → Row → List String → ContractResult → ContractResult
add_row index row [] later = record later { passed_rows = row ∷ later.passed_rows }
add_row index row (reason ∷ reasons) later = record later {
  quarantined_rows = (row, reason ∷ reasons) ∷ later.quarantined_rows;
  failures = (index, reason ∷ reasons) ∷ later.failures;
}

unfoldable pub evaluate_rows :
    List String → List String → List String → ℕ → List Row → Dict (List String) → ContractResult
evaluate_rows required not_null unique index [] seen = record {
  passed_rows = [];
  quarantined_rows = [];
  failures = [];
}
evaluate_rows required not_null unique index (row ∷ rows) seen =
    let (reasons, after) = row_failures required not_null unique row seen in
    add_row index row reasons (evaluate_rows required not_null unique (suc index) rows after)

-- `{column: set() for column in unique_columns}`
unfoldable pub nothing_seen : List String → Dict (List String)
nothing_seen [] = []
nothing_seen (column ∷ columns) = insert column [] (nothing_seen columns)

unfoldable pub evaluate_quality_contracts :
    List Row → List String → List String → List String → ContractResult
evaluate_quality_contracts rows required not_null unique =
    evaluate_rows required not_null unique 0 rows (nothing_seen unique)
