-- ===== src/Sql.antt =====
-- backend/gateway/executor.py: which queries are sent to an engine, and which of its rows come back.
pub mod Guard
pub mod Filter
use Prim.Native.Char.{Char, code}
use Prim.Native.String.{◌++◌}
use schema_pilot.Base.{
  ℕ, zero, suc, String, Bool, true, false, not, ◌&&◌, ◌||◌, Option, none, some, List, [], ◌∷◌, ◌==◌,
  if◌then◌else◌, contains, take, strip, lower, is_empty, eqb, leb, min, is_word_char, is_word_start,
  is_identifier,
}
use schema_pilot.Base.Int.{ℤ, pos, negsuc}
use schema_pilot.Errors.{Error, value_error, Result, ok, err, require, ◌>>=◌, ◌>>◌}
use schema_pilot.Auth.{has_prefix}

abbrev pub unsafe_sql_keywords : List String
unsafe_sql_keywords =
    "insert" ∷ "update" ∷ "delete" ∷ "drop" ∷ "alter" ∷ "attach" ∷ "detach" ∷ "copy" ∷ "export"
    ∷ "pragma" ∷ "vacuum" ∷ "create" ∷ "replace" ∷ "truncate" ∷ "read_csv" ∷ "read_csv_auto"
    ∷ "read_parquet" ∷ "read_json" ∷ "read_json_auto" ∷ "glob" ∷ "install" ∷ "load" ∷ "httpfs" ∷ []

-- the longest front of word characters
unfoldable pub word_front : String → String
word_front String.[] = String.[]
word_front (String.◌∷◌ c s) =
    let rest = word_front s in if is_word_char (code c) then String.◌∷◌ c rest else String.[]

-- `TOKEN_RE.findall(text)`; `inside` says that the character in front belongs to a token
unfoldable pub tokens : Bool → String → List String
tokens inside String.[] = []
tokens inside (String.◌∷◌ c s) =
    let going = tokens true s in
    let waiting = tokens false s in
    if inside && is_word_char (code c)
    then going
    else if is_word_start (code c)
    then String.◌∷◌ c (word_front s) ∷ going
    else waiting

-- `";" in text`
unfoldable pub has_semicolon : String → Bool
has_semicolon String.[] = false
has_semicolon (String.◌∷◌ c s) = eqb (code c) 59 || has_semicolon s

-- the first token that is not safe
unfoldable pub first_unsafe : List String → Option String
first_unsafe [] = none
first_unsafe (t ∷ more) =
    let rest = first_unsafe more in if contains t unsafe_sql_keywords then some t else rest

-- the text in lower case: "İ" becomes an "i" and a combining dot, which is no word character
unfoldable pub lower_sql : String → String
lower_sql String.[] = String.[]
lower_sql (String.◌∷◌ c s) =
    let rest = lower_sql s in
    if eqb (code c) 0x130
    then String.◌∷◌ "i" (String.◌∷◌ "̇" rest)
    else lower (String.◌∷◌ c String.[]) ++ rest

-- `_validate_read_only_query`; an `UnsafeSqlError` is a ValueError
unfoldable pub validate_read_only_query : String → Result String
unfolding lower_sql
validate_read_only_query query =
    let normalized = if is_empty (strip query) then "select 1 as one" else strip query in
    let lowered = lower_sql normalized in
    if has_semicolon normalized
    then err (value_error "multiple_sql_statements_denied")
    else if not (has_prefix "select" lowered || has_prefix "with " lowered)
    then err (value_error "only_select_or_cte_queries_allowed")
    else elim (first_unsafe (tokens false lowered)) [
      | none ↦ ok normalized
      | some token ↦ err (value_error ("unsafe_sql_keyword_denied:" ++ token))
    ]

-- `_normalized_max_rows`
unfoldable pub normalized_max_rows : ℤ → ℕ
normalized_max_rows (pos zero) = 1
normalized_max_rows (pos (suc n)) = min (suc n) 5000
normalized_max_rows (negsuc n) = 1

-- `_validate_filter_column`
unfoldable pub validate_filter_column : String → Result String
validate_filter_column column =
    let normalized = strip column in
    if is_identifier normalized
    then ok normalized
    else err (value_error ("Invalid ABAC filter column: " ++ column))

-- `column_names.index(column)`
unfoldable pub index_of : String → List String → Option ℕ
index_of column [] = none
index_of column (name ∷ names) =
    let rest = index_of column names in
    if name == column then some 0 else elim rest [ none ↦ none | some i ↦ some (suc i) ]

-- `V` is the type of a cell, `str_of` Python's `str`.
module _ {V : Type 0} (str_of : V → String) where
  -- `row[i]`, where the row is long enough
  unfoldable pub cell_at : ℕ → List V → Option V
  cell_at i [] = none
  cell_at zero (v ∷ row) = some v
  cell_at (suc i) (v ∷ row) = cell_at i row

  unfoldable pub row_matches : ℕ → String → List V → Bool
  row_matches i value row = elim (cell_at i row) [ none ↦ false | some v ↦ str_of v == value ]

  -- the loop over the rows; `missing` rows are still wanted
  unfoldable pub filter_rows : ℕ → String → ℕ → List (List V) → List (List V)
  filter_rows i value missing [] = []
  filter_rows i value zero (row ∷ rows) =
      let rest = filter_rows i value zero rows in
      elim (cell_at i row) [ none ↦ rest | some v ↦ if str_of v == value then row ∷ [] else [] ]
  filter_rows i value (suc zero) (row ∷ rows) =
      let rest = filter_rows i value 1 rows in if row_matches i value row then row ∷ [] else rest
  filter_rows i value (suc (suc n)) (row ∷ rows) =
      let found = filter_rows i value (suc n) rows in
      let rest = filter_rows i value (suc (suc n)) rows in
      if row_matches i value row then row ∷ found else rest

  -- at the index of the column, if the result has it
  unfoldable pub filter_at : Option ℕ → String → ℕ → List (List V) → Result (List (List V))
  filter_at none value capped_rows rows = ok []
  filter_at (some i) value capped_rows rows = ok (filter_rows i value capped_rows rows)

  -- `_apply_optional_row_filter`
  unfoldable pub apply_optional_row_filter :
      List String → List (List V) → Option (String × String) → ℕ → Result (List (List V))
  apply_optional_row_filter columns rows none capped_rows = ok (take capped_rows rows)
  apply_optional_row_filter columns rows (some (column, value)) capped_rows = do
    normalized ← validate_filter_column column
    filter_at (index_of normalized columns) value capped_rows rows

-- `_safe_identifier`: every character that is no word character becomes "_"
unfoldable pub word_text : String → String
word_text String.[] = String.[]
word_text (String.◌∷◌ c s) = String.◌∷◌ (if is_word_char (code c) then c else "_") (word_text s)

unfoldable pub guard_digit : String → String
guard_digit String.[] = "model"
guard_digit (String.◌∷◌ c s) =
    if leb 48 (code c) && leb (code c) 57 then String.◌∷◌ "_" (String.◌∷◌ c s) else String.◌∷◌ c s

unfoldable pub safe_identifier : String → String
unfolding word_text guard_digit
safe_identifier value = guard_digit (word_text value)
