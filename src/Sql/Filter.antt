-- ===== src/Sql/Filter.antt =====
-- The rows that a row filter lets through.
use schema_pilot.Base.{
  ℕ, zero, suc, String, true, Option, some, List, [], ◌∷◌, ◌≡◌, refl, ap, ◌∙◌, take, keep, strip,
  is_identifier, arith,
}
use schema_pilot.Errors.{Result, ok, ◌>>=◌}
use schema_pilot.Sql.{
  validate_filter_column, index_of, row_matches, filter_rows, filter_at, apply_optional_row_filter,
}

take_one : {A : Type 0} (a : A) (l : List A) → take 1 (a ∷ l) ≡ a ∷ []
take_one a [] = refl
take_one a (b ∷ l) = refl

module _ {V : Type 0} (str_of : V → String) where
  filter_rows-take :
      (i : ℕ) (value : String) (n : ℕ) (rows : List (List V))
      → filter_rows str_of i value (suc n) rows
        ≡ take (suc n) (keep (row_matches str_of i value) rows)
  unfolding filter_rows
  filter_rows-take i value n [] = refl
  filter_rows-take i value zero (row ∷ rows) = ground (arith, filter_rows-take i value zero rows)
  filter_rows-take i value (suc n) (row ∷ rows) =
      ground (arith, filter_rows-take i value n rows, filter_rows-take i value (suc n) rows)

  column_passes :
      (column : String)
      → is_identifier (strip column) ≡ true
      → validate_filter_column column ≡ ok (strip column)
  unfolding validate_filter_column
  column_passes column valid = rw valid refl

  -- With a filter on a column that the result has, what comes back is the rows with the value in that
  -- column, in their order, the first `suc n` of them where that is the limit.
  pub apply-keep :
      (columns : List String) (rows : List (List V)) (column value : String) (i n : ℕ)
      → is_identifier (strip column) ≡ true
      → index_of (strip column) columns ≡ some i
      → apply_optional_row_filter str_of columns rows (some (column, value)) (suc n)
        ≡ ok (take (suc n) (keep (row_matches str_of i value) rows))
  unfolding apply_optional_row_filter filter_at
  apply-keep columns rows column value i n valid found =
      ap
        (λ (r : Result String). r >>= λ c. filter_at str_of (index_of c columns) value (suc n) rows)
        (column_passes column valid)
      ∙ ap (λ (o : Option ℕ). filter_at str_of o value (suc n) rows) found
      ∙ ap (λ (l : List (List V)). ok l) (filter_rows-take i value n rows)
