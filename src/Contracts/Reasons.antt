-- ===== src/Contracts/Reasons.antt =====
-- The texts of the reasons.
use Prim.Native.String.{String, ◌++◌}
use schema_pilot.Base.{List, [], ◌∷◌}

-- `','.join(names)`
unfoldable pub join_commas : List String → String
join_commas [] = ""
join_commas (a ∷ []) = a
join_commas (a ∷ b ∷ rest) = a ++ ("," ++ join_commas (b ∷ rest))

abbrev pub missing_reason : List String → String
missing_reason columns = "missing_columns:" ++ join_commas columns

abbrev pub not_null_reason : String → String
not_null_reason column = "not_null:" ++ column

abbrev pub unique_reason : String → String
unique_reason column = "unique:" ++ column
