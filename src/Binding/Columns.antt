-- ===== src/Binding/Columns.antt =====
-- The columns that a query may group by.
use mathlib.Core.Path.{subst}
use schema_pilot.Base.{
  String, Bool, true, not, ◌&&◌, ◌||◌, Option, none, some, List, [], ◌∷◌, ◌≡◌, refl, ap, ◌==◌, All,
  contains, get_row, is_empty, is_identifier, arith, Bool-cases, inl, inr,
}
use schema_pilot.Errors.{Error, value_error, ok, bind-ok, require-ok, ok_injective}
use schema_pilot.Semantic.{Entity, expect}
use schema_pilot.Binding.{Column, entity_key, column_of, check_column, has_column, parse_columns}

pub expect-ok : {A : Type 0} (o : Option A) (e : Error) (a : A) → expect o e ≡ ok a → o ≡ some a
expect-ok none e a h = cc
expect-ok (some b) e a h = ap (λ c. some c) (ok_injective h)

-- a column of an entity of the manifest: both names are identifiers, and the entity has the column
abbrev pub IsColumn : List Entity → Column → Type 0
IsColumn entities c =
    ((is_identifier c.0 && is_identifier c.1) ≡ true)
    × (e : Entity) × (get_row entity_key c.0 entities ≡ some e)
    × ((c.1 == e.primary_key || contains c.1 e.attributes) ≡ true)

check_column-ok :
    (entities : List Entity) (c d : Column) → check_column entities c ≡ ok d → IsColumn entities d
unfolding check_column
check_column-ok entities (entity_id, column) d h =
    let (names, h1) = require-ok (is_identifier entity_id && is_identifier column) _ _ d h in
    let (e, found, h2) =
      bind-ok
        (expect (get_row entity_key entity_id entities)
          (value_error "semantic_group_by_entity_not_found"))
        _ d h1 in
    let (listed, same) =
      require-ok (column == e.primary_key || contains column e.attributes) _ _ d h2 in
    subst (IsColumn entities) (ok_injective same) (names, e, expect-ok _ _ e found, listed)

-- the columns of the answer differ, and none was seen
abbrev pub are_new : List Column → List Column → Bool
are_new seen [] = true
are_new seen (c ∷ columns) = not (has_column c seen) && are_new (c ∷ seen) columns

pub parse_columns-ok :
    (entities : List Entity) (default_entity_id : String) (items : List String)
    (seen columns : List Column)
    → parse_columns entities default_entity_id items seen ≡ ok columns
    → (are_new seen columns ≡ true) × All (IsColumn entities) columns
unfolding parse_columns
parse_columns-ok entities default_entity_id [] seen columns h =
    subst (λ l. (are_new seen l ≡ true) × All (IsColumn entities) l) (ok_injective h) (refl, tt)
parse_columns-ok entities default_entity_id (item ∷ items) seen columns h =
    elim (Bool-cases (is_empty item)) [
      | inl empty ↦ parse_columns-ok entities default_entity_id items seen columns (rw empty at h)
      | inr filled ↦
          let (c, checked, h1) =
            bind-ok (check_column entities (column_of default_entity_id item)) _ columns
              (rw filled at h) in
          elim (Bool-cases (has_column c seen)) [
            | inl again ↦
                parse_columns-ok entities default_entity_id items seen columns (rw again at h1)
            | inr new ↦
                let (rest, more, same) =
                  bind-ok (parse_columns entities default_entity_id items (c ∷ seen)) _ columns
                    (rw new at h1) in
                let (differ, good) =
                  parse_columns-ok entities default_entity_id items (c ∷ seen) rest more in
                subst (λ l. (are_new seen l ≡ true) × All (IsColumn entities) l) (ok_injective same)
                  (
                    ground (arith, new, differ),
                    (check_column-ok entities (column_of default_entity_id item) c checked, good),
                  )
          ]
    ]
