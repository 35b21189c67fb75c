-- ===== src/Binding/Datasets.antt =====
-- The datasets that a bound query names.
use mathlib.Core.Path.{subst}
use schema_pilot.Base.{
  String, true, false, Option, none, some, List, [], ◌∷◌, ◌≡◌, refl, ap, ◌∙◌, ◌==◌, All, contains,
  get_row, strip, is_empty, arith, Bool-cases, inl, inr, eq_iff, eq_refl,
}
use schema_pilot.Semantic.{Entity, distinct_texts}
use schema_pilot.Semantic.Sorted.{contains-sort_texts, contains-distinct_texts}
use schema_pilot.Semantic.Entities.{IsEntity}
use schema_pilot.Binding.Columns.{IsColumn}
use schema_pilot.Binding.{
  Column, add_entities, entity_key, add_dataset, datasets_of, dataset_ids_of,
}

some_injective : {A : Type 0} {a b : A} → some a ≡ some b → a ≡ b
some_injective h = cc

All-get_row :
    (k : String) (e : Entity) (entities : List Entity)
    → All IsEntity entities
    → get_row entity_key k entities ≡ some e
    → IsEntity e
All-get_row k e [] good h = cc
All-get_row k e (x ∷ entities) good h = elim (Bool-cases (entity_key x == k)) [
  | inl here ↦ subst IsEntity (some_injective (rw here at h)) good.0
  | inr there ↦ All-get_row k e entities good.1 (rw there at h)
]

add_dataset_self :
    (e : Entity) (rest : List String)
    → is_empty (strip e.dataset_id) ≡ false
    → contains e.dataset_id (add_dataset (some e) rest) ≡ true
add_dataset_self e rest filled = rw filled (rw (eq_refl e.dataset_id) refl)

add_dataset-keeps :
    (d : String) (o : Option Entity) (rest : List String)
    → contains d rest ≡ true
    → contains d (add_dataset o rest) ≡ true
add_dataset-keeps d none rest h = h
add_dataset-keeps d (some e) rest h = ground (arith, h)

datasets_of-contains :
    (entities : List Entity) (k : String) (e : Entity) (involved : List String)
    → get_row entity_key k entities ≡ some e
    → is_empty (strip e.dataset_id) ≡ false
    → contains k involved ≡ true
    → contains e.dataset_id (datasets_of entities involved) ≡ true
datasets_of-contains entities k e [] found filled h = cc
datasets_of-contains entities k e (j ∷ rest) found filled h = elim (Bool-cases (j == k)) [
  | inl same ↦
      ap
        (λ i.
          contains e.dataset_id
            (add_dataset (get_row entity_key i entities) (datasets_of entities rest)))
        ((eq_iff j k).0 same)
      ∙ ap (λ o. contains e.dataset_id (add_dataset o (datasets_of entities rest))) found
      ∙ add_dataset_self e (datasets_of entities rest) filled
  | inr other ↦
      add_dataset-keeps e.dataset_id (get_row entity_key j entities) (datasets_of entities rest)
        (datasets_of-contains entities k e rest found filled (ground arith))
]

-- the entity is in the manifest, and its dataset is named
abbrev pub IsCovered : List Entity → List String → String → Type 0
IsCovered entities dataset_ids k =
    (e : Entity) × (get_row entity_key k entities ≡ some e)
    × (contains e.dataset_id dataset_ids ≡ true)

pub dataset_ids_of-contains :
    (entities : List Entity) (k : String) (e : Entity) (involved : List String)
    → All IsEntity entities
    → get_row entity_key k entities ≡ some e
    → contains k involved ≡ true
    → IsCovered entities (dataset_ids_of entities involved) k
unfolding dataset_ids_of
dataset_ids_of-contains entities k e involved good found h =
    let valid = All-get_row k e entities good found in
    let listed =
      datasets_of-contains entities k e involved found (ap is_empty valid.1.0 ∙ valid.1.1) h in
    (
      e,
      found,
      contains-sort_texts e.dataset_id (distinct_texts (datasets_of entities involved))
          ∙ contains-distinct_texts e.dataset_id (datasets_of entities involved)
          ∙ listed,
    )

-- the entities of a query, all but the first of which come from its columns
pub entities-IsCovered :
    (entities : List Entity) (columns : List Column) (found all : List String)
    → All IsEntity entities
    → All (IsColumn entities) columns
    → ((k : String) → contains k (add_entities columns found) ≡ true → contains k all ≡ true)
    → All (IsCovered entities (dataset_ids_of entities all)) (add_entities columns found)
unfolding add_entities
entities-IsCovered entities [] found all good columns_good inside = tt
entities-IsCovered entities ((k, column) ∷ columns) found all good columns_good inside =
    elim (Bool-cases (contains k found)) [
      | inl again ↦ rw again (
          entities-IsCovered entities columns found all good columns_good.1
            (λ j h. inside j (rw again h)))
      | inr new ↦ rw new (
        dataset_ids_of-contains entities k columns_good.0.1 all good columns_good.0.2
            (inside k (rw new (rw (eq_refl k) refl))),
        entities-IsCovered entities columns (k ∷ found) all good columns_good.1
            (λ j h. inside j (rw new (ground (arith, h)))),
      )
    ]
