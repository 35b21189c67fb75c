-- ===== src/Entities.antt =====
-- backend/workers/entity_resolution.py and backend/workers/entity_resolution_v2.py: which records stand
-- for one entity, and how a merge is taken back. `R` is the type of a record, `id_of` and `name_of`
-- the texts of its two fields. Scores are of a type `N`: `passes` says that one reaches the threshold,
-- `min_score` is the lesser of two and `one` the number 1.0. `is_alnum` is Python's `str.isalnum` of
-- a character, `to_lower` its `str.lower`.
pub mod Disjoint
use Prim.Native.Char.{Char, code}
use Prim.Native.String.{◌++◌}
use schema_pilot.Base.{
  ℕ, String, Bool, true, false, not, ◌&&◌, ◌||◌, Option, none, some, List, [], ◌∷◌, ◌==◌,
  if◌then◌else◌, contains, keep, map, length, ltb, strip, is_empty, order_rows, sort_texts,
}
use schema_pilot.Semantic.{distinct_texts}

-- `xs + ys`
abbrev pub append_list {ℓ} : {A : Type ℓ} → List A → List A → List A
append_list [] ys = ys
append_list (x ∷ xs) ys = x ∷ append_list xs ys

-- A decision of the baseline; its confidence is always 1.0.
pub record MergeDecision : Type 0 where
  pub cluster_id : String
  pub canonical_id : String
  pub member_ids : List String
  pub pre_merge_member_ids : List String

pub record ErV2Decision (N : Type 0) : Type 0 where
  pub cluster_id : String
  pub canonical_id : String
  pub member_ids : List String
  pub score : N
  pub pre_merge_member_ids : List String

-- the first text of a list
abbrev pub first_of : List String → String
first_of [] = ""
first_of (a ∷ l) = a

-- `rollback_merge`, and `rollback_er_v2`, which leaves out blank texts
unfoldable pub rollback_merge : MergeDecision → List String
rollback_merge d = d.pre_merge_member_ids

unfoldable pub rollback_er_v2 : {N : Type 0} → ErV2Decision N → List String
rollback_er_v2 d = keep (λ t. not (is_empty (strip t))) d.pre_merge_member_ids

module _ (is_alnum : Char → Bool) (to_lower : String → String) where
  unfoldable pub alnum_only : String → String
  alnum_only String.[] = String.[]
  alnum_only (String.◌∷◌ c s) =
      let rest = alnum_only s in if is_alnum c then String.◌∷◌ c rest else rest

  -- `_normalize_name`
  unfoldable pub normalize_name : String → String
  unfolding alnum_only
  normalize_name name = alnum_only (strip (to_lower name))

  unfoldable pub alnum_or_space : String → String
  alnum_or_space String.[] = String.[]
  alnum_or_space (String.◌∷◌ c s) = String.◌∷◌ (if is_alnum c then c else " ") (alnum_or_space s)

  -- `_normalize_token`
  unfoldable pub normalize_token : String → String
  unfolding alnum_or_space
  normalize_token value = alnum_or_space (strip (to_lower value))

module _ {R : Type 0} (is_alnum : Char → Bool) (to_lower : String → String)
    (id_of name_of : R → String) where
  -- the decision on one bucket, if it has two records
  unfoldable pub merge_bucket : String → List R → List MergeDecision
  merge_bucket key members =
      let ids = map id_of (order_rows id_of members) in
      if ltb (length members) 2
      then []
      else record {
        cluster_id = "cluster_" ++ key;
        canonical_id = first_of ids;
        member_ids = ids;
        pre_merge_member_ids = ids;
      }
        ∷ []

  unfoldable pub merge_buckets : List String → List R → List MergeDecision
  unfolding merge_bucket
  merge_buckets [] records = []
  merge_buckets (key ∷ keys) records =
      append_list
        (merge_bucket key (keep (λ r. normalize_name is_alnum to_lower (name_of r) == key) records))
        (merge_buckets keys records)

  -- `resolve_entities`: the buckets in the order of their keys
  unfoldable pub resolve_entities : List R → List MergeDecision
  resolve_entities records =
      merge_buckets
        (sort_texts (
          distinct_texts (
            keep (λ key. not (is_empty key))
              (map (λ r. normalize_name is_alnum to_lower (name_of r)) records))))
        records

-- the records that join the first one's cluster, with the least score so far
pub record Cluster (N : Type 0) : Type 0 where
  pub members : List String
  pub best_score : N

module _ {R N : Type 0} (is_alnum : Char → Bool) (to_lower : String → String)
    (id_of name_of : R → String) (scorer : R → R → N) (passes : N → Bool) (min_score : N → N → N)
    (one : N) where
  -- the inner loop
  unfoldable pub join_cluster : R → List String → List R → Cluster N → Cluster N
  join_cluster left used [] c = c
  join_cluster left used (right ∷ rest) c =
      let right_id = strip (id_of right) in
      let score = scorer left right in
      join_cluster left used rest (
        if not (is_empty right_id || contains right_id used) && passes score
        then record {
          members = append_list c.members (right_id ∷ []);
          best_score = min_score c.best_score score;
        }
        else c)

  unfoldable pub decision_of : R → Cluster N → ErV2Decision N
  decision_of left c =
      let members = sort_texts (distinct_texts c.members) in
      let name = normalize_token is_alnum to_lower (name_of left) in
      record {
        cluster_id = "erv2_" ++ (if is_empty name then first_of members else name);
        canonical_id = first_of members;
        member_ids = members;
        score = c.best_score;
        pre_merge_member_ids = members;
      }

  -- the outer loop; `used` holds the members of the decisions so far
  unfoldable pub resolve_from : List String → List R → List (ErV2Decision N)
  unfolding decision_of
  resolve_from used [] = []
  resolve_from used (left ∷ rest) =
      let left_id = strip (id_of left) in
      let c = join_cluster left used rest (record { members = left_id ∷ []; best_score = one }) in
      let skipped = resolve_from used rest in
      let d = decision_of left c in
      let later = resolve_from (append_list d.member_ids used) rest in
      if is_empty left_id || contains left_id used || ltb (length c.members) 2
      then skipped
      else d ∷ later

  -- `resolve_entities_v2`
  unfoldable pub resolve_entities_v2 : List R → List (ErV2Decision N)
  resolve_entities_v2 records = resolve_from [] (order_rows id_of records)
