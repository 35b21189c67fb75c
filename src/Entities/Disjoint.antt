-- ===== src/Entities/Disjoint.antt =====
-- The decisions of the second version share no member.
use Prim.Native.Char.{Char}
use schema_pilot.Base.{
  String, Bool, true, false, not, ◌&&◌, ◌||◌, List, [], ◌∷◌, ◌≡◌, refl, ap, ◌∙◌, ◌==◌,
  if◌then◌else◌, contains, any, length, ltb, strip, is_empty, order_rows, any-order_rows,
  sort_texts, arith, eq_iff, Bool-cases, inl, inr,
}
use schema_pilot.Contracts.Unique.{is_distinct}
use schema_pilot.Semantic.{distinct_texts}
use schema_pilot.Semantic.Sorted.{
  sort_texts_rows, is_distinct-sort_texts, is_distinct-distinct_texts,
}
use schema_pilot.Entities.{
  append_list, ErV2Decision, Cluster, join_cluster, decision_of, resolve_from, resolve_entities_v2,
}

-- some text of the list was used
abbrev overlaps : List String → List String → Bool
overlaps used l = any (λ k. contains k used) l

any-append :
    (p : String → Bool) (xs ys : List String) → any p (append_list xs ys) ≡ (any p xs || any p ys)
any-append p [] ys = refl
any-append p (x ∷ xs) ys = ground (arith, any-append p xs ys)

any-contains :
    (p : String → Bool) (k : String) (l : List String)
    → contains k l ≡ true
    → p k ≡ true
    → any p l ≡ true
any-contains p k [] h g = cc
any-contains p k (a ∷ l) h g = elim (Bool-cases (a == k)) [
  | inl same ↦ rw (ap p ((eq_iff a k).0 same) ∙ g) refl
  | inr other ↦ ground (arith, any-contains p k l)
]

any-distinct_texts : (p : String → Bool) (l : List String) → any p (distinct_texts l) ≡ any p l
unfolding distinct_texts
any-distinct_texts p [] = refl
any-distinct_texts p (a ∷ l) = elim (Bool-cases (contains a l)) [
  | inr new ↦ rw new (ap (λ b. p a || b) (any-distinct_texts p l))
  | inl again ↦ rw again (any-distinct_texts p l ∙ absorbed again)
]
  where
    absorbed : contains a l ≡ true → any p l ≡ (p a || any p l)
    absorbed again = ground (arith, any-contains p a l again)

any-set : (p : String → Bool) (l : List String) → any p (sort_texts (distinct_texts l)) ≡ any p l
any-set p l =
    ap (any p) (sort_texts_rows (distinct_texts l))
    ∙ any-order_rows (λ t. t) p (distinct_texts l)
    ∙ any-distinct_texts p l

overlaps-used :
    (m used l : List String) → overlaps (append_list m used) l ≡ (overlaps m l || overlaps used l)
overlaps-used m used [] = refl
overlaps-used m used (k ∷ l) =
    ground (arith, overlaps-used m used l, any-append (λ j. j == k) m used)

overlaps-nil : (l : List String) → overlaps [] l ≡ false
overlaps-nil [] = refl
overlaps-nil (k ∷ l) = overlaps-nil l

overlaps-one : (k : String) (l : List String) → overlaps (k ∷ []) l ≡ contains k l
overlaps-one k [] = refl
overlaps-one k (j ∷ l) = ground (arith, overlaps-one k l, eq_iff k j, eq_iff j k)

is_distinct-append :
    (m l : List String)
    → is_distinct (append_list m l) ≡ (is_distinct m && (is_distinct l && not (overlaps m l)))
is_distinct-append [] l = ground (arith, overlaps-nil l)
is_distinct-append (k ∷ m) l = ground (
  arith,
  is_distinct-append m l,
  any-append (λ j. j == k) m l,
  overlaps-used (k ∷ []) m l,
  overlaps-one k l,
)

abbrev pub all_members : {N : Type 0} → List (ErV2Decision N) → List String
all_members [] = []
all_members (d ∷ ds) = append_list d.member_ids (all_members ds)

module _ {R N : Type 0} (is_alnum : Char → Bool) (to_lower : String → String)
    (id_of name_of : R → String) (scorer : R → R → N) (passes : N → Bool) (min_score : N → N → N)
    (one : N) where
  join_cluster-unused :
      (left : R) (used : List String) (rest : List R) (c : Cluster N)
      → overlaps used c.members ≡ false
      → overlaps used
          (join_cluster is_alnum to_lower id_of name_of scorer passes min_score one left used rest
            c).members
        ≡ false
  unfolding join_cluster
  join_cluster-unused left used [] c h = h
  join_cluster-unused left used (right ∷ rest) c h =
      let right_id = strip (id_of right) in
      let score = scorer left right in
      let joined : Cluster N = record {
        members = append_list c.members (right_id ∷ []);
        best_score = min_score c.best_score score;
      } in
      let joins = not (is_empty right_id || contains right_id used) && passes score in
      let unused : overlaps used (if joins then joined else c).members ≡ false =
        elim (Bool-cases joins) [
          | inr out ↦ rw out h
          | inl in_cluster ↦ rw in_cluster (
              any-append (λ k. contains k used) c.members (right_id ∷ [])
              ∙ ground (arith, h, in_cluster))
        ] in
      join_cluster-unused left used rest (if joins then joined else c) unused

  -- against the members so far
  resolve_from-disjoint :
      (used : List String) (rows : List R)
      → let all =
          all_members
            (resolve_from is_alnum to_lower id_of name_of scorer passes min_score one used rows) in
        (overlaps used all ≡ false) × (is_distinct all ≡ true)
  unfolding resolve_from decision_of
  resolve_from-disjoint used [] = (refl, refl)
  resolve_from-disjoint used (left ∷ rest) =
      let left_id = strip (id_of left) in
      let start : Cluster N = record { members = left_id ∷ []; best_score = one } in
      let c =
        join_cluster is_alnum to_lower id_of name_of scorer passes min_score one left used rest
          start in
      let d = decision_of is_alnum to_lower id_of name_of scorer passes min_score one left c in
      elim (Bool-cases (is_empty left_id || contains left_id used || ltb (length c.members) 2)) [
        | inl skip ↦ rw skip (resolve_from-disjoint used rest)
        | inr take ↦
            let start_unused : overlaps used start.members ≡ false = ground (arith, take) in
            let fresh : overlaps used d.member_ids ≡ false =
              any-set (λ k. contains k used) c.members
              ∙ join_cluster-unused left used rest start start_unused in
            let own : is_distinct d.member_ids ≡ true =
              is_distinct-sort_texts (distinct_texts c.members)
              ∙ is_distinct-distinct_texts c.members in
            let later = all_members (
              resolve_from is_alnum to_lower id_of name_of scorer passes min_score one
                (append_list d.member_ids used) rest) in
            let more = resolve_from-disjoint (append_list d.member_ids used) rest in
            let split = overlaps-used d.member_ids used later in
            rw take (
              any-append (λ k. contains k used) d.member_ids later
                  ∙ ground (arith, fresh, more.0, split),
              is_distinct-append d.member_ids later ∙ ground (arith, own, more.0, more.1, split),
            )
      ]

  -- No record's identifier stands twice in the members of the decisions: neither in two decisions, nor
  -- twice in one.
  pub resolve_entities_v2-disjoint :
      (records : List R)
      → is_distinct (
          all_members (
            resolve_entities_v2 is_alnum to_lower id_of name_of scorer passes min_score one
              records))
        ≡ true
  unfolding resolve_entities_v2
  resolve_entities_v2-disjoint records = (resolve_from-disjoint [] (order_rows id_of records)).1
