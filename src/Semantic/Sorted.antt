-- ===== src/Semantic/Sorted.antt =====
-- Sorting rows and texts: what it keeps, and that sorting again changes nothing.
use Prim.Native.Char.{Char, code}
use Prim.Native.Nat.{Ordering, compare}
use Prim.Native.String.{then, compare as compare_texts}
use Prim.Native.String.compare.{nil-nil, nil-cons, cons-nil, cons-cons}
use mathlib.Core.Path.{subst}
use schema_pilot.Contracts.Unique.{is_distinct}
use schema_pilot.Semantic.{distinct_texts}
use schema_pilot.Base.{
  sym, ℕ, ◌≡◌, refl, ap, ◌∙◌, String, Bool, true, false, not, ◌&&◌, ◌||◌, List, [], ◌∷◌, ◌==◌,
  if◌then◌else◌, All, contains, order_rows, insert_row, sort_texts, insert_text, text_leb, ltb, eqb,
  arith, eq_iff,
}

abbrev is_not_gt : Ordering → Bool
is_not_gt o = elim o [ Ordering.gt ↦ false | _ ↦ true ]

nil_leb : (t : String) → text_leb String.[] t ≡ true
nil_leb String.[] = ap is_not_gt nil-nil
nil_leb (String.◌∷◌ d t) = ap is_not_gt (nil-cons d t)

cons_leb_nil : (c : Char) (s : String) → text_leb (String.◌∷◌ c s) String.[] ≡ false
cons_leb_nil c s = ap is_not_gt (cons-nil c s)

then_leb :
    (m n : ℕ) (o : Ordering)
    → is_not_gt ((then) (compare m n) o) ≡ (if ltb m n then true else eqb m n && is_not_gt o)
then_leb m n o = ground arith

cons_leb :
    (c d : Char) (s t : String)
    → text_leb (String.◌∷◌ c s) (String.◌∷◌ d t)
      ≡ (if ltb (code c) (code d) then true else eqb (code c) (code d) && text_leb s t)
cons_leb c d s t = ap is_not_gt (cons-cons c d s t) ∙ then_leb (code c) (code d) (compare_texts s t)

text_leb_total : (s t : String) → text_leb s t ≡ false → text_leb t s ≡ true
text_leb_total String.[] t h = ground (arith, nil_leb t)
text_leb_total (String.◌∷◌ c s) String.[] h = nil_leb (String.◌∷◌ c s)
text_leb_total (String.◌∷◌ c s) (String.◌∷◌ d t) h =
    ground (arith, cons_leb c d s t, cons_leb d c t s, text_leb_total s t)

module _ {ℓ} {A : Type ℓ} (key : A → String) where
  -- in order, each next to the following
  abbrev pub is_sorted : List A → Bool
  is_sorted [] = true
  is_sorted (a ∷ []) = true
  is_sorted (a ∷ b ∷ rest) = text_leb (key a) (key b) && is_sorted (b ∷ rest)

  is_sorted-insert :
      (a : A) (l : List A) → is_sorted l ≡ true → is_sorted (insert_row key a l) ≡ true
  unfolding insert_row
  is_sorted-insert a [] h = refl
  is_sorted-insert a (b ∷ []) h = ground (arith, text_leb_total (key a) (key b))
  is_sorted-insert a (b ∷ c ∷ l) h =
      ground (arith, text_leb_total (key a) (key b), is_sorted-insert a (c ∷ l))

  is_sorted-order_rows : (l : List A) → is_sorted (order_rows key l) ≡ true
  unfolding order_rows
  is_sorted-order_rows [] = refl
  is_sorted-order_rows (a ∷ l) = is_sorted-insert a (order_rows key l) (is_sorted-order_rows l)

  order_rows_sorted : (l : List A) → is_sorted l ≡ true → order_rows key l ≡ l
  unfolding order_rows insert_row
  order_rows_sorted [] h = refl
  order_rows_sorted (a ∷ []) h = refl
  order_rows_sorted (a ∷ b ∷ l) h = ground (arith, order_rows_sorted (b ∷ l))

  pub order_rows_twice : (l : List A) → order_rows key (order_rows key l) ≡ order_rows key l
  order_rows_twice l = order_rows_sorted (order_rows key l) (is_sorted-order_rows l)

  -- the keys of the rows differ, and none of them was seen
  abbrev pub is_fresh : List String → List A → Bool
  is_fresh seen [] = true
  is_fresh seen (a ∷ l) = not (contains (key a) seen) && is_fresh (key a ∷ seen) l

  contains_swap :
      (a b k : String) (seen : List String) → contains k (a ∷ b ∷ seen) ≡ contains k (b ∷ a ∷ seen)
  contains_swap a b k seen = ground arith

  -- only what was seen matters, not in which order
  is_fresh-seen :
      (seen seen' : List String) (l : List A)
      → ((k : String) → contains k seen ≡ contains k seen')
      → is_fresh seen l ≡ is_fresh seen' l
  is_fresh-seen seen seen' [] same = refl
  is_fresh-seen seen seen' (a ∷ l) same = ground (
    arith,
    same (key a),
    is_fresh-seen (key a ∷ seen) (key a ∷ seen') l (λ k. ground (arith, same k)),
  )

  is_fresh-insert :
      (seen : List String) (a : A) (l : List A)
      → is_fresh seen (insert_row key a l) ≡ is_fresh seen (a ∷ l)
  unfolding insert_row
  is_fresh-insert seen a [] = refl
  is_fresh-insert seen a (b ∷ l) = ground (
    arith,
    is_fresh-insert (key b ∷ seen) a l,
    is_fresh-seen (key a ∷ key b ∷ seen) (key b ∷ key a ∷ seen) l
        (λ k. contains_swap (key a) (key b) k seen),
    eq_iff (key a) (key b),
    eq_iff (key b) (key a),
  )

  pub is_fresh-order_rows :
      (seen : List String) (l : List A) → is_fresh seen (order_rows key l) ≡ is_fresh seen l
  unfolding order_rows
  is_fresh-order_rows seen [] = refl
  is_fresh-order_rows seen (a ∷ l) =
      ground
        (arith, is_fresh-insert seen a (order_rows key l), is_fresh-order_rows (key a ∷ seen) l)

  All-insert : (P : A → Type 0) (a : A) (l : List A) → P a → All P l → All P (insert_row key a l)
  unfolding insert_row
  All-insert P a [] p h = (p, tt)
  All-insert P a (b ∷ l) p h =
      elim (text_leb (key a) (key b))
        as (λ t. All P (if t then a ∷ b ∷ l else b ∷ insert_row key a l)) [
          | true ↦ (p, h)
          | false ↦ (h.0, All-insert P a l p h.1)
        ]

  pub All-order_rows : (P : A → Type 0) (l : List A) → All P l → All P (order_rows key l)
  unfolding order_rows
  All-order_rows P [] h = tt
  All-order_rows P (a ∷ l) h = All-insert P a (order_rows key l) h.0 (All-order_rows P l h.1)

insert_text_row : (a : String) (l : List String) → insert_text a l ≡ insert_row (λ t. t) a l
unfolding insert_text insert_row
insert_text_row a [] = refl
insert_text_row a (b ∷ l) = ground (arith, insert_text_row a l)

pub sort_texts_rows : (l : List String) → sort_texts l ≡ order_rows (λ t. t) l
unfolding sort_texts order_rows
sort_texts_rows [] = refl
sort_texts_rows (a ∷ l) =
    insert_text_row a (sort_texts l) ∙ ap (insert_row (λ t. t) a) (sort_texts_rows l)

contains-insert_text :
    (k a : String) (l : List String) → contains k (insert_text a l) ≡ (a == k || contains k l)
unfolding insert_text
contains-insert_text k a [] = refl
contains-insert_text k a (b ∷ l) = ground (arith, contains-insert_text k a l)

is_distinct-insert_text :
    (a : String) (l : List String)
    → is_distinct (insert_text a l) ≡ (not (contains a l) && is_distinct l)
unfolding insert_text
is_distinct-insert_text a [] = refl
is_distinct-insert_text a (b ∷ l) =
    ground (arith, is_distinct-insert_text a l, contains-insert_text b a l, eq_iff a b, eq_iff b a)

pub contains-sort_texts : (k : String) (l : List String) → contains k (sort_texts l) ≡ contains k l
unfolding sort_texts
contains-sort_texts k [] = refl
contains-sort_texts k (a ∷ l) =
    ground (arith, contains-insert_text k a (sort_texts l), contains-sort_texts k l)

pub is_distinct-sort_texts : (l : List String) → is_distinct (sort_texts l) ≡ is_distinct l
unfolding sort_texts
is_distinct-sort_texts [] = refl
is_distinct-sort_texts (a ∷ l) = ground (
  arith,
  is_distinct-insert_text a (sort_texts l),
  is_distinct-sort_texts l,
  contains-sort_texts a l,
)

pub contains-distinct_texts :
    (k : String) (l : List String) → contains k (distinct_texts l) ≡ contains k l
unfolding distinct_texts
contains-distinct_texts k [] = refl
contains-distinct_texts k (a ∷ l) = ground (arith, contains-distinct_texts k l, eq_iff a k)

pub is_distinct-distinct_texts : (l : List String) → is_distinct (distinct_texts l) ≡ true
unfolding distinct_texts
is_distinct-distinct_texts [] = refl
is_distinct-distinct_texts (a ∷ l) =
    ground (arith, is_distinct-distinct_texts l, contains-distinct_texts a l)

distinct_texts-is_distinct : (l : List String) → is_distinct l ≡ true → distinct_texts l ≡ l
unfolding distinct_texts
distinct_texts-is_distinct [] h = refl
distinct_texts-is_distinct (a ∷ l) h = ground (arith, distinct_texts-is_distinct l)

sort_texts_twice : (l : List String) → sort_texts (sort_texts l) ≡ sort_texts l
sort_texts_twice l =
    sort_texts_rows (sort_texts l)
    ∙ ap (order_rows (λ t. t)) (sort_texts_rows l)
    ∙ order_rows_twice (λ t. t) l
    ∙ sym (sort_texts_rows l)

-- the sorted list of a set is sorted once and for all
pub set_texts_twice :
    (l : List String)
    → sort_texts (distinct_texts (sort_texts (distinct_texts l))) ≡ sort_texts (distinct_texts l)
set_texts_twice l =
    ap sort_texts (
      distinct_texts-is_distinct (sort_texts (distinct_texts l))
        (is_distinct-sort_texts (distinct_texts l) ∙ is_distinct-distinct_texts l))
    ∙ sort_texts_twice (distinct_texts l)

All-distinct_texts : (P : String → Type 0) (l : List String) → All P l → All P (distinct_texts l)
unfolding distinct_texts
All-distinct_texts P [] h = tt
All-distinct_texts P (a ∷ l) h =
    elim (contains a l) as (λ t. All P (if t then distinct_texts l else a ∷ distinct_texts l)) [
      | true ↦ All-distinct_texts P l h.1
      | false ↦ (h.0, All-distinct_texts P l h.1)
    ]

pub All-set_texts :
    (P : String → Type 0) (l : List String) → All P l → All P (sort_texts (distinct_texts l))
All-set_texts P l h =
    subst (All P) (sym (sort_texts_rows (distinct_texts l)))
      (All-order_rows (λ t. t) P (distinct_texts l) (All-distinct_texts P l h))
