-- ===== src/Base/Sorting.antt =====
-- Python's `sorted` on texts, in the order of their code points.
use Prim.Native.Nat.{ℕ, zero, suc, ◌≤◌, Ordering}
use Prim.Native.String.{String, compare}
use mathlib.Core.Path.{◌≡◌, refl}
use mathlib.Core.Bool.{Bool, true, false, ◌||◌}
use mathlib.Core.List.{List, [], ◌∷◌}
use native.Mathlib.Omega.{arith}
use schema_pilot.Base.Tests.{if◌then◌else◌}
use schema_pilot.Base.Lists.{length, any, take}

-- `a <= b` on texts
abbrev pub text_leb : String → String → Bool
text_leb a b = elim (compare a b) [ Ordering.gt ↦ false | _ ↦ true ]

unfoldable pub insert_text : String → List String → List String
insert_text a [] = a ∷ []
insert_text a (b ∷ rest) = if text_leb a b then a ∷ b ∷ rest else b ∷ insert_text a rest

unfoldable pub sort_texts : List String → List String
unfolding insert_text
sort_texts [] = []
sort_texts (a ∷ rest) = insert_text a (sort_texts rest)

module _ {ℓ} {A : Type ℓ} (key : A → String) where
  -- `order_by` of a query on a text column
  unfoldable pub insert_row : A → List A → List A
  insert_row a [] = a ∷ []
  insert_row a (b ∷ rest) = if text_leb (key a) (key b) then a ∷ b ∷ rest else b ∷ insert_row a rest

  unfoldable pub order_rows : List A → List A
  unfolding insert_row
  order_rows [] = []
  order_rows (a ∷ rest) = insert_row a (order_rows rest)

  any-insert_row : (p : A → Bool) (a : A) (l : List A) → any p (insert_row a l) ≡ (p a || any p l)
  unfolding insert_row
  any-insert_row p a [] = refl
  any-insert_row p a (b ∷ l) = ground (arith, any-insert_row p a l)

  pub any-order_rows : (p : A → Bool) (l : List A) → any p (order_rows l) ≡ any p l
  unfolding order_rows
  any-order_rows p [] = refl
  any-order_rows p (a ∷ l) = ground (arith, any-order_rows p l, any-insert_row p a (order_rows l))

  pub any-take : (p : A → Bool) (n : ℕ) (l : List A) → any p l ≡ false → any p (take n l) ≡ false
  any-take p zero l h = refl
  any-take p (suc n) [] h = refl
  any-take p (suc n) (a ∷ l) h = ground (arith, any-take p n l)

pub length-take-le {ℓ} : {A : Type ℓ} (n : ℕ) (l : List A) → length (take n l) ≤ n
length-take-le zero l = omega arith
length-take-le (suc n) [] = omega arith
length-take-le (suc n) (a ∷ l) = omega (arith, length-take-le n l)
