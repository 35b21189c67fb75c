-- ===== src/Base/Lists.antt =====
-- Lists over the native numbers, and tables: lists of rows with a text key.
use Prim.Native.Nat.{ℕ, zero, suc, ◌+◌, ◌≤◌}
use Prim.Native.String.{String}
use mathlib.Core.Path.{◌≡◌, refl, subst}
use mathlib.Core.Logic.{inl, inr}
use mathlib.Core.Bool.{Bool, true, false, ◌||◌}
use mathlib.Core.List.{List, [], ◌∷◌, ◌++◌}
use mathlib.Core.Option.{Option, none, some}
use native.Mathlib.Omega.{arith}
use text.Mathlib.Text.{◌==◌}
use text.Mathlib.TextEquality.{eq_iff}
use schema_pilot.Base.Tests.{if◌then◌else◌, Bool-cases}

module _ {ℓ} {A : Type ℓ} where
  abbrev pub length : List A → ℕ
  length [] = 0
  length (x ∷ xs) = suc (length xs)

  abbrev pub take : ℕ → List A → List A
  take zero xs = []
  take (suc n) [] = []
  take (suc n) (x ∷ xs) = x ∷ take n xs

  -- the rows that pass a test (SQL `where`, Python comprehensions with `if`)
  abbrev pub keep : (A → Bool) → List A → List A
  keep p [] = []
  keep p (x ∷ xs) = if p x then x ∷ keep p xs else keep p xs

  abbrev pub any : (A → Bool) → List A → Bool
  any p [] = false
  any p (x ∷ xs) = p x || any p xs

  abbrev pub All {κ} : (A → Type κ) → List A → Type κ
  All P [] = Unit
  All P (x ∷ xs) = P x × All P xs

  pub length-append : (xs ys : List A) → length (xs ++ ys) ≡ length xs + length ys
  length-append [] ys = omega arith
  length-append (x ∷ xs) ys = omega (arith, length-append xs ys)

  pub length-keep-le : (p : A → Bool) (xs : List A) → length (keep p xs) ≤ length xs
  length-keep-le p [] = omega arith
  length-keep-le p (x ∷ xs) = ground (arith, length-keep-le p xs)

  pub keep-append : (p : A → Bool) (xs ys : List A) → keep p (xs ++ ys) ≡ keep p xs ++ keep p ys
  keep-append p [] ys = refl
  keep-append p (x ∷ xs) ys = ground (arith, keep-append p xs ys)

-- `value in values`
abbrev pub contains : String → List String → Bool
contains k = any (λ j. j == k)

-- what holds of every listed text holds of one that is in the list
pub All-contains {κ} :
    (P : String → Type κ) (k : String) (l : List String) → All P l → contains k l ≡ true → P k
All-contains P k [] h c = cc
All-contains P k (a ∷ l) h c = elim (Bool-cases (a == k)) [
  | inl same ↦ subst P ((eq_iff a k).0 same) h.0
  | inr other ↦ All-contains P k l h.1 (ground arith)
]

module _ {ℓ} {A : Type ℓ} (key : A → String) where
  -- `session.get(Row, k)`: the row with that primary key
  abbrev pub get_row : String → List A → Option A
  get_row k [] = none
  get_row k (r ∷ rows) = if key r == k then some r else get_row k rows

  -- writes the changed row `r` back over the row with its key
  abbrev pub put_row : A → List A → List A
  put_row r [] = []
  put_row r (s ∷ rows) = if key s == key r then r ∷ rows else s ∷ put_row r rows

  pub get_row-put_row_self :
      (r s : A) (rows : List A)
      → get_row (key r) rows ≡ some s
      → get_row (key r) (put_row r rows) ≡ some r
  get_row-put_row_self r s [] h = cc
  get_row-put_row_self r s (t ∷ rows) h =
      ground (arith, get_row-put_row_self r s rows, eq_iff (key t) (key r), eq_iff (key r) (key r))

  pub get_row-put_row_ne :
      (r : A) (k : String) (rows : List A)
      → (key r == k) ≡ false
      → get_row k (put_row r rows) ≡ get_row k rows
  get_row-put_row_ne r k [] h = refl
  get_row-put_row_ne r k (t ∷ rows) h = ground (
    arith,
    get_row-put_row_ne r k rows,
    eq_iff (key t) (key r),
    eq_iff (key t) k,
    eq_iff (key r) k,
  )

  -- the row that is found has the key that was asked for
  pub key-get_row : (k : String) (r : A) (rows : List A) → get_row k rows ≡ some r → key r ≡ k
  key-get_row k r [] h = cc
  key-get_row k r (t ∷ rows) h = ground (arith, key-get_row k r rows, eq_iff (key t) k)

  pub get_row-append_some :
      (k : String) (r : A) (rows more : List A)
      → get_row k rows ≡ some r
      → get_row k (rows ++ more) ≡ some r
  get_row-append_some k r [] more h = cc
  get_row-append_some k r (t ∷ rows) more h = ground (arith, get_row-append_some k r rows more)

  pub get_row-append_none :
      (k : String) (rows more : List A)
      → get_row k rows ≡ none
      → get_row k (rows ++ more) ≡ get_row k more
  get_row-append_none k [] more h = refl
  get_row-append_none k (t ∷ rows) more h = ground (arith, get_row-append_none k rows more)
