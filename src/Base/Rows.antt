-- ===== src/Base/Rows.antt =====
-- Queries over tables: the first row that passes a test, and what writing a row does to it.
use Prim.Native.String.{String}
use mathlib.Core.Path.{◌≡◌, refl, subst}
use mathlib.Core.Logic.{◌≢◌, inl, inr}
use mathlib.Core.Bool.{Bool, true, false}
use mathlib.Core.List.{List, [], ◌∷◌, ◌++◌}
use mathlib.Core.Option.{Option, none, some}
use native.Mathlib.Omega.{arith}
use text.Mathlib.Text.{◌==◌}
use text.Mathlib.TextEquality.{eq_iff}
use schema_pilot.Base.Tests.{if◌then◌else◌, Bool-cases}
use schema_pilot.Base.Lists.{get_row, put_row, key-get_row}

module _ {ℓ} {A : Type ℓ} where
  -- `select(...).where(p)` and `.scalars().first()`
  abbrev pub find : (A → Bool) → List A → Option A
  find p [] = none
  find p (r ∷ rows) = if p r then some r else find p rows

  pub find-append_none :
      (p : A → Bool) (rows more : List A) → find p rows ≡ none → find p (rows ++ more) ≡ find p more
  find-append_none p [] more h = refl
  find-append_none p (t ∷ rows) more h = ground (arith, find-append_none p rows more)

  -- what a test rejects can be appended unseen
  pub find-append_unseen :
      (p : A → Bool) (r : A) (rows : List A) → p r ≡ false → find p (rows ++ r ∷ []) ≡ find p rows
  find-append_unseen p r [] h = ground arith
  find-append_unseen p r (t ∷ rows) h = ground (arith, find-append_unseen p r rows h)

  pub find_passes : (p : A → Bool) (r : A) (rows : List A) → find p rows ≡ some r → p r ≡ true
  find_passes p r [] h = cc
  find_passes p r (t ∷ rows) h = ground (arith, find_passes p r rows)

module _ {ℓ} {A : Type ℓ} (key : A → String) where
  -- the primary key constraint
  abbrev pub IsKeyed : List A → Type ℓ
  IsKeyed [] = Unit
  IsKeyed (r ∷ rows) = (get_row key (key r) rows ≡ none) × IsKeyed rows

  pub find-put_row_self :
      (p : A → Bool) (r s : A) (rows : List A)
      → get_row key (key r) rows ≡ some s
      → find p rows ≡ some s
      → p r ≡ true
      → find p (put_row key r rows) ≡ some r
  find-put_row_self p r s [] g h q = cc
  find-put_row_self p r s (t ∷ rows) g h q =
      ground (
        arith,
        find-put_row_self p r s rows,
        key-get_row key (key r) s rows,
        eq_iff (key t) (key r),
      )

  -- a row that the test passes over, before and after it is written
  pub find-put_row_unseen :
      (p : A → Bool) (r s : A) (rows : List A)
      → get_row key (key r) rows ≡ some s
      → p s ≡ false
      → p r ≡ false
      → find p (put_row key r rows) ≡ find p rows
  find-put_row_unseen p r s [] g h q = refl
  find-put_row_unseen p r s (t ∷ rows) g h q =
      ground (arith, find-put_row_unseen p r s rows, eq_iff (key t) (key r))

  get_row-find :
      (p : A → Bool) (r : A) (rows : List A)
      → find p rows ≡ some r
      → get_row key (key r) rows ≢ none
  get_row-find p r [] h = cc
  get_row-find p r (t ∷ rows) h = ground (arith, get_row-find p r rows, eq_iff (key t) (key r))

  -- in a table with a primary key the row that a query finds is the row of its key
  pub get_row_of_find :
      (p : A → Bool) (r : A) (rows : List A)
      → IsKeyed rows
      → find p rows ≡ some r
      → get_row key (key r) rows ≡ some r
  get_row_of_find p r [] w h = cc
  get_row_of_find p r (t ∷ rows) w h =
      ground (arith, get_row_of_find p r rows w.1, get_row-find p r rows, eq_iff (key t) (key r))

  get_row-put_row-none :
      (r : A) (k : String) (rows : List A)
      → get_row key k rows ≡ none
      → get_row key k (put_row key r rows) ≡ none
  get_row-put_row-none r k [] h = refl
  get_row-put_row-none r k (t ∷ rows) h = ground (
    arith,
    get_row-put_row-none r k rows,
    eq_iff (key t) (key r),
    eq_iff (key t) k,
    eq_iff (key r) k,
  )

  pub IsKeyed-put_row : (r : A) (rows : List A) → IsKeyed rows → IsKeyed (put_row key r rows)
  IsKeyed-put_row r [] w = tt
  IsKeyed-put_row r (t ∷ rows) w = elim (Bool-cases (key t == key r)) [
    | inl same ↦ rw same (
        subst (λ k. (get_row key k rows ≡ none) × IsKeyed rows) ((eq_iff (key t) (key r)).0 same) w)
    | inr other ↦ rw other (get_row-put_row-none r (key t) rows w.0, IsKeyed-put_row r rows w.1)
  ]
