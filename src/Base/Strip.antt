-- ===== src/Base/Strip.antt =====
-- What `strip` leaves as it is.
use Prim.Native.Char.{Char, code}
use Prim.Native.String.{String, ◌++◌}
use mathlib.Core.Path.{◌≡◌, refl, sym, ap, ◌∙◌}
use mathlib.Core.Logic.{inl, inr}
use mathlib.Core.Bool.{Bool, true, false, not}
use native.Mathlib.Omega.{arith}
use package.text.Mathlib.TextLemmas.{nil-append, cons-append}
use schema_pilot.Base.Tests.{Bool-cases}
use schema_pilot.Base.Text.{is_space, lstrip, rstrip, rstrip_step, strip, is_empty}

rstrip-step : (c : Char) (u : String) → rstrip u ≡ u → rstrip (rstrip_step c u) ≡ rstrip_step c u
unfolding rstrip rstrip_step
rstrip-step c String.[] h = elim (Bool-cases (is_space (code c))) [
  | inl space ↦ rw space refl
  | inr other ↦ rw other (rw other refl)
]
rstrip-step c (String.◌∷◌ d t) h = ap (rstrip_step c) h

rstrip-rstrip : (s : String) → rstrip (rstrip s) ≡ rstrip s
unfolding rstrip
rstrip-rstrip String.[] = refl
rstrip-rstrip (String.◌∷◌ c s) = rstrip-step c (rstrip s) (rstrip-rstrip s)

lstrip-step :
    (c : Char) (u : String) → is_space (code c) ≡ false → lstrip (rstrip_step c u) ≡ rstrip_step c u
unfolding lstrip rstrip_step
lstrip-step c String.[] h = ground arith
lstrip-step c (String.◌∷◌ d t) h = ground arith

lstrip-strip : (s : String) → lstrip (rstrip (lstrip s)) ≡ rstrip (lstrip s)
unfolding rstrip lstrip
lstrip-strip String.[] = refl
lstrip-strip (String.◌∷◌ c s) = elim (Bool-cases (is_space (code c))) [
  | inl space ↦ rw space (lstrip-strip s)
  | inr other ↦ rw other (lstrip-step c (rstrip s) other)
]

pub strip-strip : (s : String) → strip (strip s) ≡ strip s
unfolding strip
strip-strip s = ap rstrip (lstrip-strip s) ∙ rstrip-rstrip (lstrip s)

rstrip_step-front : (c : Char) (u : String) → is_empty u ≡ false → rstrip_step c u ≡ String.◌∷◌ c u
unfolding rstrip_step
rstrip_step-front c String.[] h = cc
rstrip_step-front c (String.◌∷◌ d t) h = refl

not_empty-append : (s : String) → is_empty (s ++ ")") ≡ false
not_empty-append String.[] = refl
not_empty-append (String.◌∷◌ c s) = rw cons-append refl

-- a text that ends in ")"
rstrip-paren : (s : String) → rstrip (s ++ ")") ≡ s ++ ")"
unfolding rstrip is_space rstrip_step
rstrip-paren String.[] = rw nil-append refl
rstrip-paren (String.◌∷◌ c s) =
    rw (cons-append, rstrip-paren s) (rstrip_step-front c (s ++ ")") (not_empty-append s))

lstrip-front :
    (c : Char) (s : String) → is_space (code c) ≡ false → lstrip (String.◌∷◌ c s) ≡ String.◌∷◌ c s
unfolding lstrip
lstrip-front c s h = ground arith

-- the first character is no whitespace
abbrev pub starts_filled : String → Bool
starts_filled String.[] = false
starts_filled (String.◌∷◌ c s) = not (is_space (code c))

pub starts_filled-append : (s t : String) → starts_filled s ≡ true → starts_filled (s ++ t) ≡ true
starts_filled-append String.[] t h = cc
starts_filled-append (String.◌∷◌ c s) t h = rw cons-append h

-- a text with no whitespace in front and a ")" behind
pub strip-call :
    (s : String)
    → starts_filled s ≡ true
    → (strip (s ++ ")") ≡ s ++ ")") × (is_empty (s ++ ")") ≡ false)
unfolding strip
strip-call String.[] h = cc
strip-call (String.◌∷◌ c s) h = (
  ap (λ t. rstrip (lstrip t)) (cons-append c s ")")
      ∙ ap rstrip (lstrip-front c (s ++ ")") (ground arith))
      ∙ ap rstrip (sym (cons-append c s ")"))
      ∙ rstrip-paren (String.◌∷◌ c s),
  not_empty-append (String.◌∷◌ c s),
)
