-- ===== src/Access/Masks.antt =====
-- What the mask "partial_reveal" hides.
use Prim.Native.Char.{Char}
use Prim.Native.String.{◌++◌}
use text.Mathlib.TextLemmas.{nil-append, cons-append}
use schema_pilot.Base.{
  ℕ, zero, suc, ◌+◌, ◌-◌, ◌≤◌, ◌<◌, ◌≡◌, ◌⊎◌, refl, ap, ◌∙◌, String, Option, none, some, leb,
  take_text, arith, Bool-cases, inl, inr,
}
use schema_pilot.Access.{text_length, stars, last_text, partial_reveal}

-- `text[i]`
unfoldable pub char_at : ℕ → String → Option Char
char_at i String.[] = none
char_at zero (String.◌∷◌ c s) = some c
char_at (suc i) (String.◌∷◌ c s) = char_at i s

text_length-append : (s t : String) → text_length (s ++ t) ≡ text_length s + text_length t
unfolding text_length
text_length-append String.[] t = ground (arith, nil-append t)
text_length-append (String.◌∷◌ c s) t = ground (arith, cons-append c s t, text_length-append s t)

text_length-stars : (n : ℕ) → text_length (stars n) ≡ n
unfolding text_length stars
text_length-stars zero = refl
text_length-stars (suc n) = omega (arith, text_length-stars n)

text_length-last : (c : Char) (s : String) → text_length (last_text (String.◌∷◌ c s)) ≡ 1
unfolding text_length last_text
text_length-last c String.[] = refl
text_length-last c (String.◌∷◌ d s) = text_length-last d s

char_at-stars : (i n : ℕ) (t : String) → i < n → char_at i (stars n ++ t) ≡ some "*"
unfolding char_at stars
char_at-stars i zero t h = ground arith
char_at-stars zero (suc n) t h = rw cons-append
char_at-stars (suc i) (suc n) t h = rw cons-append (char_at-stars i n t (omega arith))

char_at-stars_alone : (i n : ℕ) → i < n → char_at i (stars n) ≡ some "*"
unfolding char_at stars
char_at-stars_alone i zero h = ground arith
char_at-stars_alone zero (suc n) h = refl
char_at-stars_alone (suc i) (suc n) h = char_at-stars_alone i n (omega arith)

-- behind its first character
char_at-long :
    (c : Char) (i n : ℕ) (t : String)
    → 1 ≤ i
    → i ≤ n
    → char_at i (String.◌∷◌ c String.[] ++ (stars n ++ t)) ≡ some "*"
unfolding char_at
char_at-long c zero n t h g = ground arith
char_at-long c (suc i) n t h g = rw cons-append (rw nil-append (char_at-stars i n t (omega arith)))

-- the text of at most two characters, and the longer one
short_reveal : (s : String) → text_length s ≤ 2 → partial_reveal s ≡ stars (text_length s)
unfolding partial_reveal
short_reveal s h = ground arith

long_reveal :
    (c : Char) (s : String)
    → 2 < text_length (String.◌∷◌ c s)
    → partial_reveal (String.◌∷◌ c s)
      ≡ String.◌∷◌ c String.[]
        ++ (stars (text_length (String.◌∷◌ c s) - 2) ++ last_text (String.◌∷◌ c s))
unfolding partial_reveal take_text
long_reveal c s h = ground arith

size-cases : (s : String) → (text_length s ≤ 2) ⊎ (2 < text_length s)
size-cases s = elim (Bool-cases (leb (text_length s) 2)) [
  | inl h ↦ inl (ground arith)
  | inr h ↦ inr (ground arith)
]

reveal-length : (s : String) → text_length (partial_reveal s) ≡ text_length s
reveal-length String.[] =
    ap text_length (short_reveal String.[] (unfold text_length in omega arith))
    ∙ text_length-stars (text_length String.[])
reveal-length (String.◌∷◌ c s) =
    let t = String.◌∷◌ c s in
    elim (size-cases t) [
      | inl short ↦ ap text_length (short_reveal t short) ∙ text_length-stars (text_length t)
      | inr long ↦
          unfold text_length in
          ground (
            arith,
            long_reveal c s long,
            text_length-append (String.◌∷◌ c String.[]) (stars (text_length t - 2) ++ last_text t),
            text_length-append (stars (text_length t - 2)) (last_text t),
            text_length-stars (text_length t - 2),
            text_length-last c s,
          )
    ]

reveal_hidden :
    (s : String) (i : ℕ)
    → i < text_length s
    → (text_length s ≤ 2) ⊎ ((1 ≤ i) × (suc i < text_length s))
    → char_at i (partial_reveal s) ≡ some "*"
reveal_hidden s i below (inl short) =
    ap (char_at i) (short_reveal s short) ∙ char_at-stars_alone i (text_length s) below
reveal_hidden String.[] i below (inr inner) = unfold text_length in ground arith
reveal_hidden (String.◌∷◌ c s) i below (inr inner) =
    let t = String.◌∷◌ c s in
    ap (char_at i) (long_reveal c s (omega (arith, inner.0, inner.1)))
    ∙ char_at-long c i (text_length t - 2) (last_text t) inner.0 (omega (arith, inner.1))

-- The mask keeps the length of a text, and every character of a text of at most two characters, and
-- every character but the first and the last of a longer one, is a star.
pub partial_reveal_hides :
    (s : String) (i : ℕ)
    → i < text_length s
    → (text_length s ≤ 2) ⊎ ((1 ≤ i) × (suc i < text_length s))
    → (text_length (partial_reveal s) ≡ text_length s) × (char_at i (partial_reveal s) ≡ some "*")
partial_reveal_hides s i below hidden = (reveal-length s, reveal_hidden s i below hidden)
