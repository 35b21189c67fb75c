-- ===== src/Sql/Guard.antt =====
-- No query with an unsafe keyword in it passes the guard.
use mathlib.Core.Bool.{false≢true}
use Prim.Native.Char.{Char, code}
use Prim.Native.String.{◌++◌}
use package.text.Mathlib.TextLemmas.{nil-append, cons-append}
use schema_pilot.Base.{
  String, Bool, true, false, not, ◌&&◌, ◌||◌, Option, none, some, List, [], ◌∷◌, ◌≡◌, ◌≢◌, refl, ap,
  ◌∙◌, sym, ◌==◌, if◌then◌else◌, contains, All, All-contains, strip, is_empty, is_word_char,
  is_word_start, arith, eq_iff, eq_refl, Bool-cases, inl, inr,
}
use schema_pilot.Errors.{Error, value_error, Result, ok, err}
use schema_pilot.Auth.{has_prefix}
use schema_pilot.Sql.{
  unsafe_sql_keywords, word_front, tokens, has_semicolon, first_unsafe, lower_sql,
  validate_read_only_query,
}

-- all its characters are word characters
abbrev all_word : String → Bool
all_word String.[] = true
all_word (String.◌∷◌ c s) = is_word_char (code c) && all_word s

-- a word that begins with a letter or "_"
abbrev is_token : String → Bool
is_token String.[] = false
is_token (String.◌∷◌ c s) = is_word_start (code c) && all_word s

-- the first, the last character is a word character
abbrev pub begins_in_word : String → Bool
begins_in_word String.[] = false
begins_in_word (String.◌∷◌ c s) = is_word_char (code c)

abbrev pub ends_in_word : String → Bool
ends_in_word String.[] = false
ends_in_word (String.◌∷◌ c String.[]) = is_word_char (code c)
ends_in_word (String.◌∷◌ c (String.◌∷◌ d s)) = ends_in_word (String.◌∷◌ d s)

-- whether the scan is inside a token behind the text
abbrev scan : Bool → String → Bool
scan inside String.[] = inside
scan inside (String.◌∷◌ c s) = scan ((inside && is_word_char (code c)) || is_word_start (code c)) s

scan_outside :
    (inside : Bool) (c : Char) (a : String)
    → ends_in_word (String.◌∷◌ c a) ≡ false
    → scan inside (String.◌∷◌ c a) ≡ false
unfolding is_word_char is_word_start
scan_outside inside c String.[] h = ground arith
scan_outside inside c (String.◌∷◌ d a) h =
    scan_outside ((inside && is_word_char (code c)) || is_word_start (code c)) d a h

scan_front : (a : String) → ends_in_word a ≡ false → scan false a ≡ false
scan_front String.[] h = refl
scan_front (String.◌∷◌ c a) h = scan_outside false c a h

contains_behind :
    (t : String) (inside : Bool) (a s : String)
    → contains t (tokens (scan inside a) s) ≡ true
    → contains t (tokens inside (a ++ s)) ≡ true
unfolding tokens
contains_behind t inside String.[] s h = rw nil-append h
contains_behind t inside (String.◌∷◌ c a) s h =
    let goes_on =
      contains_behind t ((inside && is_word_char (code c)) || is_word_start (code c)) a s h in
    rw cons-append (ground (arith, goes_on))

word_front-append :
    (u b : String) → all_word u ≡ true → begins_in_word b ≡ false → word_front (u ++ b) ≡ u
unfolding word_front
word_front-append String.[] String.[] h g = refl
word_front-append String.[] (String.◌∷◌ c b) h g = rw nil-append (ground arith)
word_front-append (String.◌∷◌ c u) b h g =
    rw (cons-append, word_front-append u b (ground arith) g) (ground arith)

token_found :
    (w b : String)
    → is_token w ≡ true
    → begins_in_word b ≡ false
    → contains w (tokens false (w ++ b)) ≡ true
unfolding tokens
token_found String.[] b h g = cc
token_found (String.◌∷◌ c u) b h g =
    rw (cons-append, word_front-append u b (ground arith) g)
      (ground (arith, eq_refl (String.◌∷◌ c u)))

keyword_tokens : All (λ w. is_token w ≡ true) unsafe_sql_keywords
unfolding is_word_char is_word_start
keyword_tokens = (
  refl,
  (
    refl,
    (
      refl,
      (
        refl,
        (
          refl,
          (
            refl,
            (
              refl,
              (
                refl,
                (
                  refl,
                  (
                    refl,
                    (
                      refl,
                      (
                        refl,
                        (
                          refl,
                          (
                            refl,
                            (
                              refl,
                              (refl, (refl, (refl, (refl, (refl, (refl, (refl, (refl, tt)))))))),
                            ),
                          ),
                        ),
                      ),
                    ),
                  ),
                ),
              ),
            ),
          ),
        ),
      ),
    ),
  ),
)

contains_later :
    (p : String → Bool) (w t : String) (l : List String)
    → p w ≡ true
    → p t ≡ false
    → contains w (t ∷ l) ≡ true
    → contains w l ≡ true
contains_later p w t l h g c = elim (Bool-cases (t == w)) [
  | inl same ↦ absurd (false≢true (sym g ∙ ap p ((eq_iff t w).0 same) ∙ h))
  | inr other ↦ ground arith
]

some_not-none : (t : String) → some t ≢ none
some_not-none t h = cc

first_unsafe-found :
    (w : String) (l : List String)
    → contains w unsafe_sql_keywords ≡ true
    → contains w l ≡ true
    → first_unsafe l ≢ none
unfolding first_unsafe
first_unsafe-found w [] h g = cc
first_unsafe-found w (t ∷ l) h g = elim (Bool-cases (contains t unsafe_sql_keywords)) [
  | inl bad ↦ rw bad (some_not-none t)
  | inr good ↦ rw good (
      first_unsafe-found w l h
        (contains_later (λ k. contains k unsafe_sql_keywords) w t l h good g))
]

-- of the three tests of the guard, the last
nothing_unsafe :
    (c d : Bool) (e e' : Error) (o : Option String) (f : String → Error) (m n : String)
    → (if c
        then err e
        else if d
        then err e'
        else elim o as (λ _. Result String) [ none ↦ ok m | some t ↦ err (f t) ])
      ≡ ok n
    → o ≡ none
nothing_unsafe true d e e' o f m n h = cc
nothing_unsafe false true e e' o f m n h = cc
nothing_unsafe false false e e' none f m n h = refl
nothing_unsafe false false e e' (some t) f m n h = cc

-- A query that contains an unsafe keyword, in any case, as a whole word, does not pass the guard: in its text
-- in lower case there is neither a word character in front of the keyword nor one behind it.
pub validate-rejects :
    (query n a w b : String)
    → contains w unsafe_sql_keywords ≡ true
    → lower_sql (if is_empty (strip query) then "select 1 as one" else strip query) ≡ a ++ (w ++ b)
    → ends_in_word a ≡ false
    → begins_in_word b ≡ false
    → validate_read_only_query query ≢ ok n
unfolding validate_read_only_query
validate-rejects query n a w b unsafe same front behind passed =
    let text = if is_empty (strip query) then "select 1 as one" else strip query in
    let found = contains_behind w false a (w ++ b) (
      rw (scan_front a front) (
        token_found w b
          (All-contains (λ k. is_token k ≡ true) w unsafe_sql_keywords keyword_tokens unsafe)
          behind)) in
    let in_text : contains w (tokens false (lower_sql text)) ≡ true = rw same found in
    first_unsafe-found w (tokens false (lower_sql text)) unsafe in_text (
      nothing_unsafe (has_semicolon text)
        (not (has_prefix "select" (lower_sql text) || has_prefix "with " (lower_sql text)))
        (value_error "multiple_sql_statements_denied")
        (value_error "only_select_or_cte_queries_allowed")
        (first_unsafe (tokens false (lower_sql text)))
        (λ token. value_error ("unsafe_sql_keyword_denied:" ++ token)) text n passed)
