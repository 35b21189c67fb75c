-- ===== src/Base/Text.antt =====
-- Python's `str.strip`, `str.lower`, `str.isdigit` and string slicing, as far as the code uses them.
use Prim.Native.Nat.{ℕ, zero, suc, ◌/◌, ◌%◌}
use Prim.Native.Char.{Char, code}
use Prim.Native.String.{String, ◌++◌}
use mathlib.Core.Bool.{Bool, true, false, ◌&&◌, ◌||◌}
use mathlib.Core.List.{List, [], ◌∷◌}
use schema_pilot.Base.Tests.{leb, eqb, if◌then◌else◌}

-- `str.isspace` of one character
unfoldable pub is_space : ℕ → Bool
is_space c =
    (leb 9 c && leb c 13)
    || (leb 28 c && leb c 32)
    || eqb c 0x85
    || eqb c 0xa0
    || eqb c 0x1680
    || (leb 0x2000 c && leb c 0x200a)
    || eqb c 0x2028
    || eqb c 0x2029
    || eqb c 0x202f
    || eqb c 0x205f
    || eqb c 0x3000

unfoldable pub lstrip : String → String
lstrip String.[] = String.[]
lstrip (String.◌∷◌ c s) = if is_space (code c) then lstrip s else String.◌∷◌ c s

-- a character in front of a text that ends in no space
unfoldable pub rstrip_step : Char → String → String
rstrip_step c String.[] = if is_space (code c) then String.[] else String.◌∷◌ c String.[]
rstrip_step c (String.◌∷◌ d t) = String.◌∷◌ c (String.◌∷◌ d t)

unfoldable pub rstrip : String → String
unfolding rstrip_step
rstrip String.[] = String.[]
rstrip (String.◌∷◌ c s) = rstrip_step c (rstrip s)

-- `text.strip()`
unfoldable pub strip : String → String
unfolding is_space lstrip rstrip
strip s = rstrip (lstrip s)

-- the table `from`, `to` of a character map
lookup_char : ℕ → List (Char × Char) → Char → Char
lookup_char c [] d = d
lookup_char c ((from, to) ∷ rest) d = if eqb (code from) c then to else lookup_char c rest d

abbrev upper_to_lower : List (Char × Char)
upper_to_lower =
    ("A", "a")
    ∷ ("B", "b")
    ∷ ("C", "c")
    ∷ ("D", "d")
    ∷ ("E", "e")
    ∷ ("F", "f")
    ∷ ("G", "g")
    ∷ ("H", "h")
    ∷ ("I", "i")
    ∷ ("J", "j")
    ∷ ("K", "k")
    ∷ ("L", "l")
    ∷ ("M", "m")
    ∷ ("N", "n")
    ∷ ("O", "o")
    ∷ ("P", "p")
    ∷ ("Q", "q")
    ∷ ("R", "r")
    ∷ ("S", "s")
    ∷ ("T", "t")
    ∷ ("U", "u")
    ∷ ("V", "v")
    ∷ ("W", "w")
    ∷ ("X", "x")
    ∷ ("Y", "y")
    ∷ ("Z", "z")
    ∷ ("K", "k")
    ∷ []

-- `text.lower()` on ASCII, and on the Kelvin sign, the one other character whose lower case is an
-- ASCII letter: the result is compared with ASCII words only
unfoldable pub lower : String → String
unfolding lookup_char
lower String.[] = String.[]
lower (String.◌∷◌ c s) = String.◌∷◌ (lookup_char (code c) upper_to_lower c) (lower s)

abbrev pub is_empty : String → Bool
is_empty String.[] = true
is_empty (String.◌∷◌ c s) = false

-- `text.replace(" ", "_")`
unfoldable pub spaces_to_underscores : String → String
unfolding lookup_char
spaces_to_underscores String.[] = String.[]
spaces_to_underscores (String.◌∷◌ c s) =
    String.◌∷◌ (lookup_char (code c) ((" ", "_") ∷ []) c) (spaces_to_underscores s)

-- `text[:n]`
unfoldable pub take_text : ℕ → String → String
take_text zero s = String.[]
take_text (suc n) String.[] = String.[]
take_text (suc n) (String.◌∷◌ c s) = String.◌∷◌ c (take_text n s)

digit_text : ℕ → String
digit_text n =
    if eqb n 0
    then "0"
    else if eqb n 1
    then "1"
    else if eqb n 2
    then "2"
    else if eqb n 3
    then "3"
    else if eqb n 4
    then "4"
    else if eqb n 5
    then "5"
    else if eqb n 6
    then "6"
    else if eqb n 7
    then "7"
    else if eqb n 8
    then "8"
    else "9"

-- `str` of a number with at most `fuel` digits
decimal_digits : ℕ → ℕ → String
unfolding digit_text
decimal_digits zero n = String.[]
decimal_digits (suc fuel) n =
    let rest = decimal_digits fuel (n / 10) in
    if leb n 9 then digit_text n else rest ++ digit_text (n % 10)

-- `str(n)`: a number has no more digits than its value, and one
unfoldable pub decimal : ℕ → String
unfolding decimal_digits
decimal n = decimal_digits (suc n) n

-- an ASCII letter, a digit or "_"
unfoldable pub is_word_char : ℕ → Bool
is_word_char c =
    (leb 48 c && leb c 57) || (leb 65 c && leb c 90) || eqb c 95 || (leb 97 c && leb c 122)

-- `[A-Za-z_]`
unfoldable pub is_word_start : ℕ → Bool
is_word_start c = (leb 65 c && leb c 90) || eqb c 95 || (leb 97 c && leb c 122)

-- `[A-Za-z0-9_]*$`: the `$` also matches in front of a last line feed
unfoldable pub is_identifier_rest : String → Bool
unfolding is_word_char
is_identifier_rest String.[] = true
is_identifier_rest (String.◌∷◌ c s) =
    if is_word_char (code c) then is_identifier_rest s else eqb (code c) 10 && is_empty s

-- `^[A-Za-z_][A-Za-z0-9_]*$`
unfoldable pub is_identifier : String → Bool
unfolding is_word_start
is_identifier String.[] = false
is_identifier (String.◌∷◌ c s) = is_word_start (code c) && is_identifier_rest s
