-- ===== src/Settings/Redaction.antt =====
-- What the redaction of a database URL hides.
use Prim.Native.Char.{code}
use Prim.Native.String.{String, ◌++◌}
use package.text.Mathlib.TextLemmas.{nil-append, cons-append}
use schema_pilot.Base.{ℕ, ◌≡◌, refl, ap, ◌∙◌, Bool, false, ◌||◌, some, none, eqb, arith}
use schema_pilot.Settings.{
  split_scheme, behind_last_at, last_at, redact_split, redact_host, redact_url_credentials,
}

-- a character with that number is in the text
abbrev pub has_char : ℕ → String → Bool
has_char n String.[] = false
has_char n (String.◌∷◌ c s) = eqb (code c) n || has_char n s

split_scheme-append :
    (scheme rest : String)
    → has_char 58 scheme ≡ false
    → split_scheme (scheme ++ ("://" ++ rest)) ≡ some (scheme, rest)
unfolding split_scheme
split_scheme-append String.[] rest h =
    rw (nil-append, cons-append, cons-append, cons-append, nil-append) refl
split_scheme-append (String.◌∷◌ c scheme) rest h =
    rw (cons-append, split_scheme-append scheme rest (ground arith)) (ground arith)

behind_last_at-none : (host : String) → has_char 64 host ≡ false → behind_last_at host ≡ none
unfolding behind_last_at
behind_last_at-none String.[] h = refl
behind_last_at-none (String.◌∷◌ c host) h =
    rw (behind_last_at-none host (ground arith)) (ground arith)

behind_last_at-append :
    (user host : String)
    → has_char 64 host ≡ false
    → behind_last_at (user ++ ("@" ++ host)) ≡ some host
unfolding behind_last_at last_at
behind_last_at-append String.[] host h =
    rw (nil-append, cons-append, nil-append, behind_last_at-none host h) refl
behind_last_at-append (String.◌∷◌ c user) host h =
    ap behind_last_at (cons-append c user ("@" ++ host))
    ∙ ap (last_at c (user ++ ("@" ++ host))) (behind_last_at-append user host h)

-- Of a URL with credentials, whatever they are, the redaction keeps the scheme and the host alone. The
-- scheme has no ":" and the host no "@".
pub redact_hides :
    (scheme credentials host : String)
    → has_char 58 scheme ≡ false
    → has_char 64 host ≡ false
    → redact_url_credentials (scheme ++ ("://" ++ (credentials ++ ("@" ++ host))))
      ≡ scheme ++ ("://<redacted>@" ++ host)
unfolding redact_url_credentials redact_split redact_host
redact_hides scheme credentials host h g =
    let rest = credentials ++ ("@" ++ host) in
    let value = scheme ++ ("://" ++ rest) in
    ap (redact_split value) (split_scheme-append scheme rest h)
    ∙ ap (redact_host value scheme) (behind_last_at-append credentials host g)
