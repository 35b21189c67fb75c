-- ===== src/Evidence/Uri.antt =====
-- `evidence://<workspace_id>/<evidence_id>`: building and parsing.
use Prim.Native.Char.{Char, code}
use Prim.Native.String.{◌++◌}
use schema_pilot.Base.{
  String, Bool, ◌&&◌, ◌||◌, Option, none, some, List, [], ◌∷◌, eqb, if◌then◌else◌, is_empty,
}
use schema_pilot.Errors.{Result, ok, err, value_error}

abbrev pub evidence_uri_prefix : String
evidence_uri_prefix = "evidence://"

unfoldable pub build_evidence_uri : String → String → String
build_evidence_uri workspace_id evidence_id =
    evidence_uri_prefix ++ (workspace_id ++ ("/" ++ evidence_id))

-- `uri.removeprefix(p)` where `uri.startswith(p)`, and nothing where it does not
unfoldable pub drop_prefix : String → String → Option String
drop_prefix String.[] s = some s
drop_prefix (String.◌∷◌ c p) String.[] = none
drop_prefix (String.◌∷◌ c p) (String.◌∷◌ d s) =
    let rest = drop_prefix p s in if eqb (code c) (code d) then rest else none

abbrev pub slash : Char
slash = "/"

abbrev pub is_slash : Char → Bool
is_slash c = eqb (code c) (code slash)

unfoldable pub lstrip_slash : String → String
lstrip_slash String.[] = String.[]
lstrip_slash (String.◌∷◌ c s) = if is_slash c then lstrip_slash s else String.◌∷◌ c s

unfoldable pub rstrip_slash : String → String
rstrip_slash String.[] = String.[]
rstrip_slash (String.◌∷◌ c s) =
    let rest = rstrip_slash s in
    if is_empty rest && is_slash c then String.[] else String.◌∷◌ c rest

-- one more character at the front of the first part
abbrev pub onto_first : Char → List String → List String
onto_first c [] = String.◌∷◌ c String.[] ∷ []
onto_first c (p ∷ ps) = String.◌∷◌ c p ∷ ps

-- `text.split("/")`
unfoldable pub split_slash : String → List String
split_slash String.[] = String.[] ∷ []
split_slash (String.◌∷◌ c s) =
    let rest = split_slash s in if is_slash c then String.[] ∷ rest else onto_first c rest

abbrev bad_shape : Result (String × String)
bad_shape = err (value_error "Evidence URI must be evidence://<workspace_id>/<evidence_id>.")

-- the test `len(parts) != 2 or not parts[0] or not parts[1]`
unfoldable pub two_parts : List String → Result (String × String)
two_parts (a ∷ b ∷ []) = if is_empty a || is_empty b then bad_shape else ok (a, b)
two_parts _ = bad_shape

unfoldable pub parse_evidence_uri : String → Result (String × String)
unfolding drop_prefix lstrip_slash rstrip_slash split_slash two_parts
parse_evidence_uri uri = elim (drop_prefix evidence_uri_prefix uri) [
  | none ↦ err (value_error "Evidence URI must start with evidence://.")
  | some remainder ↦ two_parts (split_slash (rstrip_slash (lstrip_slash remainder)))
]
