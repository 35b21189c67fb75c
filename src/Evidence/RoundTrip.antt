-- ===== src/Evidence/RoundTrip.antt =====
-- A URI that is built is parsed back.
use Prim.Native.String.{◌++◌}
use text.Mathlib.TextLemmas.{nil-append, cons-append}
use schema_pilot.Base.{String, ◌≡◌, refl, ap, false, some, [], ◌∷◌, ◌∙◌, is_empty, arith}
use schema_pilot.Errors.{ok}
use schema_pilot.Evidence.Uri.{
  build_evidence_uri, parse_evidence_uri, drop_prefix, slash, is_slash, lstrip_slash, rstrip_slash,
  split_slash, two_parts, evidence_uri_prefix,
}

-- No character of the text is a slash.
abbrev HasNoSlash : String → Type 0
HasNoSlash String.[] = Unit {0}
HasNoSlash (String.◌∷◌ c s) = (is_slash c ≡ false) × HasNoSlash s

drop_prefix-append : (p s : String) → drop_prefix p (p ++ s) ≡ some s
unfolding drop_prefix
drop_prefix-append String.[] s = rw nil-append
drop_prefix-append (String.◌∷◌ c p) s = rw cons-append (ground (arith, drop_prefix-append p s))

-- where the rest is not empty, trailing slashes are those of the rest
rstrip-no_slash : (s : String) → HasNoSlash s → rstrip_slash s ≡ s
unfolding rstrip_slash
rstrip-no_slash String.[] h = refl
rstrip-no_slash (String.◌∷◌ c s) h = ground (arith, rstrip-no_slash s h.1)

split-no_slash : (s : String) → HasNoSlash s → split_slash s ≡ s ∷ []
unfolding split_slash
split-no_slash String.[] h = refl
split-no_slash (String.◌∷◌ c s) h = ground (arith, split-no_slash s h.1)

slash-append : (b : String) → "/" ++ b ≡ String.◌∷◌ slash b
slash-append b = cons-append slash String.[] b ∙ ap (String.◌∷◌ slash) (nil-append b)

-- the part of the URI behind the prefix, as a list of characters
abbrev path_text : String → String → String
path_text a b = a ++ String.◌∷◌ slash b

split-path : (a b : String) → HasNoSlash a → HasNoSlash b → split_slash (path_text a b) ≡ a ∷ b ∷ []
unfolding split_slash
split-path String.[] b ha hb = rw nil-append (ground (arith, split-no_slash b hb))
split-path (String.◌∷◌ c a) b ha hb = rw cons-append (ground (arith, split-path a b ha.1 hb))

not_empty-path : (a b : String) → is_empty (path_text a b) ≡ false
not_empty-path String.[] b = rw nil-append refl
not_empty-path (String.◌∷◌ c a) b = rw cons-append refl

rstrip-path :
    (a b : String)
    → is_empty b ≡ false
    → HasNoSlash b
    → rstrip_slash (path_text a b) ≡ path_text a b
unfolding rstrip_slash
rstrip-path String.[] b e hb = rw nil-append (ground (arith, rstrip-no_slash b hb))
rstrip-path (String.◌∷◌ c a) b e hb =
    rw cons-append (ground (arith, rstrip-path a b e hb, not_empty-path a b))

lstrip-path :
    (a b : String)
    → is_empty a ≡ false
    → HasNoSlash a
    → lstrip_slash (path_text a b) ≡ path_text a b
unfolding lstrip_slash
lstrip-path String.[] b e ha = cc
lstrip-path (String.◌∷◌ c a) b e ha = rw cons-append (ground arith)

parse_rest :
    (uri rest : String)
    → drop_prefix evidence_uri_prefix uri ≡ some rest
    → parse_evidence_uri uri ≡ two_parts (split_slash (rstrip_slash (lstrip_slash rest)))
unfolding parse_evidence_uri
parse_rest uri rest h = rw h

build-eq : (ws id : String) → build_evidence_uri ws id ≡ evidence_uri_prefix ++ path_text ws id
unfolding build_evidence_uri
build-eq ws id = rw slash-append

-- For non-empty identifiers with no slash in them, parsing the URI that was built gives the
-- workspace and the evidence identifier back.
pub parse-build :
    (ws id : String)
    → is_empty ws ≡ false
    → is_empty id ≡ false
    → HasNoSlash ws
    → HasNoSlash id
    → parse_evidence_uri (build_evidence_uri ws id) ≡ ok (ws, id)
unfolding two_parts
parse-build ws id ews eid hws hid =
    parse_rest (build_evidence_uri ws id) (path_text ws id)
      (rw build-eq (drop_prefix-append evidence_uri_prefix (path_text ws id)))
    ∙ rw (lstrip-path ws id ews hws, rstrip-path ws id eid hid, split-path ws id hws hid, ews, eid)
        refl
