-- ===== src/Auth/Model.antt =====
-- backend/shared_domain/auth.py: its data, what Python and the network do, and texts.
use Prim.Native.Char.{code}
use Prim.Native.String.{◌++◌}
use schema_pilot.Base.{
  ℕ, suc, ◌+◌, ◌*◌, max, String, Bool, true, false, not, ◌&&◌, Option, none, some, List, [], ◌∷◌,
  ◌==◌, if◌then◌else◌, strip, lower, is_empty, eqb, Dict, insert,
}
use schema_pilot.Base.Int.{ℤ, pos_part}
use schema_pilot.Base.Json.{Json, end, Fields}
use schema_pilot.Settings.{Settings}

abbrev pub Bytes : Type 0
Bytes = List ℕ

pub record Platform : Type 0 where
  pub repr : Json → String
  pub json_loads : String → Option Json
  pub int_of_text : String → Option ℤ
  pub int_of_number : String → ℤ
  pub urlsafe_b64decode : String → Option Bytes
  pub utf8_decode : Bytes → Option String
  pub hmac_digest : String → Bytes → String → Bytes
  pub fetch : String → Option String

pub record AuthActor : Type 0 where
  pub actor_id : String
  pub actor_type : String
  pub roles : List String
  pub attributes : Fields

-- `_JWKS_CACHE`
pub record JwksCacheEntry : Type 0 where
  pub expires_at : ℕ
  pub keys : List Fields

abbrev pub JwksCache : Type 0
JwksCache = Dict JwksCacheEntry

-- `text.split(".")`
unfoldable pub split_dots : String → List String
split_dots String.[] = String.[] ∷ []
split_dots (String.◌∷◌ c s) =
    let rest = split_dots s in
    if eqb (code c) 46
    then String.[] ∷ rest
    else elim rest [ [] ↦ String.◌∷◌ c String.[] ∷ [] | part ∷ parts ↦ String.◌∷◌ c part ∷ parts ]

-- `text.split(" ", 1)[1]` where there is a space
unfoldable pub behind_space : String → String
behind_space String.[] = String.[]
behind_space (String.◌∷◌ c s) = let rest = behind_space s in if eqb (code c) 32 then s else rest

-- `text.startswith(prefix)`
unfoldable pub has_prefix : String → String → Bool
has_prefix String.[] s = true
has_prefix (String.◌∷◌ c p) String.[] = false
has_prefix (String.◌∷◌ c p) (String.◌∷◌ d s) = eqb (code c) (code d) && has_prefix p s

-- `text.rstrip("/")`
unfoldable pub rstrip_slashes : String → String
rstrip_slashes String.[] = String.[]
rstrip_slashes (String.◌∷◌ c s) =
    let rest = rstrip_slashes s in
    if is_empty rest && eqb (code c) 47 then String.[] else String.◌∷◌ c rest

-- `len(text)`, and `"=" * n`
unfoldable pub text_size : String → ℕ
text_size String.[] = 0
text_size (String.◌∷◌ c s) = suc (text_size s)

unfoldable pub equal_signs : ℕ → String
equal_signs n = if eqb n 0 then "" else if eqb n 1 then "=" else if eqb n 2 then "==" else "==="

unfoldable pub bytes_eq : Bytes → Bytes → Bool
bytes_eq [] [] = true
bytes_eq [] (b ∷ bs) = false
bytes_eq (a ∷ more) [] = false
bytes_eq (a ∷ more) (b ∷ bs) = eqb a b && bytes_eq more bs

-- `_normalized_auth_mode`
unfoldable pub normalized_auth_mode : String → String
normalized_auth_mode auth_mode =
    let mode = lower (strip auth_mode) in if mode == "oidc" then "oidc_trusted_proxy" else mode

-- `_bearer_token`, of the header "authorization"
unfoldable pub bearer_token : String → Option String
unfolding has_prefix behind_space
bearer_token header =
    let authorization = strip header in
    if has_prefix "bearer " (lower authorization)
    then (let token = strip (behind_space authorization) in
        if is_empty token then none else some token)
    else none

abbrev pub claims_or_empty : Option Fields → Fields
claims_or_empty none = end
claims_or_empty (some d) = d

abbrev pub text_is : Option String → String → Bool
text_is none t = false
text_is (some s) t = s == t

-- `_resolve_jwks_url`
unfoldable pub resolve_jwks_url : Settings → Option String
resolve_jwks_url s =
    let url : String = elim s.oidc_jwks_url [ none ↦ "" | some u ↦ strip u ] in
    let issuer : String = elim s.oidc_required_issuer [ none ↦ "" | some i ↦ i ] in
    if not (is_empty url)
    then some url
    else if not (is_empty (strip issuer))
    then some (rstrip_slashes issuer ++ "/.well-known/jwks.json")
    else none

-- keys that were fetched are cached, but not an empty list
unfoldable pub store_keys :
    ℕ → Settings → String → JwksCache → List Fields → List Fields × JwksCache
store_keys now s url cache [] = ([], cache)
store_keys now s url cache (key ∷ keys) = (
  key ∷ keys,
  insert url
      (record {
        expires_at = now + 1000000 * max 1 (pos_part s.oidc_jwks_cache_ttl_seconds);
        keys = key ∷ keys;
      })
      cache,
)
