-- ===== src/Auth.antt =====
-- backend/shared_domain/auth.py: who sends a request, from a local bearer token, from the claims of a
-- trusted proxy, or from a signed JWT. `Platform` holds what Python's libraries and the network do.
-- The clock counts microseconds, and one reading serves a request, where the code reads it for the
-- cached keys and again for the claims. A header that is missing is the empty text.
pub mod Verified
pub mod Keys
mod Model
unfoldable pub use Model.*
use Prim.Native.Char.{Char, code}
use Prim.Native.String.{◌++◌}
use schema_pilot.Base.{
  ℕ, suc, ◌+◌, ◌*◌, ◌/◌, ◌-◌, ◌%◌, max, String, Bool, true, false, not, ◌&&◌, ◌||◌, Option, none,
  some, List, [], ◌∷◌, ◌==◌, if◌then◌else◌, contains, any, keep, map, strip, lower, is_empty, ltb,
  eqb, Dict, lookup, insert,
}
use schema_pilot.Base.Int.{ℤ, pos, negsuc, pos_part, neg_part}
use schema_pilot.Base.Json.{
  Json, null, boolean, number, text, array, object, end, Fields, get, as_dict, as_list, is_truthy,
  str, elements, nil,
}
use schema_pilot.Settings.{Settings, is_given}

module _ (p : Platform) where
  unfoldable pub str_of : Json → String
  str_of value = str p.repr value

  -- `[str(item) for item in value]`, and nothing for a value that is no list
  unfoldable pub texts_of : Json → List String
  unfolding str_of
  texts_of value = elim (as_list value) [ none ↦ [] | some items ↦ map str_of (elements items) ]

  -- `_decode_base64url`
  unfoldable pub decode_base64url : String → Option Bytes
  unfolding equal_signs text_size
  decode_base64url value =
      if is_empty value
      then some []
      else p.urlsafe_b64decode (value ++ equal_signs ((4 - text_size value % 4) % 4))

  -- `_decode_jwt_segment`
  unfoldable pub decode_jwt_segment : String → Option Fields
  decode_jwt_segment encoded = elim (decode_base64url encoded) [
    | none ↦ none
    | some bytes ↦ elim (p.utf8_decode bytes) [
      | none ↦ none
      | some t ↦ elim (p.json_loads t) [ none ↦ none | some payload ↦ as_dict payload ]
    ]
  ]

  -- `_as_int`
  unfoldable pub as_int : Json → Option ℤ
  as_int (boolean b) = some (pos (if b then 1 else 0))
  as_int (number n) = some (p.int_of_number n)
  as_int (text t) = p.int_of_text (strip t)
  as_int null = none
  as_int (array xs) = none
  as_int (object d) = none

  -- `_claims_match_issuer_and_audience`: a text that is `None` or empty requires nothing
  unfoldable pub issuer_matches : Settings → Fields → Bool
  issuer_matches s claims =
      not (is_given s.oidc_required_issuer)
      || text_is s.oidc_required_issuer (str_of (get "iss" (text "") claims))

  unfoldable pub audience_is : Option String → Json → Bool
  audience_is required (text t) = text_is required t
  audience_is required (array xs) = any (text_is required) (map str_of (elements xs))
  audience_is required null = false
  audience_is required (boolean b) = false
  audience_is required (number n) = false
  audience_is required (object d) = false

  unfoldable pub claims_match_issuer_and_audience : Settings → Fields → Bool
  unfolding issuer_matches audience_is
  claims_match_issuer_and_audience s claims =
      issuer_matches s claims
      && (not (is_given s.oidc_required_audience)
          || audience_is s.oidc_required_audience (get "aud" null claims))

  -- `_claims_within_time_window`, at a second
  unfoldable pub not_before : ℕ → ℕ → Option ℤ → Bool
  not_before now skew none = true
  not_before now skew (some t) = not (ltb (now + skew + neg_part t) (pos_part t))

  unfoldable pub not_expired : ℕ → ℕ → Option ℤ → Bool
  not_expired now skew none = true
  not_expired now skew (some t) = not (ltb (pos_part t + skew) (now + neg_part t))

  unfoldable pub claims_within_time_window : ℕ → Settings → Fields → Bool
  unfolding not_before not_expired
  claims_within_time_window now s claims =
      let skew = pos_part s.oidc_clock_skew_seconds in
      not_expired now skew (as_int (get "exp" null claims))
      && (not_before now skew (as_int (get "nbf" null claims))
          && not_before now skew (as_int (get "iat" null claims)))

  -- what `_select_jwks_candidates` keeps
  unfoldable pub is_jwks_candidate : Option String → String → Fields → Bool
  is_jwks_candidate kid alg key =
      let key_kid = strip (str_of (get "kid" (text "") key)) in
      let key_alg = strip (str_of (get "alg" (text "") key)) in
      let key_use = lower (strip (str_of (get "use" (text "") key))) in
      elim kid [ none ↦ true | some k ↦ key_kid == k ]
      && ((is_empty key_alg || key_alg == alg) && (is_empty key_use || key_use == "sig"))

  unfoldable pub select_jwks_candidates : Option String → String → List Fields → List Fields
  unfolding is_jwks_candidate
  select_jwks_candidates kid alg keys = keep (is_jwks_candidate kid alg) keys

  -- the bytes of the key, if it is symmetric and has some
  unfoldable pub jwk_key_material : Fields → Option Bytes
  jwk_key_material jwk =
      if lower (str_of (get "kty" (text "") jwk)) == "oct"
      then elim (get "k" null jwk) [ text k ↦ decode_base64url k | _ ↦ none ]
      else none

  -- `_verify_jwt_signature`
  unfoldable pub verify_jwt_signature : String → Bytes → String → Fields → Bool
  verify_jwt_signature signing_input signature alg jwk =
      contains alg ("HS256" ∷ "HS384" ∷ "HS512" ∷ []) && elim (jwk_key_material jwk) [
        | none ↦ false
        | some key ↦ bytes_eq (p.hmac_digest alg key signing_input) signature
      ]

  -- the dictionaries of a list
  unfoldable pub dicts_of : List Json → List Fields
  dicts_of [] = []
  dicts_of (item ∷ items) =
      let rest = dicts_of items in elim (as_dict item) [ none ↦ rest | some d ↦ d ∷ rest ]

  -- `_fetch_jwks_keys`: nothing where the network or the text fails
  unfoldable pub fetch_jwks_keys : String → List Fields
  fetch_jwks_keys url = elim (p.fetch url) [
    | none ↦ []
    | some payload ↦ elim (p.json_loads payload) [
      | none ↦ []
      | some parsed ↦
          let keys : Json = elim (as_dict parsed) [
            | none ↦ parsed
            | some d ↦ get "keys" (array nil) d
          ] in
          elim (as_list keys) [ none ↦ [] | some items ↦ dicts_of (elements items) ]
    ]
  ]

  -- the keys that are not cached, or cached no more
  unfoldable pub refresh_jwks_keys : ℕ → Settings → String → JwksCache → List Fields × JwksCache
  refresh_jwks_keys now s url cache = store_keys now s url cache (fetch_jwks_keys url)

  -- `_load_jwks_keys`
  unfoldable pub load_jwks_keys : ℕ → Settings → JwksCache → List Fields × JwksCache
  load_jwks_keys now s cache = elim (resolve_jwks_url s) [
    | none ↦ ([], cache)
    | some url ↦ elim (lookup url cache) [
      | none ↦ refresh_jwks_keys now s url cache
      | some entry ↦
          if ltb now entry.expires_at
          then (entry.keys, cache)
          else refresh_jwks_keys now s url cache
    ]
  ]

  -- the key that the header names, if it names one
  unfoldable pub kid_of : Fields → Option String
  kid_of header = elim (get "kid" null header) [
    | text t ↦ if is_empty (strip t) then none else some (strip t)
    | _ ↦ none
  ]

  -- the algorithm of the header
  unfoldable pub alg_of : Fields → String
  alg_of header = strip (str_of (get "alg" (text "") header))

  -- `not alg or alg.lower() == "none"`, and the algorithms that are allowed
  unfoldable pub alg_allowed : Settings → String → Bool
  alg_allowed s alg =
      not (is_empty alg || lower alg == "none")
      && contains alg (keep (λ item. not (is_empty item)) (map strip s.oidc_jwt_allowed_algs))

  -- With the keys in hand: one of them signs the token, and the claims hold now.
  unfoldable pub accepted_claims :
      ℕ → Settings → List Fields → Fields → String → Bytes → Fields → Option Fields
  accepted_claims now s keys header signing_input signature claims =
      let alg = alg_of header in
      let candidates = select_jwks_candidates (kid_of header) alg keys in
      if any (verify_jwt_signature signing_input signature alg) candidates
        && (claims_match_issuer_and_audience s claims
            && claims_within_time_window (now / 1000000) s claims)
      then some claims
      else none

  -- the decoded segments, and the signature
  unfoldable pub verified_segments :
      ℕ
      → Settings
      → String
      → String
      → String
      → Fields
      → Fields
      → JwksCache
      → Option Fields × JwksCache
  verified_segments now s first second third header claims cache =
      if alg_allowed s (alg_of header)
      then elim (decode_base64url third) [
        | none ↦ (none, cache)
        | some signature ↦
            let (keys, cache') = load_jwks_keys now s cache in
            (accepted_claims now s keys header (first ++ ("." ++ second)) signature claims, cache')
      ]
      else (none, cache)

  -- a token of three parts
  unfoldable pub verified_parts : ℕ → Settings → List String → JwksCache → Option Fields × JwksCache
  verified_parts now s (first ∷ second ∷ third ∷ []) cache = elim (decode_jwt_segment first) [
    | none ↦ (none, cache)
    | some header ↦ elim (decode_jwt_segment second) [
      | none ↦ (none, cache)
      | some claims ↦ verified_segments now s first second third header claims cache
    ]
  ]
  verified_parts now s _ cache = (none, cache)

  -- `_verified_oidc_jwt_claims`
  unfoldable pub verified_oidc_jwt_claims :
      ℕ → Settings → String → JwksCache → Option Fields × JwksCache
  unfolding split_dots
  verified_oidc_jwt_claims now s token cache = verified_parts now s (split_dots token) cache

  -- the roles of the claims: a list, or one text
  unfoldable pub roles_of_claim : Json → List String
  roles_of_claim roles = elim (texts_of roles) [
    | [] ↦
        let role = if is_truthy roles then str_of roles else "" in
        if is_empty role then [] else role ∷ []
    | role ∷ more ↦ role ∷ more
  ]

  -- `_actor_from_claims`
  unfoldable pub actor_from_claims : Settings → Fields → Option AuthActor
  actor_from_claims s claims =
      let actor_id = strip (str_of (get s.oidc_actor_id_claim (text "") claims)) in
      if is_empty actor_id
      then none
      else some (record {
        actor_id = actor_id;
        actor_type = str_of (get "actor_type" (text "human") claims);
        roles = roles_of_claim (get s.oidc_roles_claim (array nil) claims);
        attributes = claims_or_empty (as_dict (get s.oidc_attributes_claim (object end) claims));
      })

  -- `_sanitize_actor_payload`
  unfoldable pub sanitize_actor_payload : String → Fields → AuthActor
  sanitize_actor_payload fallback_actor_id actor = record {
    actor_id = str_of (get "actor_id" (text fallback_actor_id) actor);
    actor_type = str_of (get "actor_type" (text "human") actor);
    roles = texts_of (get "roles" (array nil) actor);
    attributes = claims_or_empty (as_dict (get "attributes" (object end) actor));
  }

  unfoldable pub authenticated_actor_from_oidc_jwt :
      ℕ → Settings → (String → String) → JwksCache → Option AuthActor × JwksCache
  authenticated_actor_from_oidc_jwt now s headers cache =
      elim (bearer_token (headers "authorization")) [
        | none ↦ (none, cache)
        | some token ↦
            let (claims, cache') = verified_oidc_jwt_claims now s token cache in
            (elim claims [ none ↦ none | some c ↦ actor_from_claims s c ], cache')
      ]

  unfoldable pub authenticated_actor_from_oidc_claims :
      Settings → (String → String) → Option AuthActor
  authenticated_actor_from_oidc_claims s headers =
      let header = headers s.oidc_claims_header in
      if is_empty header then none else elim (p.json_loads header) [
        | none ↦ none
        | some parsed ↦ elim (as_dict parsed) [
          | none ↦ none
          | some claims ↦
              if claims_match_issuer_and_audience s claims then actor_from_claims s claims else none
        ]
      ]

  unfoldable pub local_actor : (String → String) → Dict Fields → Option AuthActor
  local_actor headers auth_tokens = elim (bearer_token (headers "authorization")) [
    | none ↦ none
    | some token ↦ elim (lookup token auth_tokens) [
      | none ↦ none
      | some actor ↦ some (sanitize_actor_payload ("user:" ++ token) actor)
    ]
  ]

  unfoldable pub authenticated_actor_from_request :
      ℕ → Settings → (String → String) → Dict Fields → JwksCache → Option AuthActor × JwksCache
  authenticated_actor_from_request now s headers auth_tokens cache =
      let mode = normalized_auth_mode s.auth_mode in
      if mode == "oidc_trusted_proxy"
      then (authenticated_actor_from_oidc_claims s headers, cache)
      else if mode == "oidc_jwt"
      then authenticated_actor_from_oidc_jwt now s headers cache
      else (local_actor headers auth_tokens, cache)

-- `actor_has_any_role`
unfoldable pub actor_has_any_role : AuthActor → List String → Bool
actor_has_any_role actor required_roles = any (λ role. contains role required_roles) actor.roles
