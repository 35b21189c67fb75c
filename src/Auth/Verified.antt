-- ===== src/Auth/Verified.antt =====
-- A request with a JWT is from somebody only if the token is signed and its claims hold.
use Prim.Native.String.{◌++◌}
use schema_pilot.Base.{
  ℕ, ◌/◌, String, Bool, true, false, ◌&&◌, Option, none, some, List, [], ◌∷◌, ◌≡◌, refl, sym, ap,
  ◌∙◌, any, keep, if◌then◌else◌, arith, Option-cases, inl, inr,
}
use schema_pilot.Base.Json.{Fields}
use schema_pilot.Settings.{Settings}
use schema_pilot.Auth.{
  Platform, AuthActor, JwksCache, Bytes, split_dots, bearer_token, decode_base64url,
  decode_jwt_segment, claims_match_issuer_and_audience, claims_within_time_window,
  is_jwks_candidate, select_jwks_candidates, verify_jwt_signature, load_jwks_keys, kid_of, alg_of,
  alg_allowed, accepted_claims, verified_segments, verified_parts, verified_oidc_jwt_claims,
  actor_from_claims, authenticated_actor_from_oidc_jwt,
}

any-keep : {A : Type 0} (q r : A → Bool) (l : List A) → any q (keep r l) ≡ any (λ a. r a && q a) l
any-keep q r [] = refl
any-keep q r (a ∷ l) = ground (arith, any-keep q r l)

-- a look-up that a call goes on from
went_on :
    {A B S : Type 0} (o : Option A) (f : A → Option B × S) (st : S) (b : B)
    → (elim o as (λ _. Option B × S) [ none ↦ (none, st) | some a ↦ f a ]).0 ≡ some b
    → (a : A) × (o ≡ some a) × ((f a).0 ≡ some b)
went_on none f st b h = cc
went_on (some a) f st b h = (a, refl, h)

allowed_on :
    {B S : Type 0} (q : Bool) (r : Option B × S) (st : S) (b : B)
    → (if q then r else (none, st)).0 ≡ some b
    → (q ≡ true) × (r.0 ≡ some b)
allowed_on true r st b h = (refl, h)
allowed_on false r st b h = cc

-- What stands behind an accepted token: its three parts, the decoded header and claims, and the
-- signature.
pub record Token : Type 0 where
  pub first : String
  pub second : String
  pub third : String
  pub header : Fields
  pub claims : Fields
  pub signature : Bytes

module _ (p : Platform) (now : ℕ) (s : Settings) where
  -- the parts are those of the text, and the decoded values those of the parts
  abbrev pub IsRead : String → Token → Type 0
  IsRead token t =
      (split_dots token ≡ t.first ∷ t.second ∷ t.third ∷ [])
      × (decode_jwt_segment p t.first ≡ some t.header)
      × (decode_jwt_segment p t.second ≡ some t.claims)
      × (decode_base64url p t.third ≡ some t.signature)

  -- a key of the list is meant for the token, and its digest of the signed text is the signature
  abbrev pub is_signed : List Fields → Token → Bool
  is_signed keys t =
      any
        (λ key.
          is_jwks_candidate p (kid_of p t.header) (alg_of p t.header) key
          && verify_jwt_signature p (t.first ++ ("." ++ t.second)) t.signature (alg_of p t.header)
              key)
        keys

  -- the algorithm is allowed, the issuer and the audience are the required ones, and the time is right
  abbrev pub is_valid : Token → Bool
  is_valid t =
      alg_allowed p s (alg_of p t.header)
      && (claims_match_issuer_and_audience p s t.claims
          && claims_within_time_window p (now / 1000000) s t.claims)

  abbrev Accepted : String → JwksCache → Fields → Type 0
  Accepted token cache claims =
      (t : Token) × IsRead token t
      × (is_signed (load_jwks_keys p now s cache).0 t ≡ true)
      × (is_valid t ≡ true)
      × (t.claims ≡ claims)

  accepted_claims-some :
      (keys : List Fields) (t : Token) (claims : Fields)
      → accepted_claims p now s keys t.header (t.first ++ ("." ++ t.second)) t.signature t.claims
        ≡ some claims
      → (is_signed keys t ≡ true)
        × ((claims_match_issuer_and_audience p s t.claims
              && claims_within_time_window p (now / 1000000) s t.claims)
            ≡ true)
        × (t.claims ≡ claims)
  unfolding accepted_claims select_jwks_candidates
  accepted_claims-some keys t claims h =
      let same =
        any-keep
          (verify_jwt_signature p (t.first ++ ("." ++ t.second)) t.signature (alg_of p t.header))
          (is_jwks_candidate p (kid_of p t.header) (alg_of p t.header)) keys in
      (ground (arith, same), ground arith, ground arith)

  segments-some :
      (token first second third : String) (header claims : Fields) (cache : JwksCache) (c : Fields)
      → split_dots token ≡ first ∷ second ∷ third ∷ []
      → decode_jwt_segment p first ≡ some header
      → decode_jwt_segment p second ≡ some claims
      → (verified_segments p now s first second third header claims cache).0 ≡ some c
      → Accepted token cache c
  unfolding verified_segments
  segments-some token first second third header claims cache c parts head body h =
      let (allowed, h1) = allowed_on (alg_allowed p s (alg_of p header)) _ cache c h in
      let (signature, decoded, h2) = went_on (decode_base64url p third) _ cache c h1 in
      let t : Token = record {
        first = first;
        second = second;
        third = third;
        header = header;
        claims = claims;
        signature = signature;
      } in
      let (signed, valid, same) = accepted_claims-some (load_jwks_keys p now s cache).0 t c h2 in
      (t, (parts, head, body, decoded), signed, ground (arith, allowed, valid), same)

  parts-some :
      (token : String) (parts : List String) (cache : JwksCache) (c : Fields)
      → split_dots token ≡ parts
      → (verified_parts p now s parts cache).0 ≡ some c
      → Accepted token cache c
  unfolding verified_parts
  parts-some token [] cache c same h = cc
  parts-some token (a ∷ []) cache c same h = cc
  parts-some token (a ∷ b ∷ []) cache c same h = cc
  parts-some token (first ∷ second ∷ third ∷ []) cache c same h =
      let (header, head, h1) = went_on (decode_jwt_segment p first) _ cache c h in
      let (claims, body, h2) = went_on (decode_jwt_segment p second) _ cache c h1 in
      segments-some token first second third header claims cache c same head body h2
  parts-some token (a ∷ b ∷ d ∷ e ∷ l) cache c same h = cc

  -- An actor that a JWT gives has a bearer token of three parts, whose header and claims decode; the
  -- signature over the first two is the digest under a key that the provider's keys hold for this
  -- header; the algorithm is allowed; the issuer, the audience and the times of the claims are accepted;
  -- and the actor is the one that these claims describe.
  pub jwt_actor-verified :
      (headers : String → String) (cache : JwksCache) (actor : AuthActor)
      → (authenticated_actor_from_oidc_jwt p now s headers cache).0 ≡ some actor
      → (token : String) × (bearer_token (headers "authorization") ≡ some token)
        × (t : Token) × IsRead token t
        × (is_signed (load_jwks_keys p now s cache).0 t ≡ true)
        × (is_valid t ≡ true)
        × (actor_from_claims p s t.claims ≡ some actor)
  unfolding authenticated_actor_from_oidc_jwt verified_oidc_jwt_claims
  jwt_actor-verified headers cache actor h =
      let (token, found, h1) = went_on (bearer_token (headers "authorization")) _ cache actor h in
      let answer = (verified_parts p now s (split_dots token) cache).0 in
      elim (Option-cases answer) [
        | inl nobody ↦ ground (arith, nobody, h1)
        | inr (c, claimed) ↦
            let (t, read, signed, valid, same) =
              parts-some token (split_dots token) cache c refl claimed in
            (
              token,
              found,
              t,
              read,
              signed,
              valid,
              ap (actor_from_claims p s) same
                  ∙ sym (
                      ap
                        (λ o. elim o as (λ _. Option AuthActor) [
                          | none ↦ none
                          | some c ↦ actor_from_claims p s c
                        ])
                        claimed)
                  ∙ h1,
            )
      ]
