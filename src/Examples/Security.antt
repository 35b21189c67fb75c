-- ===== src/Examples/Security.antt =====
-- Tokens, queries, settings and secrets.
use Prim.Native.Char.{code}
use Prim.Native.String.{◌++◌}
use schema_pilot.Base.{
  ℕ, String, true, false, Option, none, some, List, [], ◌∷◌, ◌≡◌, ◌≢◌, refl, take, keep, strip,
  lower, if◌then◌else◌, lookup, insert, ◌==◌, arith, is_identifier, is_identifier_rest,
  is_word_char, eqb,
}
use schema_pilot.Base.Int.{pos}
use schema_pilot.Base.Json.{Json, text, array, object, nil, cons, number, Fields, end, field}
use schema_pilot.Errors.{ok}
use schema_pilot.Settings.{Settings, redact_url_credentials}
use schema_pilot.Settings.Redaction.{redact_hides}
use schema_pilot.Sql.{
  validate_read_only_query, lower_sql, row_matches, apply_optional_row_filter, index_of,
}
use schema_pilot.Sql.Guard.{validate-rejects}
use schema_pilot.Sql.Filter.{apply-keep}
use schema_pilot.Auth.{
  Platform, AuthActor, authenticated_actor_from_oidc_jwt, bearer_token, verified_oidc_jwt_claims,
  verified_parts, decode_jwt_segment, decode_base64url, verified_segments, alg_allowed, alg_of,
  str_of, accepted_claims, select_jwks_candidates, load_jwks_keys, resolve_jwks_url,
  refresh_jwks_keys, actor_from_claims, as_int, audience_is, behind_space, bytes_eq,
  claims_match_issuer_and_audience, claims_within_time_window, dicts_of, equal_signs,
  fetch_jwks_keys, has_prefix, is_jwks_candidate, issuer_matches, jwk_key_material, kid_of,
  not_before, not_expired, roles_of_claim, rstrip_slashes, split_dots, store_keys, text_size,
  texts_of, verify_jwt_signature,
}
use schema_pilot.Auth.Verified.{Token, IsRead, is_signed, is_valid, jwt_actor-verified}
use schema_pilot.Auth.Keys.{load-load}
use schema_pilot.Secrets.{
  Bytes, Codec, ArtifactCryptoConfig, encrypt_payload, decrypt_payload, put_secret, get_secret,
  path_for_reference, local_reference, derive_key, xor_bytes, flatten_path, behind_prefix,
}
use schema_pilot.Secrets.RoundTrip.{IsCoded, decrypt_payload-encrypt_payload, get_secret-put_secret}

abbrev settings : Settings
settings = record {
  bind_address = "127.0.0.1";
  auth_mode = "oidc_jwt";
  require_auth_for_non_local = true;
  oidc_claims_header = "x-oidc-claims";
  oidc_actor_id_claim = "sub";
  oidc_roles_claim = "roles";
  oidc_attributes_claim = "attributes";
  oidc_trusted_proxy = false;
  oidc_required_issuer = none;
  oidc_required_audience = none;
  oidc_jwks_url = some "https://id/keys";
  oidc_jwks_cache_ttl_seconds = pos 300;
  oidc_clock_skew_seconds = pos 30;
  oidc_jwt_allowed_algs = "HS256" ∷ [];
  query_engine = "duckdb";
  retrieval_backend = "filesystem";
  opensearch_timeout_ms = pos 500;
  qdrant_timeout_ms = pos 500;
  embeddings_dimensions = pos 64;
  query_max_bytes = pos 1000;
  retrieval_max_bytes = pos 1000;
  ai_provider = "disabled";
  secrets_store_backend = "local_encrypted";
  audit_sink_type = "disabled";
  audit_sink_mode = "outbox";
  audit_outbox_dispatch_batch_size = pos 10;
  audit_outbox_max_attempts = pos 3;
  worker_max_active_per_workspace = pos 1;
  gateway_query_cache_ttl_seconds = pos 60;
  gateway_query_cache_max_entries = pos 100;
  worker_step_timeout_seconds = pos 60;
  worker_step_max_items = pos 100;
  plugin_max_runtime_seconds = pos 60;
  artifact_rotation_keep_previous_keys = pos 1;
}

redact_hides_example :
    redact_url_credentials ("postgresql" ++ ("://" ++ ("ann:secret" ++ ("@" ++ "db:5432/app"))))
    ≡ "postgresql" ++ ("://<redacted>@" ++ "db:5432/app")
redact_hides_example = redact_hides "postgresql" "ann:secret" "db:5432/app" refl refl

validate-rejects_example :
    validate_read_only_query "WITH x AS (DELETE FROM t) SELECT 1"
    ≢ ok "WITH x AS (DELETE FROM t) SELECT 1"
unfolding lower_sql strip lower is_word_char
validate-rejects_example =
    validate-rejects "WITH x AS (DELETE FROM t) SELECT 1" "WITH x AS (DELETE FROM t) SELECT 1"
      "with x as (" "delete" " from t) select 1" refl refl refl refl

abbrev same_text : String → String
same_text t = t

abbrev rows : List (List String)
rows = ("1" ∷ "eu" ∷ []) ∷ ("2" ∷ "us" ∷ []) ∷ ("3" ∷ "eu" ∷ []) ∷ []

apply-keep_example :
    apply_optional_row_filter same_text ("id" ∷ "region" ∷ []) rows (some ("region", "eu")) 2
    ≡ ok (take 2 (keep (row_matches same_text 1 "eu") rows))
unfolding is_identifier strip is_identifier_rest index_of
apply-keep_example = apply-keep same_text ("id" ∷ "region" ∷ []) rows "region" "eu" 1 1 refl refl

-- Libraries that know one token, `h.c.s`, and the key that signs it.
abbrev first_byte : String → Option (List ℕ)
first_byte String.[] = some []
first_byte (String.◌∷◌ c s) = some (code c ∷ [])

abbrev letter_of : List ℕ → Option String
letter_of [] = some ""
letter_of (b ∷ bs) = some (if eqb b 104 then "h" else "c")

abbrev signing_key : Fields
signing_key = field "kty" (text "oct") (field "k" (text "k") end)

abbrev header : Fields
header = field "alg" (text "HS256") end

abbrev claims : Fields
claims = field "sub" (text "ann") (field "exp" (number "200") end)

abbrev parse : String → Option Json
parse t =
    if t == "h"
    then some (object header)
    else if t == "c"
    then some (object claims)
    else some (array (cons (object signing_key) nil))

abbrev platform : Platform
platform = record {
  repr = λ value. "";
  json_loads = parse;
  int_of_text = λ t. none;
  int_of_number = λ t. pos 200;
  urlsafe_b64decode = first_byte;
  utf8_decode = letter_of;
  hmac_digest = λ alg key input. 115 ∷ [];
  fetch = λ url. some "keys";
}

abbrev headers : String → String
headers name = "Bearer h.c.s"

abbrev ann : AuthActor
ann = record { actor_id = "ann"; actor_type = "human"; roles = []; attributes = end }

accepted : (authenticated_actor_from_oidc_jwt platform 100000000 settings headers []).0 ≡ some ann
unfolding authenticated_actor_from_oidc_jwt bearer_token lower strip verified_oidc_jwt_claims
    verified_parts decode_jwt_segment decode_base64url verified_segments alg_allowed alg_of str_of
    accepted_claims select_jwks_candidates load_jwks_keys resolve_jwks_url lookup refresh_jwks_keys
    actor_from_claims as_int audience_is behind_space bytes_eq claims_match_issuer_and_audience
    claims_within_time_window dicts_of equal_signs fetch_jwks_keys has_prefix is_jwks_candidate
    issuer_matches jwk_key_material kid_of not_before not_expired roles_of_claim rstrip_slashes
    split_dots store_keys text_size texts_of verify_jwt_signature insert
accepted = refl

jwt_actor-verified_example :
    (token : String) × (bearer_token (headers "authorization") ≡ some token)
    × (t : Token) × IsRead platform 100000000 settings token t
    × (is_signed platform 100000000 settings (load_jwks_keys platform 100000000 settings []).0 t
        ≡ true)
    × (is_valid platform 100000000 settings t ≡ true)
    × (actor_from_claims platform settings t.claims ≡ some ann)
jwt_actor-verified_example = jwt_actor-verified platform 100000000 settings headers [] ann accepted

abbrev no_network : Platform
no_network = record platform { fetch = λ url. none }

load-load_example :
    let cache' = (load_jwks_keys platform 100 settings []).1 in
    load_jwks_keys no_network 200 settings cache' ≡ (signing_key ∷ [], cache')
unfolding load_jwks_keys resolve_jwks_url strip lookup refresh_jwks_keys store_keys fetch_jwks_keys
    dicts_of
load-load_example =
    load-load platform no_network 100 200 settings "https://id/keys" [] signing_key [] refl refl
      refl (omega arith)

-- Libraries that know one secret.
abbrev codes : String → Bytes
codes String.[] = []
codes (String.◌∷◌ c s) = code c ∷ codes s

abbrev pair_key : Bytes
pair_key = 1 ∷ 2 ∷ []

abbrev secret_cipher : Bytes
secret_cipher = xor_bytes pair_key 0 (codes "{}")

abbrev codec : Codec
codec = record {
  utf8_encode = codes;
  utf8_decode = λ bytes. if bytes_eq bytes (codes "{}") then some "{}" else none;
  b64encode = λ bytes. if bytes_eq bytes secret_cipher then "enc" else "other";
  b64decode = λ t. if t == "enc" then some secret_cipher else none;
  sha256 = λ bytes. pair_key;
  dumps = λ payload. "{}";
  loads = λ t. some (object end);
}

abbrev crypto : ArtifactCryptoConfig
crypto = record { enabled = true; key_id = "k1"; key_material = "material" }

coded : IsCoded codec "{}" "material"
unfolding xor_bytes bytes_eq strip derive_key
coded = (refl, (omega arith, (omega arith, tt)), (omega arith, (omega arith, tt)), refl, refl, refl)

decrypt_payload-encrypt_payload_example :
    decrypt_payload codec (encrypt_payload codec end crypto) (record crypto { key_id = "k2" })
    ≡ ok end
decrypt_payload-encrypt_payload_example =
    decrypt_payload-encrypt_payload codec end crypto (record crypto { key_id = "k2" }) refl refl
      coded

get_secret-put_secret_example :
    let r = put_secret codec "id-1" "material" "db" "password" "{}" [] in
    (r.0 ≡ ok (local_reference "db" "password" "id-1"))
    × (get_secret codec "material" (local_reference "db" "password" "id-1") r.1 ≡ ok "{}")
    × (lookup "other.json" r.1 ≡ none)
unfolding path_for_reference local_reference flatten_path has_prefix behind_prefix lookup
get_secret-put_secret_example =
    get_secret-put_secret codec "id-1" "material" "db" "password" "{}" "db__password__id-1.json"
      "other.json" [] refl refl refl coded
