-- ===== src/Settings.antt =====
-- backend/shared_domain/config.py, `Settings`: the fields that the startup guards or the
-- authentication read, the guards themselves, and the redaction of a database URL.
pub mod Redaction
use Prim.Native.Char.{Char, code}
use Prim.Native.String.{◌++◌}
use schema_pilot.Base.{
  String, Bool, true, false, not, ◌&&◌, ◌||◌, Option, none, some, List, [], ◌∷◌, if◌then◌else◌,
  contains, strip, lower, is_empty, eqb, ◌==◌,
}
use schema_pilot.Base.Int.{ℤ, pos, negsuc, leb_ℤ}
use schema_pilot.Errors.{Error, startup_configuration, Result, ok, err, ◌>>=◌, ◌>>◌}

pub record Settings : Type 0 where
  pub bind_address : String
  pub auth_mode : String
  pub require_auth_for_non_local : Bool
  pub oidc_claims_header : String
  pub oidc_actor_id_claim : String
  pub oidc_roles_claim : String
  pub oidc_attributes_claim : String
  pub oidc_trusted_proxy : Bool
  pub oidc_required_issuer : Option String
  pub oidc_required_audience : Option String
  pub oidc_jwks_url : Option String
  pub oidc_jwks_cache_ttl_seconds : ℤ
  pub oidc_clock_skew_seconds : ℤ
  pub oidc_jwt_allowed_algs : List String
  pub query_engine : String
  pub retrieval_backend : String
  pub opensearch_timeout_ms : ℤ
  pub qdrant_timeout_ms : ℤ
  pub embeddings_dimensions : ℤ
  pub query_max_bytes : ℤ
  pub retrieval_max_bytes : ℤ
  pub ai_provider : String
  pub secrets_store_backend : String
  pub audit_sink_type : String
  pub audit_sink_mode : String
  pub audit_outbox_dispatch_batch_size : ℤ
  pub audit_outbox_max_attempts : ℤ
  pub worker_max_active_per_workspace : ℤ
  pub gateway_query_cache_ttl_seconds : ℤ
  pub gateway_query_cache_max_entries : ℤ
  pub worker_step_timeout_seconds : ℤ
  pub worker_step_max_items : ℤ
  pub plugin_max_runtime_seconds : ℤ
  pub artifact_rotation_keep_previous_keys : ℤ

unfoldable pub is_local_bind : Settings → Bool
is_local_bind s = contains s.bind_address ("127.0.0.1" ∷ "localhost" ∷ "::1" ∷ [])

-- `n <= 0` is what the guard refuses
abbrev pub is_positive : ℤ → Bool
is_positive n = not (leb_ℤ n (pos 0))

-- a text that is neither `None` nor empty
abbrev pub is_given : Option String → Bool
is_given none = false
is_given (some t) = not (is_empty t)

abbrev pub is_oidc : String → Bool
is_oidc mode = contains mode ("oidc" ∷ "oidc_trusted_proxy" ∷ [])

abbrev pub auth_modes : List String
auth_modes = "local" ∷ "oidc" ∷ "oidc_trusted_proxy" ∷ "oidc_jwt" ∷ []

abbrev is_nil : List String → Bool
is_nil [] = true
is_nil (a ∷ l) = false

-- The guards in their order: what must hold, and the message of the error where it does not.
abbrev auth_guards : String → Settings → List (Bool × String)
auth_guards mode s =
    let guarded = not (is_local_bind s) && s.require_auth_for_non_local in
    (contains mode auth_modes, "Unsupported authentication mode.")
    ∷ (
      not (guarded && contains mode ("" ∷ "none" ∷ "disabled" ∷ [])),
      "Non-local bind requires explicit authentication configuration.",
    )
    ∷ (
      not (guarded && (is_oidc mode && not s.oidc_trusted_proxy)),
      "Trusted-proxy OIDC mode requires explicit trust configuration.",
    )
    ∷ (
      not (is_oidc mode && is_empty (strip s.oidc_claims_header)),
      "OIDC mode requires a trusted claims header configuration.",
    )
    ∷ (
      not (mode == "oidc_jwt" && not (is_given s.oidc_jwks_url || is_given s.oidc_required_issuer)),
      "OIDC JWT mode requires issuer or JWKS URL configuration.",
    )
    ∷ (
      not (mode == "oidc_jwt" && not (is_positive s.oidc_jwks_cache_ttl_seconds)),
      "OIDC JWT mode requires positive JWKS cache TTL.",
    )
    ∷ (
      not (mode == "oidc_jwt" && not (leb_ℤ (pos 0) s.oidc_clock_skew_seconds)),
      "OIDC JWT mode requires non-negative clock skew.",
    )
    ∷ (
      not (mode == "oidc_jwt" && is_nil s.oidc_jwt_allowed_algs),
      "OIDC JWT mode requires at least one allowed JWT algorithm.",
    )
    ∷ []

abbrev limit_guards : Settings → List (Bool × String)
limit_guards s =
    (contains s.query_engine ("duckdb" ∷ "trino" ∷ []), "Unsupported query engine.")
    ∷ (
      contains s.retrieval_backend ("filesystem" ∷ "opensearch" ∷ "qdrant" ∷ []),
      "Unsupported retrieval backend.",
    )
    ∷ (is_positive s.opensearch_timeout_ms, "OpenSearch timeout must be positive.")
    ∷ (is_positive s.qdrant_timeout_ms, "Qdrant timeout must be positive.")
    ∷ (is_positive s.embeddings_dimensions, "Embeddings dimensions must be positive.")
    ∷ (is_positive s.query_max_bytes, "Query max bytes must be positive.")
    ∷ (is_positive s.retrieval_max_bytes, "Retrieval max bytes must be positive.")
    ∷ (
      contains s.secrets_store_backend ("local_encrypted" ∷ "vault" ∷ []),
      "Unsupported secrets store backend.",
    )
    ∷ (
      contains s.audit_sink_type ("disabled" ∷ "jsonl" ∷ "webhook" ∷ []),
      "Unsupported audit sink type.",
    )
    ∷ (contains s.audit_sink_mode ("outbox" ∷ "inline" ∷ []), "Unsupported audit sink mode.")
    ∷ (
      is_positive s.audit_outbox_dispatch_batch_size,
      "Audit outbox dispatch batch size must be positive.",
    )
    ∷ (is_positive s.audit_outbox_max_attempts, "Audit outbox max attempts must be positive.")
    ∷ (contains s.ai_provider ("disabled" ∷ "mock" ∷ []), "Unsupported AI provider.")
    ∷ (
      is_positive s.worker_max_active_per_workspace,
      "Worker per-workspace active limit must be positive.",
    )
    ∷ (is_positive s.gateway_query_cache_ttl_seconds, "Gateway query cache TTL must be positive.")
    ∷ (
      is_positive s.gateway_query_cache_max_entries,
      "Gateway query cache max entries must be positive.",
    )
    ∷ (is_positive s.worker_step_timeout_seconds, "Worker step timeout must be positive.")
    ∷ (is_positive s.worker_step_max_items, "Worker step max items must be positive.")
    ∷ (is_positive s.plugin_max_runtime_seconds, "Plugin max runtime seconds must be positive.")
    ∷ (
      leb_ℤ (pos 0) s.artifact_rotation_keep_previous_keys,
      "Artifact rotation keep count must be non-negative.",
    )
    ∷ []

-- raises at the first guard that does not hold
unfoldable pub run_guards : List (Bool × String) → Result (Unit {0})
run_guards [] = ok tt
run_guards ((holds, message) ∷ more) =
    let rest = run_guards more in if holds then rest else err (startup_configuration message)

unfoldable pub validate : Settings → Result (Unit {0})
validate s = run_guards (auth_guards (lower (strip s.auth_mode)) s) >> run_guards (limit_guards s)

-- `s.startswith("//")`
abbrev pub starts_slashes : String → Bool
starts_slashes String.[] = false
starts_slashes (String.◌∷◌ c String.[]) = false
starts_slashes (String.◌∷◌ c (String.◌∷◌ d s)) = eqb (code c) 47 && eqb (code d) 47

-- `s[2:]`
abbrev pub behind_slashes : String → String
behind_slashes String.[] = String.[]
behind_slashes (String.◌∷◌ c String.[]) = String.[]
behind_slashes (String.◌∷◌ c (String.◌∷◌ d s)) = s

-- the text in front of the first "://" and the text behind it
unfoldable pub split_scheme : String → Option (String × String)
split_scheme String.[] = none
split_scheme (String.◌∷◌ c s) =
    let rest = split_scheme s in
    if eqb (code c) 58 && starts_slashes s
    then some (String.[], behind_slashes s)
    else elim rest [ none ↦ none | some (a, b) ↦ some (String.◌∷◌ c a, b) ]

-- of one character, the text behind it, and what is behind the last "@" of that text
unfoldable pub last_at : Char → String → Option String → Option String
last_at c s (some host) = some host
last_at c s none = if eqb (code c) 64 then some s else none

-- the text behind the last "@"
unfoldable pub behind_last_at : String → Option String
unfolding last_at
behind_last_at String.[] = none
behind_last_at (String.◌∷◌ c s) = last_at c s (behind_last_at s)

unfoldable pub redact_host : String → String → Option String → String
redact_host value scheme none = value
redact_host value scheme (some host) = scheme ++ ("://<redacted>@" ++ host)

unfoldable pub redact_split : String → Option (String × String) → String
redact_split value none = value
redact_split value (some (scheme, rest)) = redact_host value scheme (behind_last_at rest)

unfoldable pub redact_url_credentials : String → String
redact_url_credentials value = redact_split value (split_scheme value)
