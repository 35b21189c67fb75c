-- ===== src/Access.antt =====
-- backend/gateway/policy.py and backend/gateway/abac.py: who may ask, which rows are shown, and how
-- values are masked. An actor holds what the code reads from its dictionary: the type, the roles (none
-- where they are missing or no list) and the region attribute (empty where it is missing).
pub mod Regions
pub mod Masks
use Prim.Native.Char.{Char}
use Prim.Native.String.{◌++◌}
use schema_pilot.Base.{
  ℕ, zero, suc, String, Bool, true, false, not, ◌&&◌, ◌||◌, Option, none, some, List, [], ◌∷◌, ◌==◌,
  if◌then◌else◌, leb, contains, is_empty, lower, take_text, ◌-◌,
}
use schema_pilot.Errors.{Error, disabled_integration, Result, ok, err}

pub record Actor : Type 0 where
  pub actor_type : String
  pub roles : List String
  pub region : String

pub record AccessDecision : Type 0 where
  pub result : String
  pub reason : String
  pub applied_filters : List String
  pub applied_masks : List String

abbrev access : String → String → AccessDecision
access result reason = record {
  result = result;
  reason = reason;
  applied_filters = [];
  applied_masks = [];
}

unfoldable pub evaluate_access : Actor → Bool → AccessDecision
evaluate_access actor allow_ai =
    if lower actor.actor_type == "ai"
    then if allow_ai
      then access "allow" "ai_allowlisted"
      else access "deny" "ai_tool_deny_by_default"
    else elim actor.roles [
      | [] ↦ access "deny" "missing_roles"
      | role ∷ more ↦
          if contains "analyst" actor.roles
            || contains "data_steward" actor.roles
            || contains "platform_admin" actor.roles
          then access "allow" "explicit_role_allow"
          else access "deny" "role_not_allowed"
    ]

pub record AbacDecision : Type 0 where
  pub allow : Bool
  pub reason : String
  pub row_filter : Option (String × String)
  pub masks : List (String × String)

unfoldable pub evaluate_internal_abac : Actor → String → AbacDecision
evaluate_internal_abac actor resource_region =
    if not (is_empty resource_region)
      && not (is_empty actor.region)
      && not (actor.region == resource_region)
    then record { allow = false; reason = "region_mismatch"; row_filter = none; masks = [] }
    else record {
      allow = true;
      reason = "internal_abac_allow";
      row_filter = if is_empty actor.region then none else some ("region", actor.region);
      masks = if contains "analyst" actor.roles then ("email", "partial_reveal") ∷ [] else [];
    }

-- `OpaAdapter.evaluate`
unfoldable pub default_adapter : Actor → String → Result AbacDecision
default_adapter actor region =
    err (disabled_integration "OPA ABAC integration is disabled by default.")

-- `except DisabledIntegrationError`: every other error goes on
unfoldable pub opa_outcome : Result AbacDecision → Result AbacDecision
opa_outcome (err (disabled_integration m)) =
    ok (record { allow = false; reason = "opa_unavailable"; row_filter = none; masks = [] })
opa_outcome r = r

unfoldable pub evaluate_abac :
    Actor → String → String → Option (Actor → String → Result AbacDecision) → Result AbacDecision
evaluate_abac actor resource_region mode opa_adapter =
    if not (lower mode == "opa")
    then ok (evaluate_internal_abac actor resource_region)
    else opa_outcome (elim opa_adapter [
      | none ↦ default_adapter actor resource_region
      | some adapter ↦ adapter actor resource_region
    ])

-- `len(text)`
unfoldable pub text_length : String → ℕ
text_length String.[] = 0
text_length (String.◌∷◌ c s) = suc (text_length s)

-- `"*" * n`
unfoldable pub stars : ℕ → String
stars zero = String.[]
stars (suc n) = String.◌∷◌ "*" (stars n)

-- `text[-1:]`
unfoldable pub last_text : String → String
last_text String.[] = String.[]
last_text (String.◌∷◌ c String.[]) = String.◌∷◌ c String.[]
last_text (String.◌∷◌ c (String.◌∷◌ d s)) = last_text (String.◌∷◌ d s)

-- the mode "partial_reveal" on the text of the value
unfoldable pub partial_reveal : String → String
partial_reveal text =
    if leb (text_length text) 2
    then stars (text_length text)
    else take_text 1 text ++ (stars (text_length text - 2) ++ last_text text)

-- a masked value: `None`, the value as it is, or a text
pub data Masked (V : Type 0) : Type 0 where
  null : Masked V
  unmasked : V → Masked V
  text : String → Masked V

-- `str_of` is Python's `str`, `sha256` the digest in hexadecimal
unfoldable pub apply_mask : {V : Type 0} → (V → String) → (String → String) → V → String → Masked V
apply_mask str_of sha256 value mode =
    if mode == "null"
    then null
    else if mode == "hash"
    then text (sha256 (str_of value))
    else if mode == "partial_reveal"
    then text (partial_reveal (str_of value))
    else unmasked value
