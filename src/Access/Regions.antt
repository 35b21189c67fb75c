-- ===== src/Access/Regions.antt =====
-- Actors of one region and rows of another.
use schema_pilot.Base.{
  String, Bool, true, false, ◌||◌, none, some, List, [], ◌∷◌, ◌==◌, ◌≡◌, ◌⊎◌, inl, inr,
  if◌then◌else◌, contains, is_empty, lower, arith, eq_iff, Bool-cases,
}
use schema_pilot.Errors.{ok}
use schema_pilot.Access.{
  Actor, evaluate_access, AbacDecision, evaluate_internal_abac, default_adapter, opa_outcome,
  evaluate_abac,
}

-- Whatever the mode, without an adapter of its own the gateway allows an actor who has a region only
-- rows of that region: a resource with another region is denied, and the decision that allows
-- carries the filter on the region.
pub abac_region :
    (actor : Actor) (resource_region mode : String) (d : AbacDecision)
    → is_empty actor.region ≡ false
    → evaluate_abac actor resource_region mode none ≡ ok d
    → d.allow ≡ true
    → (d.row_filter ≡ some ("region", actor.region))
      × ((resource_region ≡ "") ⊎ (resource_region ≡ actor.region))
unfolding evaluate_abac evaluate_internal_abac opa_outcome default_adapter
abac_region actor resource_region mode d regional h allowed =
    ground (arith, eq_iff actor.region resource_region, eq_iff (lower mode) "opa")

-- Without an adapter of its own every mode reaches a decision; the mode "opa" denies, and every other
-- mode allows what the internal rules allow.
pub abac_fails_closed :
    (actor : Actor) (resource_region mode : String)
    → (d : AbacDecision) × (evaluate_abac actor resource_region mode none ≡ ok d)
      × (d.allow ≡ (
          if lower mode == "opa"
          then false
          else (evaluate_internal_abac actor resource_region).allow))
unfolding evaluate_abac opa_outcome default_adapter
abac_fails_closed actor resource_region mode = elim (Bool-cases (lower mode == "opa")) [
  | inl opa ↦ (
    record { allow = false; reason = "opa_unavailable"; row_filter = none; masks = [] },
    ground arith,
    ground arith,
  )
  | inr other ↦ (evaluate_internal_abac actor resource_region, ground arith, ground arith)
]

-- the roles that are let in
abbrev pub permitted : Actor → Bool → Bool
permitted actor allow_ai =
    if lower actor.actor_type == "ai"
    then allow_ai
    else (contains "analyst" actor.roles
        || (contains "data_steward" actor.roles || contains "platform_admin" actor.roles))

access_of :
    (kind : String) (roles : List String) (region : String) (allow_ai : Bool)
    → let actor : Actor = record { actor_type = kind; roles = roles; region = region } in
      (evaluate_access actor allow_ai).result
      ≡ (if permitted actor allow_ai then "allow" else "deny")
unfolding evaluate_access
access_of kind [] region allow_ai = ground arith
access_of kind (role ∷ more) region allow_ai = ground arith

-- An AI actor is allowed exactly where it is allow-listed, whatever its roles; any other actor exactly
-- where it is an analyst, a data steward or a platform administrator.
pub access_exact :
    (actor : Actor) (allow_ai : Bool)
    → (evaluate_access actor allow_ai).result
      ≡ (if permitted actor allow_ai then "allow" else "deny")
access_exact actor allow_ai = access_of actor.actor_type actor.roles actor.region allow_ai
