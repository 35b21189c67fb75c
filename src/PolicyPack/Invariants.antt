-- ===== src/PolicyPack/Invariants.antt =====
-- backend/shared_domain/policy_pack_tests.py and policy_packs.py: a bundled pack, and the checks on
-- it before it is applied.
use schema_pilot.Base.{
  String, Bool, not, ◌&&◌, ◌||◌, Option, none, some, List, [], ◌∷◌, ◌++◌, ◌==◌, if◌then◌else◌,
  strip, lower, is_empty, contains,
}

-- `template_actor`: a text that is missing is "", `roles` is `none` where it is not a list.
pub record Template : Type 0 where
  pub actor_type : String
  pub roles : Option (List String)
  pub attributes_is_object : Bool

-- A pack of policy_packs.json; `template_actor` is `none` where it is not an object, and a pack
-- without the key has the template with nothing in it.
pub record Pack : Type 0 where
  pub pack_id : String
  pub template_actor : Option Template

-- `if condition: failures.append(code)`
abbrev pub append_if : Bool → String → List String → List String
append_if condition code failures = if condition then failures ++ code ∷ [] else failures

abbrev pub is_actor_type : String → Bool
is_actor_type t = t == "human" || t == "ai"

unfoldable pub role_failures : String → Option (List String) → List String → List String
role_failures actor_type none failures = failures ++ "template_roles_missing" ∷ []
role_failures actor_type (some []) failures = failures ++ "template_roles_missing" ∷ []
role_failures actor_type (some (r ∷ roles)) failures =
    append_if (actor_type == "ai" && not (contains "ai_agent" (r ∷ roles)))
      "template_ai_role_missing" failures

unfoldable pub evaluate_policy_pack_invariants : Pack → List String
unfolding role_failures
evaluate_policy_pack_invariants pack =
    let failures : List String = append_if (is_empty (strip pack.pack_id)) "pack_id_missing" [] in
    elim pack.template_actor [
      | none ↦ failures ++ "template_actor_missing" ∷ []
      | some actor ↦
          let actor_type = lower (strip actor.actor_type) in
          append_if (not actor.attributes_is_object) "template_attributes_invalid" (
            role_failures actor_type actor.roles
              (append_if (not (is_actor_type actor_type)) "template_actor_type_invalid" failures))
    ]

-- `load_policy_packs` and the search of `_load_policy_pack`: the first bundled pack with that id
unfoldable pub load_policy_pack : String → List Pack → Option Pack
load_policy_pack pack_id [] = none
load_policy_pack pack_id (p ∷ packs) =
    if p.pack_id == pack_id then some p else load_policy_pack pack_id packs
