-- ===== src/PolicyPack/Soundness.antt =====
-- What the checks let through.
use schema_pilot.Base.{
  ◌≡◌, ◌≢◌, refl, String, Bool, true, false, not, ◌&&◌, Option, none, some, List, [], ◌∷◌, ◌++◌,
  ◌==◌, strip, lower, is_empty, contains, arith,
}
use schema_pilot.PolicyPack.Invariants.{
  Template, append_if, is_actor_type, role_failures, evaluate_policy_pack_invariants,
}

append-not_nil : (l : List String) (c : String) → l ++ c ∷ [] ≢ []
append-not_nil [] c e = cc
append-not_nil (x ∷ l) c e = cc

-- a check that passed, and the failures before it
append_if-nil :
    (b : Bool) (c : String) (l : List String) → append_if b c l ≡ [] → (b ≡ false) × (l ≡ [])
append_if-nil true c l h = absurd (append-not_nil l c h)
append_if-nil false c l h = (refl, h)

role_failures-nil :
    (kind : String) (roles : Option (List String)) (l : List String)
    → role_failures kind roles l ≡ []
    → (role : String) × (more : List String) × (roles ≡ some (role ∷ more))
      × ((kind == "ai" && not (contains "ai_agent" (role ∷ more))) ≡ false)
      × (l ≡ [])
unfolding role_failures
role_failures-nil kind none l h = absurd (append-not_nil l "template_roles_missing" h)
role_failures-nil kind (some []) l h = absurd (append-not_nil l "template_roles_missing" h)
role_failures-nil kind (some (role ∷ more)) l h =
    let (ai, rest) =
      append_if-nil (kind == "ai" && not (contains "ai_agent" (role ∷ more)))
        "template_ai_role_missing" l h in
    (role, more, refl, ai, rest)

module _ (pack_id : String) where
  -- with a template, step by step through the checks
  actor_sound :
      (actor : Template)
      → evaluate_policy_pack_invariants (record { pack_id = pack_id; template_actor = some actor })
        ≡ []
      → (is_empty (strip pack_id) ≡ false)
        × (is_actor_type (lower (strip actor.actor_type)) ≡ true)
        × (actor.attributes_is_object ≡ true)
        × (role : String) × (more : List String) × (actor.roles ≡ some (role ∷ more))
        × ((lower (strip actor.actor_type) == "ai" && not (contains "ai_agent" (role ∷ more)))
            ≡ false)
  unfolding evaluate_policy_pack_invariants
  actor_sound actor h =
      let kind = lower (strip actor.actor_type) in
      let named : List String = append_if (is_empty (strip pack_id)) "pack_id_missing" [] in
      let typed : List String =
        append_if (not (is_actor_type kind)) "template_actor_type_invalid" named in
      let (attributes, h1) =
        append_if-nil (not actor.attributes_is_object) "template_attributes_invalid"
          (role_failures kind actor.roles typed) h in
      let (role, more, roles, ai, h2) = role_failures-nil kind actor.roles typed h1 in
      let (kinded, h3) =
        append_if-nil (not (is_actor_type kind)) "template_actor_type_invalid" named h2 in
      let (name, h4) = append_if-nil (is_empty (strip pack_id)) "pack_id_missing" [] h3 in
      (name, ground arith, ground arith, role, more, roles, ai)

  -- A pack that fails no check has a name that is not blank and a template actor of the type "human"
  -- or "ai", with attributes and at least one role, among them "ai_agent" where the type is "ai".
  pub invariants_sound :
      (template : Option Template)
      → evaluate_policy_pack_invariants (record { pack_id = pack_id; template_actor = template })
        ≡ []
      → (is_empty (strip pack_id) ≡ false)
        × (actor : Template) × (template ≡ some actor)
        × (is_actor_type (lower (strip actor.actor_type)) ≡ true)
        × (actor.attributes_is_object ≡ true)
        × (role : String) × (more : List String) × (actor.roles ≡ some (role ∷ more))
        × ((lower (strip actor.actor_type) == "ai" && not (contains "ai_agent" (role ∷ more)))
            ≡ false)
  unfolding evaluate_policy_pack_invariants
  invariants_sound none h = absurd (
      append-not_nil (append_if (is_empty (strip pack_id)) "pack_id_missing" [])
        "template_actor_missing" h)
  invariants_sound (some actor) h =
      let (name, typed, attributes, role, more, roles, ai) = actor_sound actor h in
      (name, actor, refl, typed, attributes, role, more, roles, ai)
