-- ===== src/PolicyPack/Guarded.antt =====
-- What a decision must be for the pack in force to change.
use mathlib.Core.Path.{subst}
use schema_pilot.Base.{
  String, ◌≡◌, ◌≢◌, ◌⊎◌, refl, sym, ap, ◌∙◌, Bool, true, some, List, [], ◌∷◌, ◌==◌, eq_iff, inl,
  inr, Bool-cases, Option-cases, strip, IsKeyed,
}
use schema_pilot.Policies.{policy_key, normalize_decision}
use schema_pilot.PolicyPack.Invariants.{Pack, evaluate_policy_pack_invariants, load_policy_pack}
use schema_pilot.PolicyPack.Model.{
  Row, Db, find_pack_row, get_change_request_row, get_effective_policy_pack, load_change_request,
}
use schema_pilot.PolicyPack.Decisions.{
  start_or_apply, approve_change, decide_row, decide_policy_pack_change, record_review,
}
use schema_pilot.PolicyPack.Rows.{
  IsRequest, get_change_request_row-IsRequest, policies-record_review,
}
use schema_pilot.PolicyPack.InForce.{effective-eq, finish_unapplied-keeps}
use schema_pilot.PolicyPack.Guards.{start_canary-keeps}

-- The pack that the request names is missing or fails its checks.
abbrev IsRefused : List Pack → Row → Type 0
IsRefused packs row =
    (pack : Pack)
    → load_policy_pack (strip (load_change_request row.definition_ref).requested_pack_id) packs
      ≡ some pack
    → evaluate_policy_pack_invariants pack ≢ []

module _ (packs : List Pack) (a u new_id ws id actor reason : String) where
  -- behind the checks, with their result
  checked-keeps :
      (canary_enabled : Bool) (w : String) (row : Row) (db : Db) (failures : List String)
      → IsKeyed policy_key db.policies
      → IsRequest row db.policies
      → (canary_enabled ≡ true) ⊎ (failures ≢ [])
      → find_pack_row w
          (start_or_apply new_id ws id actor reason canary_enabled row failures db).1.policies
        ≡ find_pack_row w db.policies
  unfolding start_or_apply
  checked-keeps canary_enabled w row db [] keyed h (inl c) =
      rw c (start_canary-keeps new_id ws id actor reason w row db keyed h)
  checked-keeps canary_enabled w row db [] keyed h (inr r) = absurd (r refl)
  checked-keeps canary_enabled w row db (f ∷ failures) keyed h guard = refl

  approve-keeps :
      (canary_enabled : Bool) (w : String) (row : Row) (db : Db)
      → IsKeyed policy_key db.policies
      → IsRequest row db.policies
      → (canary_enabled ≡ true) ⊎ IsRefused packs row
      → find_pack_row w
          (approve_change packs new_id ws id actor reason canary_enabled row db).1.policies
        ≡ find_pack_row w db.policies
  unfolding approve_change
  approve-keeps canary_enabled w row db keyed h guard =
      elim (Option-cases (
        load_policy_pack (strip (load_change_request row.definition_ref).requested_pack_id)
          packs)) [
            | inl missing ↦ rw (missing, approve_change) refl
            | inr (pack, found) ↦
                rw (found, approve_change)
                  (checked-keeps canary_enabled w row db (evaluate_policy_pack_invariants pack)
                    keyed h (refused pack found guard))
          ]
    where
      refused :
          (pack : Pack)
          → load_policy_pack
              (strip (load_change_request row.definition_ref).requested_pack_id)
              packs
            ≡ some pack
          → (canary_enabled ≡ true) ⊎ IsRefused packs row
          → (canary_enabled ≡ true) ⊎ (evaluate_policy_pack_invariants pack ≢ [])
      refused pack found (inl c) = inl c
      refused pack found (inr r) = inr (r pack found)

  unapproved_row :
      (d w : String) (canary_enabled : Bool) (row : Row) (db : Db)
      → IsKeyed policy_key db.policies
      → IsRequest row db.policies
      → (d ≢ "approve") ⊎ ((canary_enabled ≡ true) ⊎ IsRefused packs row)
      → find_pack_row w
          (decide_row packs a u new_id ws id actor d reason canary_enabled row db).1.policies
        ≡ find_pack_row w db.policies
  unfolding decide_row
  unapproved_row d w canary_enabled row db keyed h guard = elim (Bool-cases (d == "approve")) [
    | inl e ↦
        rw (e, decide_row)
          (approve-keeps canary_enabled w row reviewed keyed' h' (for_approval e guard)
            ∙ ap (find_pack_row w) same)
    | inr e ↦
        rw (e, decide_row)
          (finish_unapplied-keeps w d actor reason row reviewed h' ∙ ap (find_pack_row w) same)
  ]
    where
      reviewed : Db
      reviewed =
          record_review a u ws (load_change_request row.definition_ref).review_task_id actor d
            reason db

      same : reviewed.policies ≡ db.policies
      same =
          policies-record_review a u ws (load_change_request row.definition_ref).review_task_id
            actor d reason db

      keyed' : IsKeyed policy_key reviewed.policies
      keyed' = subst (IsKeyed policy_key) (sym same) keyed

      h' : IsRequest row reviewed.policies
      h' = subst (IsRequest row) (sym same) h

      for_approval :
          (d == "approve") ≡ true
          → (d ≢ "approve") ⊎ ((canary_enabled ≡ true) ⊎ IsRefused packs row)
          → (canary_enabled ≡ true) ⊎ IsRefused packs row
      for_approval e (inl other) = absurd (other ((eq_iff d "approve").0 e))
      for_approval e (inr g) = g

  -- The pack in force stays, in every workspace, when the decision is not "approve", when the change
  -- goes to a canary, and when the requested pack is missing or fails its checks.
  pub guarded_keeps :
      (decision : String) (canary_enabled : Bool) (db : Db)
      → IsKeyed policy_key db.policies
      → ((row : Row)
          → get_change_request_row ws id db.policies ≡ some row
          → (normalize_decision decision ≢ "approve")
            ⊎ ((canary_enabled ≡ true) ⊎ IsRefused packs row))
      → (w : String)
      → get_effective_policy_pack w
          (decide_policy_pack_change packs a u new_id ws id actor decision reason canary_enabled
            db).1
        ≡ get_effective_policy_pack w db
  unfolding decide_policy_pack_change
  guarded_keeps decision canary_enabled db keyed guard w =
      elim (Option-cases (get_change_request_row ws id db.policies)) [
        | inl missing ↦ rw (missing, decide_policy_pack_change) refl
        | inr (row, found) ↦
            rw (found, decide_policy_pack_change)
              (effective-eq w db
                (decide_row packs a u new_id ws id actor (normalize_decision decision) reason
                  canary_enabled row db).1
                (unapproved_row (normalize_decision decision) w canary_enabled row db keyed
                  (get_change_request_row-IsRequest ws id row db.policies found) (guard row found)))
      ]
