-- ===== src/Retention/Guards.antt =====
-- The guards of the purge fail closed, and read what was configured last.
use schema_pilot.Base.{
  ℕ, String, ◌≡◌, ◌⊎◌, refl, Bool, true, false, Option, none, some, arith, inl, inr, Option-cases,
  is_empty, strip,
}
use schema_pilot.Errors.{err, policy_denied}
use schema_pilot.Evidence.{Sealer}
use schema_pilot.Retention.Table.{RetentionPolicy, get_retention_policy_row}
use schema_pilot.Retention.{
  Db, PurgeEvidence, get_retention_policy, purge_refusal, execute_retention_purge,
}

-- What a purge needs: a policy of the workspace that is enabled, allows purges and is under no legal
-- hold, and a purge root.
abbrev pub IsPurgeable : RetentionPolicy → String → Type 0
IsPurgeable p root =
    (p.enabled ≡ true)
    × (p.purge_enabled ≡ true)
    × (p.legal_hold_active ≡ false)
    × (is_empty (strip root) ≡ false)

refusal_none :
    (o : Option RetentionPolicy) (root : Option String)
    → purge_refusal o root ≡ none
    → (p : RetentionPolicy) × (o ≡ some p) × (r : String) × (root ≡ some r) × IsPurgeable p r
unfolding purge_refusal
refusal_none none root h = ground (arith, h)
refusal_none (some p) none h = ground (arith, h)
refusal_none (some p) (some r) h =
    (p, refl, r, refl, (ground arith, ground arith, ground arith, ground arith))

module _ (sealer : Sealer PurgeEvidence) (now : ℕ) (run_id : String) where
  refused_changes_nothing :
      (ws actor : String) (root : Option String) (dry_run : Bool) (db : Db) (reason : String)
      → purge_refusal (get_retention_policy_row ws db.retention) root ≡ some reason
      → execute_retention_purge sealer now run_id ws actor root dry_run db
        ≡ (err (policy_denied reason), db)
  unfolding execute_retention_purge
  refused_changes_nothing ws actor root dry_run db reason e = rw (e, execute_retention_purge) refl

  -- Either the workspace has a retention policy that is enabled, allows purges and is under no legal
  -- hold, and a purge root that is not blank is configured, or the call is denied and changes nothing.
  pub purge_fails_closed :
      (ws actor : String) (root : Option String) (dry_run : Bool) (db : Db)
      → ((p : RetentionPolicy) × (get_retention_policy ws db ≡ some p)
          × (r : String) × (root ≡ some r)
          × IsPurgeable p r)
        ⊎ ((reason : String) × (execute_retention_purge sealer now run_id ws actor root dry_run db
              ≡ (err (policy_denied reason), db)))
  unfolding get_retention_policy
  purge_fails_closed ws actor root dry_run db =
      elim (Option-cases (purge_refusal (get_retention_policy_row ws db.retention) root)) [
        | inl passed ↦ inl (refusal_none (get_retention_policy_row ws db.retention) root passed)
        | inr (reason, e) ↦ inr (reason, refused_changes_nothing ws actor root dry_run db reason e)
      ]
