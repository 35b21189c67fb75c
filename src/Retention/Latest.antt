-- ===== src/Retention/Latest.antt =====
-- What is configured is what is read back, whatever rows the table holds.
use schema_pilot.Base.{
  String, ◌≡◌, ◌≢◌, Bool, none, some, List, [], ◌∷◌, ◌++◌, arith, eq_iff, inl, inr, Option-cases,
  put_row, get_row, IsKeyed,
}
use schema_pilot.Base.Int.{ℤ}
use schema_pilot.Errors.{ok}
use schema_pilot.Retention.Table.{RetentionPolicy, retention_key, get_retention_policy_row}
use schema_pilot.Retention.{Db, configure_retention_policy, get_retention_policy}

latest_held :
    (ws : String) (old : RetentionPolicy) (rows : List RetentionPolicy)
    → get_retention_policy_row ws rows ≡ some old
    → (get_row retention_key (retention_key old) rows ≢ none) × (old.workspace_id ≡ ws)
unfolding get_retention_policy_row
latest_held ws old [] h = cc
latest_held ws old (r ∷ rows) h = ground (
  arith,
  h,
  latest_held ws old rows,
  eq_iff r.workspace_id ws,
  eq_iff r.retention_policy_id old.retention_policy_id,
)

latest-append :
    (ws : String) (p : RetentionPolicy) (rows : List RetentionPolicy)
    → get_retention_policy_row ws rows ≡ none
    → p.workspace_id ≡ ws
    → get_retention_policy_row ws (rows ++ p ∷ []) ≡ some p
unfolding get_retention_policy_row
latest-append ws p [] h here = ground (arith, eq_iff p.workspace_id ws)
latest-append ws p (r ∷ rows) h here = ground (arith, latest-append ws p rows)

latest-put_row :
    (ws : String) (p old : RetentionPolicy) (rows : List RetentionPolicy)
    → IsKeyed retention_key rows
    → get_retention_policy_row ws rows ≡ some old
    → p.retention_policy_id ≡ old.retention_policy_id
    → p.workspace_id ≡ old.workspace_id
    → get_retention_policy_row ws (put_row retention_key p rows) ≡ some p
unfolding get_retention_policy_row
latest-put_row ws p old [] keyed h id here = cc
latest-put_row ws p old (r ∷ rows) keyed h id here =
    elim (Option-cases (get_retention_policy_row ws rows)) [
      | inl e ↦ ground (
        arith,
        e,
        h,
        keyed.0,
        eq_iff r.workspace_id ws,
        eq_iff p.workspace_id ws,
        eq_iff r.retention_policy_id p.retention_policy_id,
      )
      | inr (s, e) ↦ ground (
        arith,
        e,
        h,
        keyed.0,
        eq_iff r.workspace_id ws,
        eq_iff p.workspace_id ws,
        eq_iff r.retention_policy_id p.retention_policy_id,
        latest_held ws s rows e,
        latest-put_row ws p old rows keyed.1,
      )
    ]

-- What was configured last, with its days, switches and legal hold, is what is read back.
pub configure-get :
    (new_id ws actor : String) (days : ℤ) (enabled purge hold : Bool) (db : Db)
    (p : RetentionPolicy)
    → IsKeyed retention_key db.retention
    → (configure_retention_policy new_id ws actor days enabled purge hold db).0 ≡ ok p
    → (get_retention_policy ws
          (configure_retention_policy new_id ws actor days enabled purge hold db).1
        ≡ some p)
      × (p.retention_days ≡ days)
      × (p.enabled ≡ enabled)
      × (p.purge_enabled ≡ purge)
      × (p.legal_hold_active ≡ hold)
unfolding configure_retention_policy get_retention_policy
configure-get new_id ws actor days enabled purge hold db p keyed h =
    elim (Option-cases (get_retention_policy_row ws db.retention)) [
      | inl e ↦ ground (arith, e, h, latest-append ws p db.retention e)
      | inr (old, e) ↦ ground (
        arith,
        e,
        h,
        latest-put_row ws p old db.retention keyed e,
        latest_held ws old db.retention e,
      )
    ]
