-- ===== src/AuditOutbox/Settled.antt =====
-- What is not due is never attempted again.
use schema_pilot.Base.{
  ℕ, ◌≡◌, refl, ◌∙◌, String, Bool, false, Option, none, some, List, [], ◌∷◌, ◌==◌, take, keep, any,
  get_row, put_row, order_rows, any-order_rows, any-take, IsKeyed, arith, eq_iff,
}
use schema_pilot.AuditOutbox.{
  AuditOutboxEvent, Tally, event_key, is_due, attempt, tally, dispatch_rows, selected_rows,
  dispatch_audit_outbox_batch,
}

module _ {P : Type 0} where
  -- some row has the key
  abbrev names : String → List (AuditOutboxEvent P) → Bool
  names k = any (λ e. e.outbox_event_id == k)

  keep_absent :
      (p : AuditOutboxEvent P → Bool) (k : String) (rows : List (AuditOutboxEvent P))
      → get_row event_key k rows ≡ none
      → names k (keep p rows) ≡ false
  keep_absent p k [] h = refl
  keep_absent p k (e ∷ rows) h = ground (arith, keep_absent p k rows)

  keep_rejected :
      (p : AuditOutboxEvent P → Bool) (e : AuditOutboxEvent P) (k : String)
      (rows : List (AuditOutboxEvent P))
      → IsKeyed event_key rows
      → get_row event_key k rows ≡ some e
      → p e ≡ false
      → names k (keep p rows) ≡ false
  keep_rejected p e k [] w h r = refl
  keep_rejected p e k (t ∷ rows) w h r =
      ground (arith, keep_rejected p e k rows w.1, keep_absent p k rows, eq_iff t.outbox_event_id k)

  attempt_key :
      (m : ℕ) (o : Option String) (e : AuditOutboxEvent P)
      → (attempt m o e).outbox_event_id ≡ e.outbox_event_id
  unfolding attempt
  attempt_key m none e = refl
  attempt_key m (some x) e = refl

  get_row_other :
      (k : String) (r : AuditOutboxEvent P) (rows : List (AuditOutboxEvent P))
      → (r.outbox_event_id == k) ≡ false
      → get_row event_key k (put_row event_key r rows) ≡ get_row event_key k rows
  get_row_other k r [] h = refl
  get_row_other k r (t ∷ rows) h = ground (
    arith,
    get_row_other k r rows h,
    eq_iff t.outbox_event_id r.outbox_event_id,
    eq_iff t.outbox_event_id k,
  )

  dispatch_rows_other :
      (emit : String → Option String) (m : ℕ) (k : String) (todo : List (AuditOutboxEvent P))
      (t : Tally) (rows : List (AuditOutboxEvent P))
      → names k todo ≡ false
      → get_row event_key k (dispatch_rows emit m todo (t, rows)).1 ≡ get_row event_key k rows
  unfolding dispatch_rows
  dispatch_rows_other emit m k [] t rows h = refl
  dispatch_rows_other emit m k (e ∷ todo) t rows h =
      let done = attempt m (emit e.outbox_event_id) e in
      ground (
        arith,
        dispatch_rows_other emit m k todo (tally (emit e.outbox_event_id) t)
            (put_row event_key done rows),
        get_row_other k done rows,
        attempt_key m (emit e.outbox_event_id) e,
      )

  -- An event that is not due, because it was sent, has failed for good, has had its attempts, or
  -- belongs to another service, is the same after a dispatch, whatever the sink does.
  pub dispatch_keeps_settled :
      (emit : String → Option String) (service : String) (max_batch max_attempts : ℕ)
      (rows : List (AuditOutboxEvent P)) (e : AuditOutboxEvent P) (k : String)
      → IsKeyed event_key rows
      → get_row event_key k rows ≡ some e
      → is_due service max_attempts e ≡ false
      → get_row event_key k (dispatch_audit_outbox_batch emit service max_batch max_attempts rows).1
        ≡ some e
  unfolding dispatch_audit_outbox_batch selected_rows
  dispatch_keeps_settled emit service n m rows e k w h settled =
      let due = keep (is_due service m) rows in
      let absent : names k (take n (order_rows event_key due)) ≡ false =
        any-take event_key (λ r. r.outbox_event_id == k) n (order_rows event_key due)
          (any-order_rows event_key (λ r. r.outbox_event_id == k) due
            ∙ keep_rejected (is_due service m) e k rows w h settled) in
      dispatch_rows_other emit m k (take n (order_rows event_key due))
        (record { attempted = 0; sent = 0; failed = 0 }) rows absent
      ∙ h
