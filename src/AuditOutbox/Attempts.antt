-- ===== src/AuditOutbox/Attempts.antt =====
-- The counts of a dispatch, and the bound on attempts.
use schema_pilot.Base.{
  ℕ, ◌+◌, ◌≤◌, ◌≡◌, refl, ◌∙◌, String, Bool, false, not, Option, none, some, List, [], ◌∷◌, ltb,
  length, take, keep, any, put_row, order_rows, any-order_rows, any-take, length-take-le, arith,
}
use schema_pilot.AuditOutbox.{
  AuditOutboxEvent, Tally, event_key, is_due, attempt, tally, dispatch_rows, selected_rows,
  dispatch_audit_outbox_batch,
}

module _ {P : Type 0} where
  -- more attempts than allowed
  abbrev pub over : ℕ → AuditOutboxEvent P → Bool
  over max_attempts e = ltb max_attempts e.attempt_count

  keep_passes :
      (p : AuditOutboxEvent P → Bool) (rows : List (AuditOutboxEvent P))
      → any (λ e. not (p e)) (keep p rows) ≡ false
  keep_passes p [] = refl
  keep_passes p (e ∷ rows) = ground (arith, keep_passes p rows)

  put_row_within :
      (m : ℕ) (r : AuditOutboxEvent P) (rows : List (AuditOutboxEvent P))
      → over m r ≡ false
      → any (over m) rows ≡ false
      → any (over m) (put_row event_key r rows) ≡ false
  put_row_within m r [] h w = refl
  put_row_within m r (t ∷ rows) h w = ground (arith, put_row_within m r rows h)

  attempt_within :
      (service : String) (m : ℕ) (o : Option String) (e : AuditOutboxEvent P)
      → not (is_due service m e) ≡ false
      → over m (attempt m o e) ≡ false
  unfolding attempt is_due
  attempt_within service m none e h = ground arith
  attempt_within service m (some x) e h = ground arith

  dispatch_rows_within :
      (emit : String → Option String) (service : String) (m : ℕ) (todo : List (AuditOutboxEvent P))
      (t : Tally) (rows : List (AuditOutboxEvent P))
      → any (λ e. not (is_due service m e)) todo ≡ false
      → any (over m) rows ≡ false
      → any (over m) (dispatch_rows emit m todo (t, rows)).1 ≡ false
  unfolding dispatch_rows
  dispatch_rows_within emit service m [] t rows h w = w
  dispatch_rows_within emit service m (e ∷ todo) t rows h w =
      let o = emit e.outbox_event_id in
      dispatch_rows_within emit service m todo (tally o t) (put_row event_key (attempt m o e) rows)
        (ground arith)
        (put_row_within m (attempt m o e) rows (attempt_within service m o e (ground arith)) w)

  dispatch_rows_tally :
      (emit : String → Option String) (m : ℕ) (todo : List (AuditOutboxEvent P)) (t : Tally)
      (rows : List (AuditOutboxEvent P))
      → let t' = (dispatch_rows emit m todo (t, rows)).0 in
        (t'.attempted ≡ t.attempted + length todo)
        × (t'.sent + t'.failed + t.attempted ≡ t.sent + t.failed + t'.attempted)
  unfolding dispatch_rows tally
  dispatch_rows_tally emit m [] t rows = (omega arith, omega arith)
  dispatch_rows_tally emit m (e ∷ todo) t rows =
      let o = emit e.outbox_event_id in
      ground (
        arith,
        dispatch_rows_tally emit m todo (tally o t) (put_row event_key (attempt m o e) rows),
      )

  -- A dispatch attempts at most as many events as its batch allows, counts each of them either as
  -- sent or as failed, and leaves no event with more attempts than allowed where there was none.
  pub dispatch_bounded :
      (emit : String → Option String) (service : String) (max_batch max_attempts : ℕ)
      (rows : List (AuditOutboxEvent P))
      → any (over max_attempts) rows ≡ false
      → let (result, after) =
          dispatch_audit_outbox_batch emit service max_batch max_attempts rows in
        (result.attempted ≡ result.sent + result.failed)
        × (result.attempted ≤ max_batch)
        × (any (over max_attempts) after ≡ false)
  unfolding dispatch_audit_outbox_batch selected_rows
  dispatch_bounded emit service n m rows w =
      let due = keep (is_due service m) rows in
      let todo = take n (order_rows event_key due) in
      let start : Tally = record { attempted = 0; sent = 0; failed = 0 } in
      let counted = dispatch_rows_tally emit m todo start rows in
      (
        omega (arith, counted.0, counted.1),
        omega (arith, counted.0, length-take-le n (order_rows event_key due)),
        dispatch_rows_within emit service m todo start rows
            (any-take event_key (λ e. not (is_due service m e)) n (order_rows event_key due)
              (any-order_rows event_key (λ e. not (is_due service m e)) due
                ∙ keep_passes (is_due service m) rows))
            w,
      )
