-- ===== src/AuditOutbox.antt =====
-- backend/shared_domain/audit_outbox.py: the outbox of audit events. The payload type is a
-- parameter; so is what the sink does within one dispatch, for each row: `none` where it takes the
-- event, `some` text where it raises an error that the loop catches. The limit is a natural number: the
-- settings refuse one below one. The delivery counters for monitoring are left out.
pub mod Settled
pub mod Attempts
use schema_pilot.Base.{
  ℕ, suc, ◌+◌, String, Bool, true, false, ◌&&◌, Option, none, some, List, [], ◌∷◌, ◌++◌, ◌==◌,
  if◌then◌else◌, ltb, leb, length, take, keep, put_row, order_rows,
}

pub record AuditOutboxEvent (P : Type 0) : Type 0 where
  pub outbox_event_id : String
  pub service : String
  pub workspace_id : Option String
  pub audit_event_id : String
  pub payload : P
  pub status : String
  pub attempt_count : ℕ
  pub last_error : Option String

pub record AuditOutboxDispatchResult : Type 0 where
  pub attempted : ℕ
  pub sent : ℕ
  pub failed : ℕ
  pub pending : ℕ

-- the counts of the loop
pub record Tally : Type 0 where
  pub attempted : ℕ
  pub sent : ℕ
  pub failed : ℕ

unfoldable pub tally : Option String → Tally → Tally
tally none t = record t { attempted = t.attempted + 1; sent = t.sent + 1 }
tally (some error) t = record t { attempted = t.attempted + 1; failed = t.failed + 1 }

module _ {P : Type 0} where
  abbrev pub event_key : AuditOutboxEvent P → String
  event_key e = e.outbox_event_id

  -- with a new id
  unfoldable pub enqueue_audit_outbox_event :
      String
      → String
      → Option String
      → String
      → P
      → List (AuditOutboxEvent P)
      → List (AuditOutboxEvent P)
  enqueue_audit_outbox_event id service workspace_id audit_event_id payload rows =
      rows
      ++ record {
        outbox_event_id = id;
        service = service;
        workspace_id = workspace_id;
        audit_event_id = audit_event_id;
        payload = payload;
        status = "pending";
        attempt_count = 0;
        last_error = none;
      }
        ∷ []

  -- the `where` of both queries
  unfoldable pub is_due : String → ℕ → AuditOutboxEvent P → Bool
  is_due service max_attempts e =
      e.service == service && e.status == "pending" && ltb e.attempt_count max_attempts

  -- the body of the loop for one row
  unfoldable pub attempt : ℕ → Option String → AuditOutboxEvent P → AuditOutboxEvent P
  attempt max_attempts none e = record e {
    status = "sent";
    attempt_count = e.attempt_count + 1;
    last_error = none;
  }
  attempt max_attempts (some error) e = record e {
    attempt_count = e.attempt_count + 1;
    last_error = some error;
    status = if leb max_attempts (e.attempt_count + 1) then "failed" else e.status;
  }

  unfoldable pub dispatch_rows :
      (String → Option String)
      → ℕ
      → List (AuditOutboxEvent P)
      → Tally × List (AuditOutboxEvent P)
      → Tally × List (AuditOutboxEvent P)
  dispatch_rows emit max_attempts [] acc = acc
  dispatch_rows emit max_attempts (e ∷ more) (t, rows) =
      let outcome = emit e.outbox_event_id in
      dispatch_rows emit max_attempts more
        (tally outcome t, put_row event_key (attempt max_attempts outcome e) rows)

  unfoldable pub selected_rows :
      String → ℕ → ℕ → List (AuditOutboxEvent P) → List (AuditOutboxEvent P)
  selected_rows service max_batch max_attempts rows =
      take max_batch (order_rows event_key (keep (is_due service max_attempts) rows))

  unfoldable pub count_pending_outbox_rows : String → ℕ → List (AuditOutboxEvent P) → ℕ
  count_pending_outbox_rows service max_attempts rows =
      length (keep (is_due service max_attempts) rows)

  unfoldable pub dispatch_audit_outbox_batch :
      (String → Option String)
      → String
      → ℕ
      → ℕ
      → List (AuditOutboxEvent P)
      → AuditOutboxDispatchResult × List (AuditOutboxEvent P)
  dispatch_audit_outbox_batch emit service max_batch max_attempts rows =
      let start : Tally = record { attempted = 0; sent = 0; failed = 0 } in
      let (t, after) =
        dispatch_rows emit max_attempts (selected_rows service max_batch max_attempts rows)
          (start, rows) in
      (
        record {
          attempted = t.attempted;
          sent = t.sent;
          failed = t.failed;
          pending = count_pending_outbox_rows service max_attempts after;
        },
        after,
      )
