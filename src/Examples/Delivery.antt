-- ===== src/Examples/Delivery.antt =====
-- The theorems on the gateway's limits and caches, the outbox and the gold pointer at concrete inputs.
use schema_pilot.Base.{
  ℕ, ◌+◌, ◌*◌, ◌≤◌, String, ◌≡◌, ◌≢◌, ◌⊎◌, inr, refl, true, false, Option, none, some, List, [],
  ◌∷◌, if◌then◌else◌, any, get_row, length, max, lower, ltb, arith, eq_iff,
}
use schema_pilot.Base.Int.{pos}
use schema_pilot.Errors.{ok}
use schema_pilot.RateLimit.{Limits, new_limiter, try_acquire, release, roll_window, admit}
use schema_pilot.RateLimit.Bounds.{
  acquire, release_of, run, IsWithin, inflight, run-new_limiter-IsWithin, release-acquire,
}
use schema_pilot.QueryCache.{
  InMemoryQueryCache, new_query_cache, get, set, starts_with, invalidate_prefix,
}
use schema_pilot.QueryCache.Lookups.{get-set}
use schema_pilot.QueryCache.Size.{set_at, get_at, run_bounded}
use schema_pilot.AuditOutbox.{AuditOutboxEvent, is_due, event_key, dispatch_audit_outbox_batch}
use schema_pilot.AuditOutbox.Settled.{dispatch_keeps_settled}
use schema_pilot.AuditOutbox.Attempts.{over, dispatch_bounded}
use schema_pilot.GoldPointer.{
  Pointer, Files, RolledBack, load_latest_gold_pointer, publish_gold_pointer, rollback_gold_pointer,
  last?,
}
use schema_pilot.GoldPointer.Undo.{no_files, rollback-publish}
use schema_pilot.GoldPointer.History.{Call, publish, rollback, rollback_published}
use schema_pilot.Access.{
  Actor, AbacDecision, evaluate_internal_abac, evaluate_abac, text_length, partial_reveal,
}
use schema_pilot.Access.Masks.{char_at, partial_reveal_hides}
use schema_pilot.Access.Regions.{abac_region}

abbrev limits : Limits
limits = record { max_requests_per_minute = pos 2; max_concurrent_per_actor = pos 1 }

run-new_limiter-IsWithin_example : IsWithin limits (
    schema_pilot.RateLimit.Bounds.run limits
      (acquire 0 "alice" ∷ acquire 1 "alice" ∷ release_of "alice" ∷ [])
      (new_limiter 0))
run-new_limiter-IsWithin_example =
    run-new_limiter-IsWithin limits 0
      (acquire 0 "alice" ∷ acquire 1 "alice" ∷ release_of "alice" ∷ [])

abbrev cache : InMemoryQueryCache ℕ
cache = new_query_cache true (pos 60) (pos 1)

get-set_example :
    (get 59000000 "ws:q" (set 0 "ws:q" 7 cache)).0
    ≡ (if ltb 59000000 (0 + cache.ttl_seconds * 1000000) then some 7 else none)
unfolding new_query_cache
get-set_example = get-set cache "ws:q" 7 0 59000000 refl

run_bounded_example :
    length
      (schema_pilot.QueryCache.Size.run {V = ℕ}
        (set_at 0 "a" 1 ∷ set_at 1 "b" 2 ∷ get_at 2 "a" ∷ [])
        (new_query_cache true (pos 60) (pos 1))).entries
    ≤ max 1 1
run_bounded_example =
    run_bounded {V = ℕ} true (pos 60) (pos 1) (set_at 0 "a" 1 ∷ set_at 1 "b" 2 ∷ get_at 2 "a" ∷ [])

abbrev event : String → String → ℕ → AuditOutboxEvent String
event id status attempts = record {
  outbox_event_id = id;
  service = "gateway";
  workspace_id = some "ws";
  audit_event_id = "e1";
  payload = "{}";
  status = status;
  attempt_count = attempts;
  last_error = none;
}

abbrev outbox : List (AuditOutboxEvent String)
outbox = event "o1" "sent" 1 ∷ event "o2" "pending" 2 ∷ []

abbrev failing : String → Option String
failing id = some "timeout"

dispatch_keeps_settled_example :
    get_row event_key "o1" (dispatch_audit_outbox_batch failing "gateway" 10 3 outbox).1
    ≡ some (event "o1" "sent" 1)
unfolding is_due
dispatch_keeps_settled_example =
    dispatch_keeps_settled failing "gateway" 10 3 outbox (event "o1" "sent" 1) "o1"
      (refl, (refl, tt)) refl refl

dispatch_bounded_example :
    let (result, after) = dispatch_audit_outbox_batch failing "gateway" 10 3 outbox in
    (result.attempted ≡ result.sent + result.failed)
    × (result.attempted ≤ 10)
    × (any (over 3) after ≡ false)
dispatch_bounded_example = dispatch_bounded failing "gateway" 10 3 outbox refl

abbrev first_build : Pointer
first_build = record { workspace_id = "ws"; build_id = "b1"; snapshot_id = "s1"; model_name = "m" }

abbrev files : Files
files = record { latest = some first_build; history = first_build ∷ [] }

abbrev first_call : List Call
first_call = publish "ws" "b1" "s1" "m" ∷ []

rollback-publish_example :
    let files = schema_pilot.GoldPointer.History.run first_call no_files in
    let (new, after) = publish_gold_pointer "ws" "b2" "s2" "m" files in
    let (outcome, back) = rollback_gold_pointer none after in
    (p : Pointer) × (outcome ≡ ok (record { current = new; rolled_back_to = p }))
    × (load_latest_gold_pointer back ≡ some p)
    × (last? files.history ≡ some p)
    × (p.build_id ≡ "b1")
unfolding last? publish_gold_pointer load_latest_gold_pointer
rollback-publish_example =
    rollback-publish "ws" "b2" "s2" "m" first_call first_build refl builds_differ
  where
    builds_differ : ◌≢◌ {A = String} "b1" "b2"
    builds_differ = ground (arith, eq_iff "b1" "b2")

rollback_published_example :
    let after =
      schema_pilot.GoldPointer.History.run
        (publish "ws" "b3" "s3" "m" ∷ rollback none ∷ [])
        (publish_gold_pointer "ws" "b2" "s2" "m" files).1 in
    (r : RolledBack) × ((rollback_gold_pointer (some "b2") after).0 ≡ ok r)
    × (r.rolled_back_to.build_id ≡ "b2")
    × (load_latest_gold_pointer (rollback_gold_pointer (some "b2") after).1 ≡ some r.rolled_back_to)
rollback_published_example =
    rollback_published "ws" "b2" "s2" "m" files (publish "ws" "b3" "s3" "m" ∷ rollback none ∷ [])
      refl

partial_reveal_hides_example :
    (text_length (partial_reveal "alice") ≡ text_length "alice")
    × (char_at 1 (partial_reveal "alice") ≡ some "*")
unfolding text_length
partial_reveal_hides_example =
    partial_reveal_hides "alice" 1 (omega arith) (inr (omega arith, omega arith))

abbrev analyst : Actor
analyst = record { actor_type = "human"; roles = "analyst" ∷ []; region = "eu" }

abbrev allowed_in_eu : AbacDecision
allowed_in_eu = record {
  allow = true;
  reason = "internal_abac_allow";
  row_filter = some ("region", "eu");
  masks = ("email", "partial_reveal") ∷ [];
}

abac_region_example :
    (allowed_in_eu.row_filter ≡ some ("region", "eu"))
    × ((analyst.region ≡ "") ⊎ (analyst.region ≡ analyst.region))
unfolding evaluate_abac evaluate_internal_abac lower
abac_region_example = abac_region analyst "eu" "internal" allowed_in_eu refl refl refl
