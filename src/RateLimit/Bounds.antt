-- ===== src/RateLimit/Bounds.antt =====
-- No actor is ever above a limit, and a release undoes its acquire.
use schema_pilot.Base.{
  ℕ, suc, ◌+◌, ◌-◌, ◌≤◌, ◌≡◌, String, true, List, [], ◌∷◌, ◌==◌, if◌then◌else◌, count_of, arith,
  eq_iff,
}
use schema_pilot.Base.Int.{pos_part}
use schema_pilot.RateLimit.{
  Limits, Limiter, new_limiter, roll_window, admit, try_acquire, release, count_of-insert,
  count_of-erase,
}

abbrev pub inflight : String → Limiter → ℕ
inflight actor l = count_of actor l.inflight_counts

abbrev pub requests : String → Limiter → ℕ
requests actor l = count_of actor l.request_counts

-- Every actor is within both limits; a limit below zero counts as zero.
pub record IsWithin (cfg : Limits) (l : Limiter) : Type 0 where
  pub concurrent : (actor : String) → inflight actor l ≤ pos_part cfg.max_concurrent_per_actor
  pub per_minute : (actor : String) → requests actor l ≤ pos_part cfg.max_requests_per_minute

-- one call on the limiter
pub data Call : Type 0 where
  acquire : ℕ → String → Call
  release_of : String → Call

abbrev pub step : Limits → Call → Limiter → Limiter
step cfg (acquire now actor) l = (try_acquire cfg now actor l).1
step cfg (release_of actor) l = release actor l

abbrev pub run : Limits → List Call → Limiter → Limiter
run cfg [] l = l
run cfg (c ∷ calls) l = run cfg calls (step cfg c l)

module _ (cfg : Limits) where
  roll-IsWithin : (now : ℕ) (l : Limiter) → IsWithin cfg l → IsWithin cfg (roll_window now l)
  unfolding roll_window
  roll-IsWithin now l h = record {
    concurrent = λ j. ground (arith, h.concurrent j);
    per_minute = λ j. unfold count_of in ground (arith, h.per_minute j);
  }

  admit-IsWithin :
      (actor : String) (l : Limiter) → IsWithin cfg l → IsWithin cfg (admit cfg actor l).1
  unfolding admit
  admit-IsWithin actor l h = record {
    concurrent = λ j. ground (
      arith,
      h.concurrent j,
      count_of-insert actor j (count_of actor l.inflight_counts + 1) l.inflight_counts,
      eq_iff actor j,
    );
    per_minute = λ j. ground (
      arith,
      h.per_minute j,
      count_of-insert actor j (count_of actor l.request_counts + 1) l.request_counts,
      eq_iff actor j,
    );
  }

  release-IsWithin :
      (actor : String) (l : Limiter) → IsWithin cfg l → IsWithin cfg (release actor l)
  unfolding release
  release-IsWithin actor l h = record {
    concurrent = λ j. ground (
      arith,
      h.concurrent j,
      h.concurrent actor,
      count_of-insert actor j (count_of actor l.inflight_counts - 1) l.inflight_counts,
      count_of-erase actor j l.inflight_counts,
      eq_iff actor j,
    );
    per_minute = λ j. ground (arith, h.per_minute j);
  }

  step-IsWithin : (c : Call) (l : Limiter) → IsWithin cfg l → IsWithin cfg (step cfg c l)
  unfolding try_acquire
  step-IsWithin (acquire now actor) l h =
      admit-IsWithin actor (roll_window now l) (roll-IsWithin now l h)
  step-IsWithin (release_of actor) l h = release-IsWithin actor l h

  run-IsWithin : (calls : List Call) (l : Limiter) → IsWithin cfg l → IsWithin cfg (run cfg calls l)
  run-IsWithin [] l h = h
  run-IsWithin (c ∷ calls) l h = run-IsWithin calls (step cfg c l) (step-IsWithin c l h)

  -- Whatever calls are made on a new limiter, at whatever times and by whatever actors, no actor has
  -- more requests in flight, or more requests counted in the current minute, than its limits allow.
  pub run-new_limiter-IsWithin :
      (now : ℕ) (calls : List Call) → IsWithin cfg (run cfg calls (new_limiter now))
  run-new_limiter-IsWithin now calls = run-IsWithin calls (new_limiter now) (
      unfold new_limiter count_of in
      record { concurrent = λ j. omega arith; per_minute = λ j. omega arith })

inflight-roll_window :
    (now : ℕ) (j : String) (l : Limiter) → inflight j (roll_window now l) ≡ inflight j l
unfolding roll_window
inflight-roll_window now j l = ground arith

inflight-admit :
    (cfg : Limits) (actor j : String) (l : Limiter)
    → (admit cfg actor l).0.allowed ≡ true
    → inflight j (admit cfg actor l).1 ≡ (if actor == j then suc (inflight j l) else inflight j l)
unfolding admit
inflight-admit cfg actor j l allowed = ground (
  arith,
  count_of-insert actor j (count_of actor l.inflight_counts + 1) l.inflight_counts,
  eq_iff actor j,
)

inflight-release :
    (actor j : String) (l : Limiter)
    → inflight j (release actor l) ≡ (if actor == j then inflight j l - 1 else inflight j l)
unfolding release
inflight-release actor j l = ground (
  arith,
  count_of-insert actor j (count_of actor l.inflight_counts - 1) l.inflight_counts,
  count_of-erase actor j l.inflight_counts,
  eq_iff actor j,
)

-- A release undoes the acquire before it: every actor has as many requests in flight as before.
pub release-acquire :
    (cfg : Limits) (now : ℕ) (actor : String) (l : Limiter)
    → (try_acquire cfg now actor l).0.allowed ≡ true
    → (j : String) → inflight j (release actor (try_acquire cfg now actor l).1) ≡ inflight j l
unfolding try_acquire
release-acquire cfg now actor l allowed j = ground (
  arith,
  inflight-roll_window now j l,
  inflight-admit cfg actor j (roll_window now l) allowed,
  inflight-release actor j (admit cfg actor (roll_window now l)).1,
)
