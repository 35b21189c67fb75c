-- ===== src/RateLimit.antt =====
-- backend/shared_domain/rate_limit.py: the limiter of requests per minute and of concurrent requests
-- per actor. Each call holds the limiter's lock, so calls follow one another; the time that a call
-- reads, in whole seconds, is an argument.
pub mod Bounds
use schema_pilot.Base.{
  ℕ, suc, ◌+◌, ◌-◌, ◌/◌, ◌≡◌, String, Bool, true, false, not, Option, none, some, List, [], ◌==◌,
  if◌then◌else◌, leb, eqb, Dict, lookup, insert, erase, count_of, lookup-insert, lookup-erase,
  arith,
}
use schema_pilot.Base.Int.{ℤ, pos, leb_ℤ}

pub record Decision : Type 0 where
  pub allowed : Bool
  pub reason : String

pub record Limits : Type 0 where
  pub max_requests_per_minute : ℤ
  pub max_concurrent_per_actor : ℤ

pub record Limiter : Type 0 where
  pub window_epoch_minute : ℕ
  pub request_counts : Dict ℕ
  pub inflight_counts : Dict ℕ

-- `__init__` at a time
unfoldable pub new_limiter : ℕ → Limiter
new_limiter now = record {
  window_epoch_minute = now / 60;
  request_counts = [];
  inflight_counts = [];
}

-- a new minute clears the request counts
unfoldable pub roll_window : ℕ → Limiter → Limiter
roll_window now l =
    if eqb (now / 60) l.window_epoch_minute
    then l
    else record l { window_epoch_minute = now / 60; request_counts = [] }

abbrev pub deny : String → Limiter → Decision × Limiter
deny reason l = (record { allowed = false; reason = reason }, l)

-- behind the roll-over
unfoldable pub admit : Limits → String → Limiter → Decision × Limiter
admit cfg actor_id l =
    if leb_ℤ cfg.max_concurrent_per_actor (pos 0)
    then deny "concurrency_limit_exceeded" l
    else if leb_ℤ cfg.max_concurrent_per_actor (pos (count_of actor_id l.inflight_counts))
    then deny "concurrency_limit_exceeded" l
    else if leb_ℤ cfg.max_requests_per_minute (pos 0)
    then deny "rate_limit_exceeded" l
    else if leb_ℤ cfg.max_requests_per_minute (pos (count_of actor_id l.request_counts))
    then deny "rate_limit_exceeded" l
    else (
      record { allowed = true; reason = "allow" },
      record l {
        request_counts = insert actor_id (count_of actor_id l.request_counts + 1) l.request_counts;
        inflight_counts =
            insert actor_id (count_of actor_id l.inflight_counts + 1) l.inflight_counts;
      },
    )

unfoldable pub try_acquire : Limits → ℕ → String → Limiter → Decision × Limiter
unfolding roll_window admit
try_acquire cfg now actor_id l = admit cfg actor_id (roll_window now l)

unfoldable pub release : String → Limiter → Limiter
release actor_id l =
    let inflight = count_of actor_id l.inflight_counts in
    if leb inflight 1
    then record l { inflight_counts = erase actor_id l.inflight_counts }
    else record l { inflight_counts = insert actor_id (inflight - 1) l.inflight_counts }

pub count_of-insert :
    (k j : String) (n : ℕ) (d : Dict ℕ)
    → count_of j (insert k n d) ≡ (if k == j then n else count_of j d)
unfolding count_of
count_of-insert k j n d = ground (arith, lookup-insert k j n d)

pub count_of-erase :
    (k j : String) (d : Dict ℕ) → count_of j (erase k d) ≡ (if k == j then 0 else count_of j d)
unfolding count_of
count_of-erase k j d = ground (arith, lookup-erase k j d)
