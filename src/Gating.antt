-- ===== src/Gating.antt =====
-- backend/control_plane/gating.py: the gate of the gold publication.
pub mod Exact
use schema_pilot.Base.{ℕ, String, Bool, true, false, not, ltb, if◌then◌else◌}

pub record Gate : Type 0 where
  pub allowed : Bool
  pub reason : String

unfoldable pub evaluate_gold_publish_gate : Bool → ℕ → Gate
evaluate_gold_publish_gate contracts_passed unresolved_blocking_tasks =
    if not contracts_passed
    then record { allowed = false; reason = "contract_failure" }
    else if ltb 0 unresolved_blocking_tasks
    then record { allowed = false; reason = "blocking_review_tasks" }
    else record { allowed = true; reason = "all_gates_passed" }
