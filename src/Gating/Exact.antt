-- ===== src/Gating/Exact.antt =====
-- The gate, over the review queue that its caller counts.
use schema_pilot.Base.{String, ◌≡◌, ◌↔◌, Bool, true, false, List, [], ◌∷◌, All, arith, length, keep}
use schema_pilot.Review.{Review, Task, is_blocking_in, unresolved_blocking_task_count}
use schema_pilot.Gating.{evaluate_gold_publish_gate}

abbrev pub IsClear : String → List Task → Type 0
IsClear ws = All (λ t. is_blocking_in ws t ≡ false)

IsClear-iff :
    (ws : String) (rows : List Task)
    → (length (keep (is_blocking_in ws) rows) ≡ 0) ↔ IsClear ws rows
IsClear-iff ws [] = (λ h. tt, λ h. ground arith)
IsClear-iff ws (t ∷ rows) =
    let (there, back) = IsClear-iff ws rows in
    (λ h. ground (arith, there), λ h. ground (arith, back h.1))

-- The gate opens exactly when the contracts have passed and no task of the workspace is blocking
-- and unresolved.
pub gate_exact :
    (passed : Bool) (ws : String) (s : Review)
    → ((evaluate_gold_publish_gate passed (unresolved_blocking_task_count ws s)).allowed ≡ true)
      ↔ ((passed ≡ true) × IsClear ws s.tasks)
unfolding evaluate_gold_publish_gate unresolved_blocking_task_count
gate_exact passed ws s =
    let (there, back) = IsClear-iff ws s.tasks in
    (λ h. (ground arith, there (ground arith)), λ h. ground (arith, back h.1))
