-- ===== src/Runs/Picked.antt =====
-- Which run is taken.
use schema_pilot.Base.{
  ◌≡◌, refl, ◌∙◌, Bool, ◌&&◌, is_some, List, [], ◌∷◌, max, keep, any, find, order_rows,
  any-order_rows, arith,
}
use schema_pilot.Base.Int.{ℤ, pos_part}
use schema_pilot.Scheduling.{RunRecord}
use schema_pilot.Runs.{run_key, is_queued, has_room, next_queued_run}

is_some-find : (p : RunRecord → Bool) (l : List RunRecord) → is_some (find p l) ≡ any p l
is_some-find p [] = refl
is_some-find p (r ∷ l) = ground (arith, is_some-find p l)

any-keep :
    (p q : RunRecord → Bool) (l : List RunRecord) → any p (keep q l) ≡ any (λ r. q r && p r) l
any-keep p q [] = refl
any-keep p q (r ∷ l) = ground (arith, any-keep p q l)

-- A run is taken exactly where some queued run belongs to a workspace with fewer running runs than
-- its limit, which is at least one.
pub next_queued_exact :
    (max_active : ℤ) (runs : List RunRecord)
    → is_some (next_queued_run max_active runs)
      ≡ any (λ r. is_queued r && has_room (max (pos_part max_active) 1) runs r) runs
unfolding next_queued_run
next_queued_exact max_active runs =
    let room = has_room (max (pos_part max_active) 1) runs in
    is_some-find room (order_rows run_key (keep is_queued runs))
    ∙ any-order_rows run_key room (keep is_queued runs)
    ∙ any-keep room is_queued runs
