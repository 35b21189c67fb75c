-- ===== src/Review/Queue.antt =====
-- The queue summary agrees with the queue.
use schema_pilot.Base.{
  ℕ, suc, ◌+◌, String, ◌≡◌, ◌&&◌, List, [], ◌∷◌, ◌==◌, if◌then◌else◌, arith, length, keep, eq_iff,
}
use schema_pilot.Review.{
  Review, Task, is_unresolved, is_blocking_in, unresolved_blocking_task_count, Counters, bump,
  Summary, count_task, summarize, get_review_queue_summary,
}

abbrev pub total_of : Counters → ℕ
total_of [] = 0
total_of ((k, n) ∷ c) = n + total_of c

total_of-bump : (k : String) (c : Counters) → total_of (bump k c) ≡ suc (total_of c)
unfolding bump
total_of-bump k [] = omega arith
total_of-bump k ((j, n) ∷ c) = ground (arith, total_of-bump k c)

abbrev IsCounted : Summary → ℕ → ℕ → Type 0
IsCounted c total blocking =
    (c.total_tasks ≡ total)
    × (c.blocking_open_tasks ≡ blocking)
    × (total_of c.by_status ≡ total)
    × (total_of c.by_priority ≡ total)

abbrev blocks : Task → ℕ
blocks t = if t.blocking && is_unresolved t then 1 else 0

count_task-IsCounted :
    (t : Task) (c : Summary) (n m : ℕ)
    → IsCounted c n m
    → IsCounted (count_task t c) (suc n) (m + blocks t)
unfolding count_task
count_task-IsCounted t c n m h =
    ground (arith, total_of-bump t.status c.by_status, total_of-bump t.priority c.by_priority)

summarize_lem :
    (ws : String) (rows : List Task) (c : Summary) (n m : ℕ)
    → IsCounted c n m
    → IsCounted
        (summarize c (keep (λ t. t.workspace_id == ws) rows))
        (n + length (keep (λ t. t.workspace_id == ws) rows))
        (m + length (keep (is_blocking_in ws) rows))
unfolding summarize
summarize_lem ws [] c n m h = ground arith
summarize_lem ws (t ∷ rows) c n m h = ground (
  arith,
  summarize_lem ws rows c n m h,
  summarize_lem ws rows (count_task t c) (suc n) (m + blocks t) (count_task-IsCounted t c n m h),
)

-- `counts.get(k, 0)`
abbrev pub count_at : String → Counters → ℕ
count_at k [] = 0
count_at k ((j, n) ∷ c) = if j == k then n else count_at k c

count_at-bump :
    (k j : String) (c : Counters) → count_at k (bump j c) ≡ count_at k c + (if j == k then 1 else 0)
unfolding bump
count_at-bump k j [] = ground arith
count_at-bump k j ((i, n) ∷ c) =
    ground (arith, count_at-bump k j c, eq_iff i j, eq_iff i k, eq_iff j k)

by_status-summarize :
    (k : String) (rows : List Task) (c : Summary)
    → count_at k (summarize c rows).by_status
      ≡ count_at k c.by_status + length (keep (λ t. t.status == k) rows)
unfolding summarize count_task
by_status-summarize k [] c = omega arith
by_status-summarize k (t ∷ rows) c =
    ground
      (arith, by_status-summarize k rows (count_task t c), count_at-bump k t.status c.by_status)

by_priority-summarize :
    (k : String) (rows : List Task) (c : Summary)
    → count_at k (summarize c rows).by_priority
      ≡ count_at k c.by_priority + length (keep (λ t. t.priority == k) rows)
unfolding summarize count_task
by_priority-summarize k [] c = omega arith
by_priority-summarize k (t ∷ rows) c =
    ground (
      arith,
      by_priority-summarize k rows (count_task t c),
      count_at-bump k t.priority c.by_priority,
    )

-- The counter of each status in a workspace's summary is the number of its tasks with that status,
-- and so for each priority; the counters of either kind add up to the number of its tasks; and
-- `blocking_open_tasks` is the number that the publish gate is given.
pub summary_counts :
    (ws status priority : String) (s : Review)
    → let c = get_review_queue_summary ws s in
      let tasks = keep (λ t. t.workspace_id == ws) s.tasks in
      (c.total_tasks ≡ length tasks)
      × (c.blocking_open_tasks ≡ unresolved_blocking_task_count ws s)
      × (count_at status c.by_status ≡ length (keep (λ t. t.status == status) tasks))
      × (count_at priority c.by_priority ≡ length (keep (λ t. t.priority == priority) tasks))
      × (total_of c.by_status ≡ c.total_tasks)
      × (total_of c.by_priority ≡ c.total_tasks)
unfolding get_review_queue_summary unresolved_blocking_task_count
summary_counts ws status priority s =
    let c = get_review_queue_summary ws (record s { tasks = [] }) in
    let tasks = keep (λ (t : Task). t.workspace_id == ws) s.tasks in
    let counted = summarize_lem ws s.tasks c 0 0 (ground arith) in
    (
      ground (arith, counted),
      ground (arith, counted),
      ground (arith, by_status-summarize status tasks c),
      ground (arith, by_priority-summarize priority tasks c),
      ground (arith, counted),
      ground (arith, counted),
    )
