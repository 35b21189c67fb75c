-- ===== src/Review.antt =====
-- backend/control_plane/review_repository.py: proposals, review tasks and decisions on them.
pub mod Counts
pub mod Queue
use schema_pilot.Base.{
  ℕ, suc, String, Bool, true, false, ◌&&◌, ◌||◌, Option, none, some, List, [], ◌∷◌, ◌++◌, ◌==◌,
  if◌then◌else◌, length, keep, get_row, put_row, Option-cases,
}

-- `confidence` is in ten-thousandths: the code rounds to four digits.
pub record Proposal : Type 0 where
  pub proposal_id : String
  pub workspace_id : String
  pub proposal_type : String
  pub evidence_bundle_uri : String
  pub confidence : ℕ
  pub status : String

pub record Task : Type 0 where
  pub task_id : String
  pub workspace_id : String
  pub priority : String
  pub subject_ref : String
  pub status : String
  pub blocking : Bool

pub record Approval : Type 0 where
  pub approval_id : String
  pub task_id : String
  pub actor_id : String
  pub decision : String
  pub decision_reason : String
  pub applied_changes_ref : String
  pub audit_event_id : String

-- The three tables of the review queue.
pub record Review : Type 0 where
  pub proposals : List Proposal
  pub tasks : List Task
  pub approvals : List Approval

abbrev pub no_review : Review
no_review = record { proposals = []; tasks = []; approvals = [] }

abbrev pub task_key : Task → String
task_key t = t.task_id

abbrev pub proposal_key : Proposal → String
proposal_key p = p.proposal_id

-- The identifiers of `new_ulid` are arguments.
unfoldable pub create_proposal : String → String → String → String → ℕ → Review → Proposal × Review
create_proposal new_id workspace_id proposal_type evidence_bundle_uri confidence s =
    let proposal : Proposal = record {
      proposal_id = new_id;
      workspace_id = workspace_id;
      proposal_type = proposal_type;
      evidence_bundle_uri = evidence_bundle_uri;
      confidence = confidence;
      status = "open";
    } in
    (proposal, record s { proposals = s.proposals ++ proposal ∷ [] })

unfoldable pub create_review_task :
    String → String → String → String → Bool → Review → Task × Review
create_review_task new_id workspace_id subject_ref priority blocking s =
    let task : Task = record {
      task_id = new_id;
      workspace_id = workspace_id;
      priority = priority;
      subject_ref = subject_ref;
      status = "open";
      blocking = blocking;
    } in
    (task, record s { tasks = s.tasks ++ task ∷ [] })

-- `status_map.get(decision, "deferred")`
unfoldable pub decided_status : String → String
decided_status decision =
    if decision == "approve"
    then "approved"
    else if decision == "reject"
    then "rejected"
    else "deferred"

decide_found : Task → String → String → String → String → String → Review → Option Approval × Review
unfolding decided_status
decide_found task approval_id audit_event_id actor_id decision reason s =
    let approval : Approval = record {
      approval_id = approval_id;
      task_id = task.task_id;
      actor_id = actor_id;
      decision = decision;
      decision_reason = reason;
      applied_changes_ref = "review_queue";
      audit_event_id = audit_event_id;
    } in
    (
      some approval,
      record s {
        tasks = put_row task_key (record task { status = decided_status decision }) s.tasks;
        approvals = s.approvals ++ approval ∷ [];
      },
    )

-- `approval_id` and `audit_event_id` are the two new identifiers.
unfoldable pub decide_review_task :
    String → String → String → String → String → String → String → Review → Option Approval × Review
unfolding decide_found
decide_review_task approval_id audit_event_id workspace_id task_id actor_id decision reason s =
    elim (get_row task_key task_id s.tasks) [
      | none ↦ (none, s)
      | some task ↦
          if task.workspace_id == workspace_id
          then decide_found task approval_id audit_event_id actor_id decision reason s
          else (none, s)
    ]

-- `status in {"open", "in_review"}`
abbrev pub is_unresolved : Task → Bool
is_unresolved t = t.status == "open" || t.status == "in_review"

abbrev pub is_blocking_in : String → Task → Bool
is_blocking_in workspace_id t = t.workspace_id == workspace_id && (t.blocking && is_unresolved t)

unfoldable pub unresolved_blocking_task_count : String → Review → ℕ
unresolved_blocking_task_count workspace_id s = length (keep (is_blocking_in workspace_id) s.tasks)

-- A task with the columns of its proposal, which are `None` where there is no such proposal.
pub record TaskView : Type 0 where
  pub task : Task
  pub evidence_bundle_uri : Option String
  pub confidence : Option ℕ
  pub proposal_type : Option String

abbrev view_of : Task → Option Proposal → TaskView
view_of t none = record {
  task = t;
  evidence_bundle_uri = none;
  confidence = none;
  proposal_type = none;
}
view_of t (some p) = record {
  task = t;
  evidence_bundle_uri = some p.evidence_bundle_uri;
  confidence = some p.confidence;
  proposal_type = some p.proposal_type;
}

abbrev view_tasks : Review → List Task → List TaskView
view_tasks s [] = []
view_tasks s (t ∷ rows) =
    view_of t (get_row proposal_key t.subject_ref s.proposals) ∷ view_tasks s rows

unfoldable pub list_review_tasks : String → Review → List TaskView
list_review_tasks workspace_id s = view_tasks s (keep (λ t. t.workspace_id == workspace_id) s.tasks)

-- `counts[k] = counts.get(k, 0) + 1`
abbrev pub Counters : Type 0
Counters = List (String × ℕ)

pub bump : String → Counters → Counters
bump k [] = (k, 1) ∷ []
bump k ((j, n) ∷ c) = if j == k then (j, suc n) ∷ c else (j, n) ∷ bump k c

pub record Summary : Type 0 where
  pub workspace_id : String
  pub total_tasks : ℕ
  pub blocking_open_tasks : ℕ
  pub by_status : Counters
  pub by_priority : Counters

-- One round of the loop over the rows.
pub count_task : Task → Summary → Summary
count_task t c = record c {
  total_tasks = suc c.total_tasks;
  blocking_open_tasks =
      if t.blocking && is_unresolved t then suc c.blocking_open_tasks else c.blocking_open_tasks;
  by_status = bump t.status c.by_status;
  by_priority = bump t.priority c.by_priority;
}

pub summarize : Summary → List Task → Summary
unfolding count_task
summarize c [] = c
summarize c (t ∷ rows) = summarize (count_task t c) rows

unfoldable pub get_review_queue_summary : String → Review → Summary
unfolding summarize bump
get_review_queue_summary workspace_id s =
    summarize
      (record {
        workspace_id = workspace_id;
        total_tasks = 0;
        blocking_open_tasks = 0;
        by_status = [];
        by_priority = [];
      })
      (keep (λ t. t.workspace_id == workspace_id) s.tasks)
