-- ===== src/GoldPointer.antt =====
-- backend/shared_domain/gold_pointer.py: the pointer to the published gold build of a workspace, and
-- the history to roll back in. The state is what the workspace's two files `latest.json` and
-- `history.json` hold; a file that does not exist is `none`, an empty history. The files hold what
-- this module wrote: JSON reads back what it printed.
pub mod History
pub mod Undo
use schema_pilot.Base.{
  String, Bool, true, false, not, ◌&&◌, Option, none, some, List, [], ◌∷◌, ◌++◌, ◌==◌,
  if◌then◌else◌, is_empty, reverse, find,
}
use schema_pilot.Errors.{Error, value_error, Result, ok, err, Exec}

pub record Pointer : Type 0 where
  pub workspace_id : String
  pub build_id : String
  pub snapshot_id : String
  pub model_name : String

pub record Files : Type 0 where
  pub latest : Option Pointer
  pub history : List Pointer

pub record RolledBack : Type 0 where
  pub current : Pointer
  pub rolled_back_to : Pointer

-- `history[-1]`
unfoldable pub last? : List Pointer → Option Pointer
last? [] = none
last? (p ∷ []) = some p
last? (p ∷ q ∷ rest) = last? (q ∷ rest)

-- `history[-2]`
unfoldable pub second_last? : List Pointer → Option Pointer
second_last? [] = none
second_last? (p ∷ []) = none
second_last? (p ∷ q ∷ []) = some p
second_last? (p ∷ q ∷ r ∷ rest) = second_last? (q ∷ r ∷ rest)

-- `==` on the dictionaries
unfoldable pub same_pointer : Pointer → Pointer → Bool
same_pointer p q =
    p.workspace_id == q.workspace_id
    && p.build_id == q.build_id
    && p.snapshot_id == q.snapshot_id
    && p.model_name == q.model_name

unfoldable pub load_latest_gold_pointer : Files → Option Pointer
load_latest_gold_pointer files = files.latest

unfoldable pub publish_gold_pointer : String → String → String → String → Files → Pointer × Files
publish_gold_pointer workspace_id build_id snapshot_id model_name files =
    let pointer : Pointer = record {
      workspace_id = workspace_id;
      build_id = build_id;
      snapshot_id = snapshot_id;
      model_name = model_name;
    } in
    let listed : Bool = elim (last? files.history) [
      | none ↦ false
      | some p ↦ p.build_id == build_id
    ] in
    (
      pointer,
      record {
        latest = some pointer;
        history = if listed then files.history else files.history ++ pointer ∷ [];
      },
    )

-- the choice of the target, from the history and its last entry
unfoldable pub rollback_target : Option String → List Pointer → Pointer → Result Pointer
rollback_target none history current = elim (second_last? history) [
  | none ↦ ok current
  | some p ↦ ok p
]
rollback_target (some build_id) history current =
    if is_empty build_id
    then elim (second_last? history) [ none ↦ ok current | some p ↦ ok p ]
    else elim (find (λ p. p.build_id == build_id) (reverse history)) [
      | none ↦ err (value_error "Requested rollback target was not found in publish history.")
      | some p ↦ ok p
    ]

unfoldable pub rollback_to : Pointer → Pointer → Files → Files
rollback_to current target files = record {
  latest = some target;
  history = if same_pointer current target then files.history else files.history ++ target ∷ [];
}

unfoldable pub rollback_gold_pointer : Option String → Exec Files RolledBack
rollback_gold_pointer build_id files = elim (last? files.history) [
  | none ↦ (err (value_error "No gold publish history available for rollback."), files)
  | some current ↦ elim (rollback_target build_id files.history current) [
    | err e ↦ (err e, files)
    | ok target ↦ (
      ok (record { current = current; rolled_back_to = target }),
      rollback_to current target files,
    )
  ]
]
