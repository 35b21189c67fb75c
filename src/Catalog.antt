-- ===== src/Catalog.antt =====
-- backend/control_plane/repository.py: workspaces, sources, datasets, runs, run steps and audit
-- events. New identifiers are arguments. What a call answers is the row itself: the code returns its
-- columns under the same names. `J` is the type of a JSON column.
pub mod Isolation
use schema_pilot.Base.{
  ℕ, String, Bool, ◌&&◌, Option, none, some, List, [], ◌∷◌, ◌++◌, ◌==◌, if◌then◌else◌, keep,
  get_row, put_row, order_rows, ltb, eqb, text_leb, ◌||◌,
}
use schema_pilot.Base.Json.{Json, null, object, end, Fields, get, has_key, as_dict, str}
use schema_pilot.Errors.{not_found, Result, ok, err, Exec}
use schema_pilot.Runs.{RunStepRecord, is_first}

pub record Workspace : Type 0 where
  pub workspace_id : String
  pub name : String
  pub profile : String
  pub security_baseline : String

pub record CatalogSource : Type 0 where
  pub source_id : String
  pub workspace_id : String
  pub source_type : String
  pub scope_json : Fields
  pub credentials_ref : Option String
  pub status : String
  pub display_name : String

pub record CatalogDataset : Type 0 where
  pub dataset_id : String
  pub workspace_id : String
  pub source_id : String
  pub logical_name : String
  pub physical_locator : String
  pub schema_version : ℕ
  pub sensitivity_summary_json : Json

pub record CatalogRun : Type 0 where
  pub run_id : String
  pub workspace_id : String
  pub run_type : String
  pub status : String
  pub input_refs_json : Fields
  pub output_refs_json : Fields

pub record AuditEvent : Type 0 where
  pub audit_event_id : String
  pub workspace_id : Option String
  pub actor_id : String
  pub event_type : String
  pub event_json : Fields
  pub correlation_id : String

pub record Catalog : Type 0 where
  pub workspaces : List Workspace
  pub sources : List CatalogSource
  pub datasets : List CatalogDataset
  pub runs : List CatalogRun
  pub run_steps : List (RunStepRecord Fields)
  pub audit_events : List AuditEvent

abbrev pub workspace_key : Workspace → String
workspace_key w = w.workspace_id

abbrev pub source_key : CatalogSource → String
source_key s = s.source_id

abbrev pub dataset_key : CatalogDataset → String
dataset_key d = d.dataset_id

abbrev pub catalog_run_key : CatalogRun → String
catalog_run_key r = r.run_id

unfoldable pub create_workspace : String → String → String → String → Catalog → Workspace × Catalog
create_workspace new_id name profile security_baseline c =
    let w : Workspace = record {
      workspace_id = new_id;
      name = name;
      profile = profile;
      security_baseline = security_baseline;
    } in
    (w, record c { workspaces = c.workspaces ++ w ∷ [] })

unfoldable pub list_workspaces : Catalog → List Workspace
list_workspaces c = c.workspaces

unfoldable pub get_workspace : String → Catalog → Option Workspace
get_workspace workspace_id c = get_row workspace_key workspace_id c.workspaces

unfoldable pub create_source :
    String → String → String → Fields → String → Option String → Exec Catalog CatalogSource
create_source new_id workspace_id source_type scope display_name credentials_ref c =
    elim (get_row workspace_key workspace_id c.workspaces) [
      | none ↦ (err (not_found "Workspace not found."), c)
      | some w ↦
          let source : CatalogSource = record {
            source_id = new_id;
            workspace_id = workspace_id;
            source_type = source_type;
            scope_json = scope;
            credentials_ref = credentials_ref;
            status = "active";
            display_name = display_name;
          } in
          (ok source, record c { sources = c.sources ++ source ∷ [] })
    ]

unfoldable pub list_sources : String → Catalog → List CatalogSource
list_sources workspace_id c = keep (λ (s : CatalogSource). s.workspace_id == workspace_id) c.sources

-- the fields of a patch that are allowed; `repr` is Python's text of a list or a dictionary
module _ (repr : Json → String) where
  unfoldable pub patch_status : Fields → CatalogSource → CatalogSource
  patch_status patch s =
      if has_key "status" patch then record s { status = str repr (get "status" null patch) } else s

  unfoldable pub patch_scope : Fields → CatalogSource → CatalogSource
  patch_scope patch s = elim (as_dict (get "scope" null patch)) [
    | none ↦ s
    | some scope ↦ record s { scope_json = scope }
  ]

  unfoldable pub patch_name : Fields → CatalogSource → CatalogSource
  patch_name patch s =
      if has_key "display_name" patch
      then record s { display_name = str repr (get "display_name" null patch) }
      else s

  -- `None` takes the reference away
  unfoldable pub credentials_text : Json → Option String
  credentials_text value = elim value [ null ↦ none | v ↦ some (str repr v) ]

  unfoldable pub patch_credentials : Fields → CatalogSource → CatalogSource
  unfolding credentials_text
  patch_credentials patch s =
      if has_key "credentials_ref" patch
      then record s { credentials_ref = credentials_text (get "credentials_ref" null patch) }
      else s

  unfoldable pub patched : Fields → CatalogSource → CatalogSource
  unfolding patch_status patch_scope patch_name patch_credentials
  patched patch s =
      patch_credentials patch (patch_name patch (patch_scope patch (patch_status patch s)))

  unfoldable pub update_source : String → String → Fields → Catalog → Option CatalogSource × Catalog
  update_source workspace_id source_id patch c = elim (get_row source_key source_id c.sources) [
    | none ↦ (none, c)
    | some s ↦
        if s.workspace_id == workspace_id
        then (
          some (patched patch s),
          record c { sources = put_row source_key (patched patch s) c.sources },
        )
        else (none, c)
  ]

unfoldable pub list_datasets : String → Catalog → List CatalogDataset
list_datasets workspace_id c =
    order_rows dataset_key
      (keep (λ (d : CatalogDataset). d.workspace_id == workspace_id) c.datasets)

unfoldable pub get_dataset : String → String → Catalog → Option CatalogDataset
get_dataset workspace_id dataset_id c = elim (get_row dataset_key dataset_id c.datasets) [
  | none ↦ none
  | some d ↦ if d.workspace_id == workspace_id then some d else none
]

-- the row of a new run
abbrev pub new_run : String → String → String → CatalogRun
new_run new_id workspace_id run_type = record {
  run_id = new_id;
  workspace_id = workspace_id;
  run_type = run_type;
  status = "queued";
  input_refs_json = end;
  output_refs_json = end;
}

unfoldable pub create_run : String → String → String → Exec Catalog CatalogRun
create_run new_id workspace_id run_type c = elim (get_row workspace_key workspace_id c.workspaces) [
  | none ↦ (err (not_found "Workspace not found."), c)
  | some w ↦
      let run = new_run new_id workspace_id run_type in
      (ok run, record c { runs = c.runs ++ run ∷ [] })
]

-- `order_by(step_order, run_step_id)`
unfoldable pub insert_step :
    RunStepRecord Fields → List (RunStepRecord Fields) → List (RunStepRecord Fields)
insert_step a [] = a ∷ []
insert_step a (b ∷ rest) = if is_first a b then a ∷ b ∷ rest else b ∷ insert_step a rest

unfoldable pub order_steps : List (RunStepRecord Fields) → List (RunStepRecord Fields)
unfolding insert_step
order_steps [] = []
order_steps (a ∷ rest) = insert_step a (order_steps rest)

unfoldable pub list_run_steps : String → String → Catalog → List (RunStepRecord Fields)
list_run_steps workspace_id run_id c = order_steps (
    keep (λ (r : RunStepRecord Fields). r.workspace_id == workspace_id && r.run_id == run_id)
      c.run_steps)

-- the run and its steps
unfoldable pub get_run :
    String → String → Catalog → Option (CatalogRun × List (RunStepRecord Fields))
get_run workspace_id run_id c = elim (get_row catalog_run_key run_id c.runs) [
  | none ↦ none
  | some run ↦
      if run.workspace_id == workspace_id
      then some (run, list_run_steps workspace_id run_id c)
      else none
]

unfoldable pub append_audit_event :
    String → Option String → String → String → Fields → String → Catalog → AuditEvent × Catalog
append_audit_event new_id workspace_id actor_id event_type event_json correlation_id c =
    let event : AuditEvent = record {
      audit_event_id = new_id;
      workspace_id = workspace_id;
      actor_id = actor_id;
      event_type = event_type;
      event_json = event_json;
      correlation_id = correlation_id;
    } in
    (event, record c { audit_events = c.audit_events ++ event ∷ [] })
