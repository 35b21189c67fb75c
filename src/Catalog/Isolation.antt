-- ===== src/Catalog/Isolation.antt =====
-- What a workspace's calls leave alone, and what they can see.
use schema_pilot.Base.{
  String, Bool, true, false, none, some, List, [], ◌∷◌, ◌++◌, ◌≡◌, ◌⊎◌, refl, ap, ◌∙◌, ◌==◌, keep,
  get_row, put_row, get_row-append_none, key-get_row, arith, eq_iff, eq_refl, Option-cases,
  Bool-cases, inl, inr,
}
use schema_pilot.Base.Json.{Json, Fields}
use schema_pilot.Errors.{ok}
use schema_pilot.Catalog.{
  Workspace, CatalogSource, CatalogRun, Catalog, workspace_key, source_key, catalog_run_key,
  list_sources, patch_status, patch_scope, patch_name, patch_credentials, patched, update_source,
  new_run, create_run, get_run, list_run_steps,
}

keep-put_row :
    {A : Type 0} (key : A → String) (p : A → Bool) (r s : A) (rows : List A)
    → get_row key (key r) rows ≡ some s
    → p s ≡ false
    → p r ≡ false
    → keep p (put_row key r rows) ≡ keep p rows
keep-put_row key p r s [] found h g = refl
keep-put_row key p r s (t ∷ rows) found h g =
    ground (arith, keep-put_row key p r s rows, eq_iff (key t) (key r))

-- the columns that a patch cannot change
abbrev pub SameSource : CatalogSource → CatalogSource → Type 0
SameSource a b =
    (a.source_id ≡ b.source_id)
    × (a.workspace_id ≡ b.workspace_id)
    × (a.source_type ≡ b.source_type)

others_kept :
    (ws other source_id : String) (s r : CatalogSource) (c : Catalog)
    → get_row source_key source_id c.sources ≡ some s
    → (s.workspace_id == ws) ≡ true
    → (ws == other) ≡ false
    → SameSource r s
    → keep (λ (x : CatalogSource). x.workspace_id == other) (put_row source_key r c.sources)
      ≡ keep (λ (x : CatalogSource). x.workspace_id == other) c.sources
others_kept ws other source_id s r c found own differ same =
    let here : s.workspace_id ≡ ws = (eq_iff s.workspace_id ws).0 own in
    let id : s.source_id ≡ source_id = key-get_row source_key source_id s c.sources found in
    keep-put_row source_key (λ (x : CatalogSource). x.workspace_id == other) r s c.sources
      (ap (λ k. get_row source_key k c.sources) (same.0 ∙ id) ∙ found)
      (ap (λ w. w == other) here ∙ differ) (ap (λ w. w == other) (same.1 ∙ here) ∙ differ)

module _ (repr : Json → String) (patch : Fields) where
  patched-same : (s : CatalogSource) → SameSource (patched repr patch s) s
  unfolding patched patch_status patch_scope patch_name patch_credentials
  patched-same s = ground arith

  -- A workspace's update of a source changes nothing in the list of another workspace's sources, and
  -- the source that it answers keeps its identifier, its workspace and its type.
  pub update_source-isolated :
      (ws other source_id : String) (c : Catalog)
      → (ws == other) ≡ false
      → let r = update_source repr ws source_id patch c in
        (list_sources other r.1 ≡ list_sources other c)
        × ((r.0 ≡ none)
            ⊎ ((old : CatalogSource) × (new : CatalogSource) × (get_row source_key source_id
                    c.sources
                  ≡ some old)
                × (r.0 ≡ some new)
                × (old.workspace_id ≡ ws)
                × SameSource new old))
  unfolding update_source list_sources
  update_source-isolated ws other source_id c differ =
      elim (Option-cases (get_row source_key source_id c.sources)) [
        | inl missing ↦ rw (missing, update_source) (refl, inl refl)
        | inr (s, found) ↦
            let same = patched-same s in
            elim (Bool-cases (s.workspace_id == ws)) [
              | inr foreign ↦ rw (found, update_source, foreign) (refl, inl refl)
              | inl own ↦
                  rw (found, update_source, own)
                    (
                      others_kept ws other source_id s (patched repr patch s) c found own differ
                          same,
                      inr (
                        s,
                        patched repr patch s,
                        refl,
                        refl,
                        (eq_iff s.workspace_id ws).0 own,
                        same,
                      ),
                    )
            ]
      ]

create_run-found :
    (new_id ws run_type : String) (w : Workspace) (c : Catalog)
    → get_row workspace_key ws c.workspaces ≡ some w
    → create_run new_id ws run_type c ≡ (
      ok (new_run new_id ws run_type),
      record c { runs = c.runs ++ new_run new_id ws run_type ∷ [] },
    )
unfolding create_run
create_run-found new_id ws run_type w c found = rw (found, create_run) refl

get_run-own :
    (ws run_id : String) (c : Catalog) (run : CatalogRun)
    → get_row catalog_run_key run_id c.runs ≡ some run
    → run.workspace_id ≡ ws
    → get_run ws run_id c ≡ some (run, list_run_steps ws run_id c)
unfolding get_run
get_run-own ws run_id c run found own =
    rw (found, get_run) (rw (ap (λ w. w == ws) own ∙ eq_refl ws) refl)

get_run-foreign :
    (ws run_id : String) (c : Catalog) (run : CatalogRun)
    → get_row catalog_run_key run_id c.runs ≡ some run
    → (run.workspace_id == ws) ≡ false
    → get_run ws run_id c ≡ none
unfolding get_run
get_run-foreign ws run_id c run found foreign = rw (found, get_run, foreign) refl

-- A run that is created in a workspace that exists, under a new identifier, is then found by its own
-- workspace, queued and with the steps that the identifier has there, and by no other workspace.
pub get_run-create_run :
    (new_id ws other run_type : String) (w : Workspace) (c : Catalog)
    → get_row workspace_key ws c.workspaces ≡ some w
    → get_row catalog_run_key new_id c.runs ≡ none
    → (ws == other) ≡ false
    → let after = (create_run new_id ws run_type c).1 in
      let run = new_run new_id ws run_type in
      ((create_run new_id ws run_type c).0 ≡ ok run)
      × (get_run ws new_id after ≡ some (run, list_run_steps ws new_id c))
      × (get_run other new_id after ≡ none)
get_run-create_run new_id ws other run_type w c found fresh differ =
    let run = new_run new_id ws run_type in
    let after : Catalog = record c { runs = c.runs ++ run ∷ [] } in
    let there : get_row catalog_run_key new_id after.runs ≡ some run =
      get_row-append_none catalog_run_key new_id c.runs (run ∷ []) fresh
      ∙ rw (eq_refl new_id) refl in
    rw (create_run-found new_id ws run_type w c found) (
      refl,
      get_run-own ws new_id after run there refl ∙ (unfold list_run_steps in refl),
      get_run-foreign other new_id after run there differ,
    )
