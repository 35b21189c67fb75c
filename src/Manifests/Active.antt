-- ===== src/Manifests/Active.antt =====
-- Which manifest is in force once the active row is written.
use schema_pilot.Base.{
  ◌+◌, String, ◌≡◌, refl, ap, ◌∙◌, inl, inr, some, List, Bool, true, if◌then◌else◌, strip, is_empty,
  IsKeyed, get_row, put_row, get_row_of_find, find-put_row_self, Bool-cases,
}
use schema_pilot.Base.Json.{Json, object}
use schema_pilot.Errors.{ok}
use schema_pilot.Policies.{policy_key, is_active}
use schema_pilot.Semantic.{Manifest, manifest_json, validate_semantic_manifest}
use schema_pilot.Manifests.{
  ManifestState, active_manifest, ManifestRow, ManifestDb, Effective, find_manifest_row, denied,
  text_or_none, validated_manifest, next_manifest_state, effective_of,
  get_effective_semantic_manifest, load_state,
}

-- the row of the workspace's manifest, and the state in it
abbrev pub Holds : String → List ManifestRow → ManifestRow → ManifestState → Type 0
Holds workspace_id rows row state =
    (find_manifest_row workspace_id rows ≡ some row) × (row.definition_ref ≡ active_manifest state)

pub Holds-put :
    (ws : String) (rows : List ManifestRow) (row r : ManifestRow) (state : ManifestState)
    → IsKeyed policy_key rows
    → find_manifest_row ws rows ≡ some row
    → r.policy_id ≡ row.policy_id
    → is_active ws "semantic_manifest" r ≡ true
    → r.definition_ref ≡ active_manifest state
    → Holds ws (put_row policy_key r rows) r state
Holds-put ws rows row r state keyed found same active holds =
    let p : ManifestRow → Bool = is_active ws "semantic_manifest" in
    (
      find-put_row_self policy_key p r row rows
          (ap (λ k. get_row policy_key k rows) same
            ∙ get_row_of_find policy_key p row rows keyed found)
          found active,
      holds,
    )

-- a text that stands for a manifest of the workspace
abbrev pub IsStored : (Json → String) → String → Json → Manifest → Type 0
IsStored repr ws value m =
    (value ≡ object (manifest_json m))
    × (validate_semantic_manifest repr (manifest_json m) ws ≡ ok m)

module _ (repr : Json → String) (checksum : Manifest → String)
    (checksum-strip : (m : Manifest) → strip (checksum m) ≡ checksum m) (ws : String) where
  pub validated_manifest-stored :
      (m : Manifest)
      → validate_semantic_manifest repr (manifest_json m) ws ≡ ok m
      → validated_manifest repr checksum (manifest_json m) ws ≡ ok m
  unfolding validated_manifest denied
  validated_manifest-stored m h = rw h refl

  checksum_kept :
      (m : Manifest)
      → (if is_empty (strip (checksum m)) then checksum m else strip (checksum m)) ≡ checksum m
  checksum_kept m = elim (Bool-cases (is_empty (strip (checksum m)))) [
    | inl empty ↦ rw empty refl
    | inr filled ↦ rw filled (checksum-strip m)
  ]

  -- the answer once a manifest was put in force over a state
  abbrev pub in_force : Manifest → ManifestState → Effective
  in_force m before = record {
    manifest = m;
    manifest_checksum = checksum m;
    version = before.version + 1;
    previous_manifest_checksum = text_or_none before.manifest_checksum;
  }

  effective_of-next :
      (m : Manifest) (before : ManifestState)
      → validate_semantic_manifest repr (manifest_json m) ws ≡ ok m
      → effective_of repr checksum ws (next_manifest_state repr checksum m before)
        ≡ ok (some (in_force m before))
  unfolding effective_of next_manifest_state
  effective_of-next m before valid = rw (validated_manifest-stored m valid) (
      ap
        (λ (c : String). ok (
          some (record {
            manifest = m;
            manifest_checksum = c;
            version = before.version + 1;
            previous_manifest_checksum = text_or_none before.manifest_checksum;
          })))
        (checksum_kept m))

  effective_found :
      (db : ManifestDb) (row : ManifestRow)
      → find_manifest_row ws db.policies ≡ some row
      → get_effective_semantic_manifest repr checksum ws db
        ≡ effective_of repr checksum ws (load_state row.definition_ref)
  unfolding get_effective_semantic_manifest
  effective_found db row found = rw (found, get_effective_semantic_manifest) refl

  pub effective_next :
      (db : ManifestDb) (row : ManifestRow) (m : Manifest) (before : ManifestState)
      → Holds ws db.policies row (next_manifest_state repr checksum m before)
      → validate_semantic_manifest repr (manifest_json m) ws ≡ ok m
      → get_effective_semantic_manifest repr checksum ws db ≡ ok (some (in_force m before))
  effective_next db row m before holds valid =
      effective_found db row holds.0
      ∙ ap (λ d. effective_of repr checksum ws (load_state d)) holds.1
      ∙ effective_of-next m before valid
