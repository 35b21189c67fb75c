-- ===== src/Manifests/Undo.antt =====
-- Rolling a manifest back.
use schema_pilot.Base.{
  String, ◌≡◌, refl, ap, ◌∙◌, some, strip, IsKeyed, IsKeyed-put_row, put_row, find_passes,
}
use schema_pilot.Base.Json.{Json, as_dict}
use schema_pilot.Errors.{ok}
use schema_pilot.Policies.{policy_key, is_active}
use schema_pilot.Semantic.{Manifest}
use schema_pilot.Manifests.{
  ManifestState, active_manifest, ManifestRow, ManifestDb, find_manifest_row, next_manifest_state,
  rollback_manifest_row, load_state, rollback_semantic_manifest, get_effective_semantic_manifest,
}
use schema_pilot.Manifests.Active.{
  Holds, Holds-put, IsStored, validated_manifest-stored, in_force, effective_next,
}

module _ (repr : Json → String) (checksum : Manifest → String)
    (checksum-strip : (m : Manifest) → strip (checksum m) ≡ checksum m) (ws : String) where
  rolled_back : ManifestRow → ManifestState → ManifestDb → ManifestDb
  rolled_back row state db = record db {
    policies =
        put_row policy_key (record row { definition_ref = active_manifest state }) db.policies;
  }

  rollback_manifest_row-eq :
      (db : ManifestDb) (row : ManifestRow) (s : ManifestState) (p : Manifest)
      → IsStored repr ws s.previous_manifest p
      → rollback_manifest_row repr checksum ws row s db ≡ (
        ok (next_manifest_state repr checksum p s),
        rolled_back row (next_manifest_state repr checksum p s) db,
      )
  unfolding rollback_manifest_row rolled_back
  rollback_manifest_row-eq db row s p stored =
      rw
        (
          ap as_dict stored.0,
          rollback_manifest_row,
          validated_manifest-stored repr checksum checksum-strip ws p stored.1,
        )
        refl

  rollback_found :
      (db : ManifestDb) (row : ManifestRow)
      → find_manifest_row ws db.policies ≡ some row
      → rollback_semantic_manifest repr checksum ws db
        ≡ rollback_manifest_row repr checksum ws row (load_state row.definition_ref) db
  unfolding rollback_semantic_manifest
  rollback_found db row found = rw (found, rollback_semantic_manifest) refl

  rollback-eq :
      (db : ManifestDb) (row : ManifestRow) (s : ManifestState) (p : Manifest)
      → Holds ws db.policies row s
      → IsStored repr ws s.previous_manifest p
      → rollback_semantic_manifest repr checksum ws db ≡ (
        ok (next_manifest_state repr checksum p s),
        rolled_back row (next_manifest_state repr checksum p s) db,
      )
  rollback-eq db row s p holds stored =
      rollback_found db row holds.0
      ∙ ap (λ d. rollback_manifest_row repr checksum ws row (load_state d) db) holds.1
      ∙ rollback_manifest_row-eq db row s p stored

  -- the row behind a rollback
  rolled_back-Holds :
      (db : ManifestDb) (row : ManifestRow) (s : ManifestState) (state : ManifestState)
      → IsKeyed policy_key db.policies
      → Holds ws db.policies row s
      → Holds ws
          (rolled_back row state db).policies
          (record row { definition_ref = active_manifest state })
          state
  unfolding rolled_back
  rolled_back-Holds db row s state keyed holds =
      Holds-put ws db.policies row (record row { definition_ref = active_manifest state }) state
        keyed holds.0 refl (find_passes (is_active ws "semantic_manifest") row db.policies holds.0)
        refl

  -- Where the manifest in force and the one before it validate for the workspace, a rollback puts the
  -- one before in force, with the next version; the manifest that was in force is then the one
  -- before, so a second rollback puts it in force again, two versions on. The policies have a primary key.
  pub rollback-rollback :
      (db : ManifestDb) (row : ManifestRow) (s : ManifestState) (m p : Manifest)
      → IsKeyed policy_key db.policies
      → Holds ws db.policies row s
      → IsStored repr ws s.manifest m
      → IsStored repr ws s.previous_manifest p
      → let once = rollback_semantic_manifest repr checksum ws db in
        let twice = rollback_semantic_manifest repr checksum ws once.1 in
        (once.0 ≡ ok (next_manifest_state repr checksum p s))
        × (get_effective_semantic_manifest repr checksum ws once.1
            ≡ ok (some (in_force repr checksum checksum-strip ws p s)))
        × (get_effective_semantic_manifest repr checksum ws twice.1
            ≡ ok (
                some (
                  in_force repr checksum checksum-strip ws m
                    (next_manifest_state repr checksum p s))))
  rollback-rollback db row s m p keyed holds current previous =
      let one = next_manifest_state repr checksum p s in
      let two = next_manifest_state repr checksum m one in
      let row1 : ManifestRow = record row { definition_ref = active_manifest one } in
      let row2 : ManifestRow = record row1 { definition_ref = active_manifest two } in
      let db1 = rolled_back row one db in
      let db2 = rolled_back row1 two db1 in
      let first = rollback-eq db row s p holds previous in
      let holds1 = rolled_back-Holds db row s one keyed holds in
      let keyed1 : IsKeyed policy_key db1.policies =
        unfold rolled_back in IsKeyed-put_row policy_key row1 db.policies keyed in
      let second = rollback-eq db1 row1 one m holds1 (unfold next_manifest_state in current) in
      let holds2 = rolled_back-Holds db1 row1 one two keyed1 holds1 in
      rw first (
        refl,
        effective_next repr checksum checksum-strip ws db1 row1 p s holds1 previous.1,
        ap (λ e. get_effective_semantic_manifest repr checksum ws e.1) second
            ∙ effective_next repr checksum checksum-strip ws db2 row2 m one holds2 current.1,
      )
