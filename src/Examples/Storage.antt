-- ===== src/Examples/Storage.antt =====
-- The theorems on retention and purges at concrete inputs.
use schema_pilot.Base.{◌*◌, String, ◌≡◌, ◌⊎◌, refl, true, false, some, [], ◌∷◌, get_row}
use schema_pilot.Base.Int.{pos}
use schema_pilot.Errors.{err, policy_denied}
use schema_pilot.Evidence.{Sealer}
use schema_pilot.Purge.{File, Storage, file_key, purge_workspace_artifacts, day}
use schema_pilot.Purge.Exact.{purge_exact, survivor}
use schema_pilot.Retention.Table.{RetentionPolicy}
use schema_pilot.Retention.{Db, PurgeEvidence, get_retention_policy, execute_retention_purge}
use schema_pilot.Retention.Guards.{purge_fails_closed, IsPurgeable}

abbrev old_file : File
old_file = record { path = "gold/ws/a.csv"; layer = "gold"; workspace_id = "ws"; mtime = 0 }

abbrev new_file : File
new_file = record { path = "gold/ws/b.csv"; layer = "gold"; workspace_id = "ws"; mtime = 90 * day }

abbrev storage : Storage
storage = record { root_exists = true; root_is_directory = true; files = old_file ∷ new_file ∷ [] }

purge_exact_example :
    ((k : String)
      → get_row file_key k
          (purge_workspace_artifacts (100 * day) "ws" (pos 30) false storage).1.files
        ≡ survivor (100 * day) 30 "ws" (get_row file_key k storage.files))
    × ((purge_workspace_artifacts (100 * day) "ws" (pos 30) true storage).1 ≡ storage)
purge_exact_example = purge_exact (100 * day) 29 "ws" storage (refl, (refl, tt)) refl refl

abbrev policy : RetentionPolicy
policy = record {
  retention_policy_id = "p1";
  workspace_id = "ws";
  retention_days = pos 30;
  enabled = true;
  purge_enabled = true;
  legal_hold_active = true;
  created_by = "carol";
  status = "active";
}

abbrev db : Db
db = record {
  workspaces = "ws" ∷ [];
  retention = policy ∷ [];
  purge_runs = [];
  evidence = [];
  storage = storage;
}

abbrev sealer : Sealer PurgeEvidence
sealer = record { content_hash = λ _. "c0ffee"; encrypt_payload = λ _. "sealed" }

purge_fails_closed_example :
    ((p : RetentionPolicy) × (get_retention_policy "ws" db ≡ some p)
      × (r : String) × (some "data" ≡ some r)
      × IsPurgeable p r)
    ⊎ ((reason : String) × (execute_retention_purge sealer
            (100 * day)
            "r1"
            "ws"
            "carol"
            (some "data")
            false
            db
          ≡ (err (policy_denied reason), db)))
purge_fails_closed_example =
    purge_fails_closed sealer (100 * day) "r1" "ws" "carol" (some "data") false db

abbrev released : RetentionPolicy
released = record policy { retention_days = pos 60; legal_hold_active = false; created_by = "dave" }
