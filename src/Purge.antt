-- ===== src/Purge.antt =====
-- backend/shared_domain/purge.py: removing the files of a workspace that are older than the
-- retention period. A file is its path below the purge root, with the path's first two parts; times
-- are in microseconds. Directories are not modelled.
pub mod Exact
use schema_pilot.Base.{
  ℕ, ◌+◌, ◌*◌, String, ◌≡◌, Bool, true, false, not, ◌&&◌, ◌||◌, List, [], ◌∷◌, ◌++◌, ◌==◌,
  if◌then◌else◌, leb, ltb, length, keep, map, contains, sort_texts,
}
use schema_pilot.Base.Int.{ℤ, pos, pos_part, leb_ℤ}
use schema_pilot.Errors.{Error, Result, ok, err, value_error, Exec}

pub record File : Type 0 where
  pub path : String
  pub layer : String
  pub workspace_id : String
  pub mtime : ℕ

pub record Storage : Type 0 where
  pub root_exists : Bool
  pub root_is_directory : Bool
  pub files : List File

pub record PurgeExecution : Type 0 where
  pub scanned_count : ℕ
  pub deleted_count : ℕ
  pub deleted_paths : List String
  pub dry_run : Bool

abbrev pub file_key : File → String
file_key f = f.path

abbrev pub day : ℕ
day = 86400 * 1000000

-- the files below `base / layer / workspace_id`
abbrev pub is_under : String → String → File → Bool
is_under layer workspace_id f = f.layer == layer && f.workspace_id == workspace_id

-- `st_mtime <= now - retention_days * 86400`
abbrev pub is_expired : ℕ → ℕ → File → Bool
is_expired now retention_days f = leb (f.mtime + retention_days * day) now

-- the four candidate roots, one after the other
unfoldable pub scanned_files : String → List File → List File
scanned_files workspace_id files =
    keep (is_under "bronze" workspace_id) files
    ++ (keep (is_under "silver" workspace_id) files
        ++ (keep (is_under "gold" workspace_id) files
            ++ keep (is_under "documents" workspace_id) files))

abbrev pub paths : List File → List String
paths = map file_key

unfoldable pub purge_workspace_artifacts : ℕ → String → ℤ → Bool → Exec Storage PurgeExecution
unfolding scanned_files
purge_workspace_artifacts now workspace_id retention_days dry_run s =
    if leb_ℤ retention_days (pos 0)
    then (err (value_error "retention_days_must_be_positive"), s)
    else if not s.root_exists
    then (err (value_error "purge_root_missing"), s)
    else if not s.root_is_directory
    then (err (value_error "purge_root_not_directory"), s)
    else let scanned = scanned_files workspace_id s.files in
      let to_delete = keep (is_expired now (pos_part retention_days)) scanned in
      let deleted_paths = sort_texts (paths to_delete) in
      let execution : PurgeExecution = record {
        scanned_count = length scanned;
        deleted_count = length deleted_paths;
        deleted_paths = deleted_paths;
        dry_run = dry_run;
      } in
      (
        ok execution,
        if dry_run
            then s
            else record s { files = keep (λ f. not (contains f.path (paths to_delete))) s.files },
      )
