-- ===== src/Purge/Exact.antt =====
-- What a purge removes.
use mathlib.Core.Path.{subst}
use schema_pilot.Base.{
  ℕ, suc, String, ◌≡◌, ◌∙◌, refl, sym, ap, Bool, true, false, not, ◌&&◌, ◌||◌, Option, none, some,
  List, [], ◌∷◌, ◌++◌, ◌==◌, if◌then◌else◌, keep, contains, arith, eq_iff, get_row, IsKeyed,
  Bool-cases, inl, inr, Option-cases, key-get_row,
}
use schema_pilot.Base.Int.{pos, leb_ℤ}
use schema_pilot.Purge.{
  File, Storage, file_key, is_under, is_expired, scanned_files, paths, purge_workspace_artifacts,
}

-- A file of the workspace in one of the four layers.
abbrev is_candidate : String → File → Bool
is_candidate ws f =
    is_under "bronze" ws f
    || (is_under "silver" ws f || (is_under "gold" ws f || is_under "documents" ws f))

-- The files that a purge is meant to remove.
abbrev is_doomed : ℕ → ℕ → String → File → Bool
is_doomed now days ws f = is_candidate ws f && is_expired now days f

module _ (now days : ℕ) (ws : String) where
  contains-append :
      (k : String) (a b : List File)
      → contains k (paths (a ++ b)) ≡ (contains k (paths a) || contains k (paths b))
  contains-append k [] b = refl
  contains-append k (f ∷ a) b = ground (arith, contains-append k a b)

  keep-append : (p : File → Bool) (a b : List File) → keep p (a ++ b) ≡ keep p a ++ keep p b
  keep-append p [] b = refl
  keep-append p (f ∷ a) b = ground (arith, keep-append p a b)

  absent :
      (p : File → Bool) (k : String) (files : List File)
      → get_row file_key k files ≡ none
      → contains k (paths (keep (is_expired now days) (keep p files))) ≡ false
  absent p k [] h = refl
  absent p k (g ∷ files) h = ground (arith, absent p k files)

  -- a path is among the kept ones if its file passes both tests
  contains-keep :
      (p : File → Bool) (f : File) (files : List File)
      → IsKeyed file_key files
      → get_row file_key f.path files ≡ some f
      → contains f.path (paths (keep (is_expired now days) (keep p files)))
        ≡ (p f && is_expired now days f)
  contains-keep p f [] keyed h = cc
  contains-keep p f (g ∷ files) keyed h = elim (Bool-cases (g.path == f.path)) [
    | inl e ↦ ground (arith, e, h, keyed.0, absent p f.path files)
    | inr e ↦ ground (arith, e, h, contains-keep p f files keyed.1)
  ]

  doomed_paths : List File → List String
  doomed_paths files = paths (keep (is_expired now days) (scanned_files ws files))

  contains-doomed :
      (f : File) (files : List File)
      → IsKeyed file_key files
      → get_row file_key f.path files ≡ some f
      → contains f.path (doomed_paths files) ≡ is_doomed now days ws f
  unfolding doomed_paths scanned_files
  contains-doomed f files keyed h =
      let b = keep (is_under "bronze" ws) files in
      let s = keep (is_under "silver" ws) files in
      let g = keep (is_under "gold" ws) files in
      let d = keep (is_under "documents" ws) files in
      let old = is_expired now days in
      rw (keep-append old b (s ++ (g ++ d)), keep-append old s (g ++ d), keep-append old g d)
        (rw
          (
            contains-append f.path (keep old b) (keep old s ++ (keep old g ++ keep old d)),
            contains-append f.path (keep old s) (keep old g ++ keep old d),
            contains-append f.path (keep old g) (keep old d),
            contains-keep (is_under "bronze" ws) f files keyed h,
            contains-keep (is_under "silver" ws) f files keyed h,
            contains-keep (is_under "gold" ws) f files keyed h,
            contains-keep (is_under "documents" ws) f files keyed h,
          )
          (spread (is_under "bronze" ws f) (is_under "silver" ws f) (is_under "gold" ws f)
            (is_under "documents" ws f) (old f)))
    where
      spread :
          (b s g d e : Bool)
          → (b && e) || ((s && e) || ((g && e) || (d && e))) ≡ (b || (s || (g || d))) && e
      spread b s g d e = ground arith

get_row-keep :
    (gone : String → Bool) (k : String) (files : List File)
    → get_row file_key k (keep (λ f. not (gone f.path)) files)
      ≡ (if gone k then none else get_row file_key k files)
get_row-keep gone k [] = ground arith
get_row-keep gone k (f ∷ files) = ground (arith, get_row-keep gone k files, eq_iff f.path k)

-- What is at a path once a purge has run.
abbrev pub survivor : ℕ → ℕ → String → Option File → Option File
survivor now days ws none = none
survivor now days ws (some f) = if is_doomed now days ws f then none else some f

files_after :
    (now days : ℕ) (ws : String) (s : Storage)
    → s.root_exists ≡ true
    → s.root_is_directory ≡ true
    → (purge_workspace_artifacts now ws (pos (suc days)) false s).1.files
      ≡ keep (λ f. not (contains f.path (doomed_paths now (suc days) ws s.files))) s.files
unfolding purge_workspace_artifacts doomed_paths
files_after now days ws s exists directory =
    let positive : leb_ℤ (pos (suc days)) (pos 0) ≡ false = ground arith in
    ground (arith, positive, exists, directory)

at_path :
    (now days : ℕ) (ws k : String) (files : List File)
    → IsKeyed file_key files
    → (if contains k (doomed_paths now days ws files) then none else get_row file_key k files)
      ≡ survivor now days ws (get_row file_key k files)
at_path now days ws k files keyed = elim (Option-cases (get_row file_key k files)) [
  | inl e ↦ ground (arith, e)
  | inr (f, e) ↦
      let here : f.path ≡ k = key-get_row file_key k f files e in
      let there =
        contains-doomed now days ws f files keyed
          (subst (λ p. get_row file_key p files ≡ some f) (sym here) e) in
      ground (
        arith,
        e,
        subst (λ p. contains p (doomed_paths now days ws files) ≡ is_doomed now days ws f) here
            there,
      )
]

-- A purge that is no dry run removes, at every path, exactly the file that belongs to the workspace,
-- lies in one of the four layers and is at least as old as the retention period; any other file, of
-- this workspace or another, stays as it is. A dry run removes nothing.
pub purge_exact :
    (now days : ℕ) (ws : String) (s : Storage)
    → IsKeyed file_key s.files
    → s.root_exists ≡ true
    → s.root_is_directory ≡ true
    → ((k : String)
        → get_row file_key k (purge_workspace_artifacts now ws (pos (suc days)) false s).1.files
          ≡ survivor now (suc days) ws (get_row file_key k s.files))
      × ((purge_workspace_artifacts now ws (pos (suc days)) true s).1 ≡ s)
unfolding purge_workspace_artifacts
purge_exact now days ws s keyed exists directory = (
  λ k.
      ap (get_row file_key k) (files_after now days ws s exists directory)
      ∙ get_row-keep (λ p. contains p (doomed_paths now (suc days) ws s.files)) k s.files
      ∙ at_path now (suc days) ws k s.files keyed,
  ground arith,
)
