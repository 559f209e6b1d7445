-- ===== src/Files/Manifest/Laws.antt =====
-- A file manifest is accepted exactly when its version is known and its paths are distinct.
use central_core.Prelude.{
  ◌≡◌, ◌≢◌, ◌↔◌, refl, false, List, [], ◌∷◌, arith, All, Text, text_eq_iff, contains,
  contains-insert_set, insert_set,
}
use central_core.Errors.{ok}
use central_core.Files.Manifest.{FileEntry, FileManifest, validate_paths, validate}

module _ {Url : Type 0} where
  abbrev pub HasDistinctPaths : List (FileEntry Url) → Type 0
  HasDistinctPaths [] = Unit
  HasDistinctPaths (file ∷ files) =
      All (λ other. file.path.value ≢ other.path.value) files × HasDistinctPaths files

  abbrev IsNew : List Text → FileEntry Url → Type 0
  IsNew paths file = contains file.path.value paths ≡ false

  -- Every path is new to a set with one more path, if it was new before and is not that path.
  IsNew-insert_set :
      (path : Text) (paths : List Text) (files : List (FileEntry Url))
      → All (IsNew (insert_set path paths)) files
        ↔ (All (λ file. path ≢ file.path.value) files × All (IsNew paths) files)
  IsNew-insert_set path paths [] = ground arith
  IsNew-insert_set path paths (file ∷ files) = ground (
    arith,
    IsNew-insert_set path paths files,
    contains-insert_set path file.path.value paths,
    text_eq_iff path file.path.value,
  )

  validate_paths_iff :
      (paths : List Text) (files : List (FileEntry Url))
      → (validate_paths paths files ≡ ok tt) ↔ (All (IsNew paths) files × HasDistinctPaths files)
  unfolding validate_paths
  validate_paths_iff paths [] = ground arith
  validate_paths_iff paths (file ∷ files) = ground (
    arith,
    validate_paths_iff (insert_set file.path.value paths) files,
    IsNew-insert_set file.path.value paths files,
  )

  IsNew-nil : (files : List (FileEntry Url)) → All (IsNew []) files
  unfolding contains
  IsNew-nil [] = tt
  IsNew-nil (file ∷ files) = (refl, IsNew-nil files)

  -- `FileManifest::validate` succeeds exactly when the format version is 1 and no two files of the
  -- manifest have the same path.
  pub validate_iff :
      (m : FileManifest Url)
      → (validate m ≡ ok tt) ↔ ((m.format_version ≡ 1) × HasDistinctPaths m.files)
  unfolding validate
  validate_iff m = ground (arith, validate_paths_iff [] m.files, IsNew-nil m.files)
