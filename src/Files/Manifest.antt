-- ===== src/Files/Manifest.antt =====
-- crates/centralcore/src/files/mod.rs, `FileEntry` and `FileManifest`. `Url` is the type of the
-- crate `url`, whose values are only carried along.
pub mod Laws
use central_core.Prelude.{
  ℕ, Bool, not, Option, List, [], ◌∷◌, Text, contains, insert_set, ◌==◌, if◌then◌else◌,
}
use central_core.Errors.{Error, Result, ok, err, ◌>>=◌, ◌>>◌, reject}
use central_core.Files.Path.{SafeRelativePath}
use central_core.Files.Hash.{FileHash}

module _ (Url : Type 0) where
  pub record FileEntry : Type 0 where
    pub path : SafeRelativePath
    pub url : Url
    pub size : Option ℕ
    pub hash : Option FileHash

  pub record FileManifest : Type 0 where
    pub format_version : ℕ
    pub files : List FileEntry

abbrev pub format_version_v1 : ℕ
format_version_v1 = 1

module _ {Url : Type 0} where
  -- The loop over the files, with the set of the paths seen so far.
  unfoldable pub validate_paths : List Text → List (FileEntry Url) → Result (Unit {0})
  validate_paths paths [] = ok tt
  validate_paths paths (file ∷ files) = do
    reject (contains file.path.value paths) Error.invalid_config
    validate_paths (insert_set file.path.value paths) files

  -- `FileManifest::validate`
  unfoldable pub validate : FileManifest Url → Result (Unit {0})
  unfolding validate_paths
  validate m = do
    reject (not (m.format_version == format_version_v1))
        (Error.unsupported_format "file manifest" m.format_version)
    validate_paths [] m.files
