-- ===== src/Providers/Manifest/Files.antt =====
-- providers/manifest.rs, the loops of `RawInstanceManifest::validate` over the files.
pub mod Laws
use central_core.Prelude.{
  ℕ, suc, ◌||◌, Bool, true, not, Option, none, some, List, [], ◌∷◌, ◌++◌, any, Text, text, len,
  is_empty, ltb, contains, insert_set, is_control, decimal, ◌==◌, if◌then◌else◌,
}
use central_core.Errors.{Error, ProviderError, Result, ok, err, ◌>>=◌, ◌>>◌, reject}
use central_core.Files.Path
use central_core.Files.Hash
use central_core.Files.Path.{SafeRelativePath}
use central_core.Files.Hash.{FileHash, HashAlgorithm}
use central_core.Providers.Model.{ProviderResource, ProviderFile}

pub record RawProviderFile : Type 0 where
  pub id : Option Text
  pub path : Text
  pub url : Text
  pub size : ℕ
  pub sha256 : Text
  pub required : Bool

-- The files of the manifest itself must be required; those of a component (`some`) are required if
-- the component is.
abbrev pub check_optional : Option Bool → RawProviderFile → Text → Result (Unit {0})
check_optional none raw path =
    reject (not raw.required)
      (Error.static_provider (ProviderError.optional_files_unsupported path))
check_optional (some component_required) raw path = ok tt

abbrev pub required_in : Option Bool → Bool
required_in none = true
required_in (some component_required) = component_required

-- `raw.id.unwrap_or_else(|| format!("file-{index}"))`
abbrev pub file_id : ℕ → Option Text → Text
file_id index none = text "file-" ++ decimal index
file_id index (some id) = id

unfoldable pub validate_file_id : Text → Result (Unit {0})
validate_file_id id =
    reject (is_empty id || ltb 128 (len id) || any is_control id)
      (Error.static_provider ProviderError.invalid_manifest)

module _ {Url : Type 0} (resolve : Text → Result (ProviderResource Url)) (max_file_size : ℕ) where
  -- The loop, from an index on, with the paths and the file ids seen so far: the paths seen after
  -- it, and the files.
  unfoldable pub validate_files :
      Option Bool
      → ℕ
      → List Text
      → List Text
      → List RawProviderFile
      → Result (List Text × List (ProviderFile Url))
  unfolding validate_file_id
  validate_files scope index paths ids [] = ok (paths, [])
  validate_files scope index paths ids (raw ∷ raws) = do
    path ← Path.new raw.path
    reject (contains path.value paths)
        (Error.static_provider (ProviderError.duplicate_file path.value))
    reject (raw.size == 0 || ltb max_file_size raw.size)
        (Error.static_provider (ProviderError.invalid_file_size path.value raw.size))
    check_optional scope raw path.value
    let id = file_id index raw.id
    validate_file_id id
    reject (contains id ids) (Error.static_provider (ProviderError.duplicate_file_id id))
    source ← resolve raw.url
    sha256 ← Hash.new HashAlgorithm.sha256 raw.sha256
    rest ← validate_files scope (suc index) (insert_set path.value paths) (insert_set id ids) raws
    ok (
      rest.0,
      record {
        id = id;
        path = path;
        source = source;
        size = raw.size;
        sha256 = sha256;
        required = required_in scope;
      }
          ∷ rest.1,
    )
