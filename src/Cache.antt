-- ===== src/Cache.antt =====
-- cache/mod.rs: the index of the files that the core manages in an instance. `Url` is the type of the
-- crate `url`.
use central_core.Prelude.{ℕ, Option, List, Text}
use central_core.Files.Path.{SafeRelativePath}
use central_core.Files.Hash.{FileHash}

pub data ManagedFileOrigin : Type 0 where
  minecraft loader provider user_optional : ManagedFileOrigin
  component : (id : Text) → ManagedFileOrigin

pub data ManagedFileLocation : Type 0 where
  cache instance_root : ManagedFileLocation

pub data ManagedFileKind : Type 0 where
  version_metadata client library asset_index asset native_archive extracted_native logging other :
      ManagedFileKind

pub record ManagedExtraction : Type 0 where
  pub archive : SafeRelativePath
  pub exclusions : List Text

module _ (Url : Type 0) where
  pub record ManagedFile : Type 0 where
    pub id : Text
    pub location : ManagedFileLocation
    pub path : SafeRelativePath
    pub kind : ManagedFileKind
    pub origin : ManagedFileOrigin
    pub expected_size : Option ℕ
    pub expected_hash : Option FileHash
    pub source : Option Url
    pub source_path : Option Text
    pub repair_from : Option SafeRelativePath
    pub verified_size : ℕ
    pub verified_modified_unix_nanos : Option ℕ

  pub record ManagedFileIndex : Type 0 where
    pub format_version : ℕ
    pub instance_id : Text
    pub version_id : Text
    pub files : List ManagedFile
    pub native_archives : List ManagedExtraction
