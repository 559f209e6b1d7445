-- ===== src/Providers/Model.antt =====
-- providers/manifest.rs: the validated domain types of a provider's instance manifest. `Url` is
-- the type of the crate `url`; the model only carries its values along.
use central_core.Prelude.{ℕ, Bool, Option, List, Text}
use central_core.Files.Path.{SafeRelativePath}
use central_core.Files.Hash.{FileHash}

pub data ProviderResource (Url : Type 0) : Type 0 where
  local : (path root : Text) → ProviderResource Url
  remote : Url → ProviderResource Url

pub record ProviderFile (Url : Type 0) : Type 0 where
  pub id : Text
  pub path : SafeRelativePath
  pub source : ProviderResource Url
  pub size : ℕ
  pub sha256 : FileHash
  pub required : Bool

pub data ComponentRequirement : Type 0 where
  required optional : ComponentRequirement

pub record ProviderComponent (Url : Type 0) : Type 0 where
  pub id : Text
  pub name : Text
  pub description : Option Text
  pub requirement : ComponentRequirement
  pub default_enabled : Bool
  pub requires : List Text
  pub conflicts : List Text
  pub files : List (ProviderFile Url)
