-- ===== src/Providers/Manifest/Tests.antt =====
-- A manifest with one file and two components.
use central_core.Prelude.{
  ◌≡◌, refl, Bool, true, false, none, some, List, [], ◌∷◌, Text, text, strings, maps,
}
use central_core.Errors.{Result, ok}
use central_core.Files.Path
use central_core.Files.Hash
use central_core.Files.Hash.{HashAlgorithm}
use central_core.Loaders.{LoaderKind, loader_kind, loader_config}
use central_core.Instances.{validate_policy}
use central_core.Providers.Ids.{component_id, instance_id}
use central_core.Providers.Model.{
  ProviderResource, ProviderFile, ProviderComponent, ComponentRequirement,
}
use central_core.Providers.Manifest.{
  RawProviderComponent, RawInstanceManifest, ProviderInstanceDefinition, validate_manifest,
}
use central_core.Providers.Manifest.Files.{RawProviderFile, validate_files}
use central_core.Providers.Manifest.Laws.{IsWellFormed, validate_manifest-IsWellFormed}

abbrev raw_file : Text → RawProviderFile
raw_file path = record {
  id = none;
  path = path;
  url = path;
  size = 10;
  sha256 = text "aaaaaaaaaaaaaaaaaaaaaaaaaaaaaaaaaaaaaaaaaaaaaaaaaaaaaaaaaaaaaaaa";
  required = true;
}

abbrev raw_component : Text → List Text → RawProviderComponent
raw_component id requires = record {
  id = id;
  name = id;
  description = none;
  required = false;
  default_enabled = true;
  requires = requires;
  conflicts = [];
  files = raw_file id ∷ [];
}

abbrev raw_manifest : RawInstanceManifest
raw_manifest = record {
  format_version = 1;
  id = text "survival";
  name = text "Survival";
  description = none;
  revision = 4;
  minecraft = record {
    version = text "1.21";
    loader = record { kind = text "fabric"; version = some (text "0.16.0") };
  };
  java_memory = some (record { minimum_mb = 1024; recommended_mb = 2048; maximum_mb = none });
  server = some (record { address = text "play.example.org"; port = 25565 });
  authentication = none;
  files = raw_file (text "mods/a.jar") ∷ [];
  components =
      raw_component (text "iris") (text "sodium" ∷ []) ∷ raw_component (text "sodium") [] ∷ [];
}

-- A resource is the text of its URL.
abbrev as_remote : Text → Result (ProviderResource Text)
as_remote url = ok (ProviderResource.remote url)

abbrev file : Text → Bool → ProviderFile Text
file path required = record {
  id = text "file-0";
  path = record { value = path };
  source = ProviderResource.remote path;
  size = 10;
  sha256 = record {
    algorithm = HashAlgorithm.sha256;
    value = text "aaaaaaaaaaaaaaaaaaaaaaaaaaaaaaaaaaaaaaaaaaaaaaaaaaaaaaaaaaaaaaaa";
  };
  required = required;
}

abbrev declared : Text → List Text → ProviderComponent Text
declared id requires = record {
  id = id;
  name = id;
  description = none;
  requirement = ComponentRequirement.optional;
  default_enabled = true;
  requires = requires;
  conflicts = [];
  files = file id false ∷ [];
}

abbrev definition : ProviderInstanceDefinition Text
definition = record {
  id = text "survival";
  name = text "Survival";
  description = none;
  revision = 4;
  minecraft_version = text "1.21";
  loader = some (record { kind = LoaderKind.fabric; version = text "0.16.0" });
  java_memory = some (record { minimum_mb = 1024; recommended_mb = 2048; maximum_mb = none });
  server = some (record { host = text "play.example.org"; port = 25565 });
  authentication = record { required = false; providers = [] };
  files = file (text "mods/a.jar") true ∷ [];
  components = declared (text "iris") (text "sodium" ∷ []) ∷ declared (text "sodium") [] ∷ [];
}

accepts_raw : validate_manifest as_remote 1000 raw_manifest (text "survival") ≡ ok definition
unfolding validate_manifest strings maps component_id instance_id validate_files Path.new Hash.new
    loader_kind loader_config validate_policy
accepts_raw = refl

validate_manifest-IsWellFormed_example : IsWellFormed 1000 (text "survival") definition
validate_manifest-IsWellFormed_example =
    validate_manifest-IsWellFormed as_remote 1000 raw_manifest (text "survival") definition
      accepts_raw
