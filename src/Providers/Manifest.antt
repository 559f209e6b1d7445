-- ===== src/Providers/Manifest.antt =====
-- providers/manifest.rs, `RawInstanceManifest::validate`: from the parsed JSON of an instance
-- manifest to the validated definition. A manifest error's message is left out.
pub mod Files
mod Declarations
pub mod Laws
mod Tests
use central_core.Prelude.{
  ℕ, zero, suc, ◌&&◌, ◌||◌, Bool, true, false, not, Option, none, some, List, [], ◌∷◌, ◌++◌, any,
  all, Text, text, text_eq, len, is_empty, ltb, contains, insert_set, is_control, is_whitespace,
  trim, decimal, is_some_and, ◌==◌, if◌then◌else◌,
}
use central_core.Errors.{Error, ProviderError, Result, ok, err, ◌>>=◌, ◌>>◌, reject, ok_or}
use central_core.Files.Path.{SafeRelativePath}
use central_core.Loaders.{LoaderConfig, loader_kind, loader_config}
use central_core.Instances.{ServerConfig, InstanceAuthPolicy, validate_policy}
use central_core.Providers.Ids.{component_id, instance_id}
use central_core.Providers.Model.{
  ProviderResource, ProviderFile, ProviderComponent, ComponentRequirement,
}
use central_core.Providers.Manifest.Files.{RawProviderFile, validate_files}

pub record RawLoader : Type 0 where
  pub kind : Text
  pub version : Option Text

pub record RawMinecraft : Type 0 where
  pub version : Text
  pub loader : RawLoader

pub record ProviderJavaMemory : Type 0 where
  pub minimum_mb : ℕ
  pub recommended_mb : ℕ
  pub maximum_mb : Option ℕ

pub record RawServer : Type 0 where
  pub address : Text
  pub port : ℕ

pub record RawProviderComponent : Type 0 where
  pub id : Text
  pub name : Text
  pub description : Option Text
  pub required : Bool
  pub default_enabled : Bool
  pub requires : List Text
  pub conflicts : List Text
  pub files : List RawProviderFile

-- `java` is the memory of the `java` object, if it has one.
pub record RawInstanceManifest : Type 0 where
  pub format_version : ℕ
  pub id : Text
  pub name : Text
  pub description : Option Text
  pub revision : ℕ
  pub minecraft : RawMinecraft
  pub java_memory : Option ProviderJavaMemory
  pub server : Option RawServer
  pub authentication : Option InstanceAuthPolicy
  pub files : List RawProviderFile
  pub components : List RawProviderComponent

pub record ProviderInstanceDefinition (Url : Type 0) : Type 0 where
  pub id : Text
  pub name : Text
  pub description : Option Text
  pub revision : ℕ
  pub minecraft_version : Text
  pub loader : Option LoaderConfig
  pub java_memory : Option ProviderJavaMemory
  pub server : Option ServerConfig
  pub authentication : InstanceAuthPolicy
  pub files : List (ProviderFile Url)
  pub components : List (ProviderComponent Url)

abbrev pub instance_manifest_format_version : ℕ
instance_manifest_format_version = 1

abbrev invalid_manifest : Error
invalid_manifest = Error.static_provider ProviderError.invalid_manifest

abbrev exact_version : Option Text → Result Text
exact_version none = err invalid_manifest
exact_version (some version) = ok version

unfoldable pub validate_loader : RawLoader → Result (Option LoaderConfig)
validate_loader raw =
    if text_eq raw.kind (text "vanilla")
    then elim raw.version [ some version ↦ err invalid_manifest | none ↦ ok none ]
    else do
      kind ←
          ok_or (Error.static_provider (ProviderError.unsupported_loader raw.kind))
            (loader_kind raw.kind)
      version ← exact_version raw.version
      config ← loader_config kind version
      ok (some config)

unfoldable pub is_inconsistent : ProviderJavaMemory → Bool
is_inconsistent memory =
    ltb memory.minimum_mb 256
    || ltb memory.recommended_mb memory.minimum_mb
    || is_some_and memory.maximum_mb (λ maximum. ltb maximum memory.recommended_mb)

is_forbidden_in_address : ℕ → Bool
is_forbidden_in_address c =
    is_control c || is_whitespace c || c == 0x2f || c == 0x5c || c == 0x40 || c == 0x23 || c == 0x3f

unfoldable pub validate_server_address : Text → Result (Unit {0})
unfolding is_forbidden_in_address
validate_server_address address =
    reject
      (not (text_eq (trim address) address)
        || is_empty address
        || ltb 255 (len address)
        || any is_forbidden_in_address address)
      invalid_manifest

unfoldable pub validate_server : Option RawServer → Result (Option ServerConfig)
unfolding validate_server_address
validate_server none = ok none
validate_server (some server) = do
  validate_server_address server.address
  ok (some (record { host = server.address; port = server.port }))

abbrev authentication_or_default : Option InstanceAuthPolicy → InstanceAuthPolicy
authentication_or_default none = record { required = false; providers = [] }
authentication_or_default (some policy) = policy

-- `into_iter().map(ComponentId::new).collect()`
unfoldable pub component_ids : List Text → Result (List Text)
component_ids [] = ok []
component_ids (raw ∷ raws) = do id ← component_id raw; ids ← component_ids raws; ok (id ∷ ids)

module _ {Url : Type 0} (resolve : Text → Result (ProviderResource Url)) (max_file_size : ℕ) where
  abbrev component :
      Text
      → RawProviderComponent
      → List Text
      → List Text
      → List (ProviderFile Url)
      → ProviderComponent Url
  component id raw requires conflicts files = record {
    id = id;
    name = raw.name;
    description = raw.description;
    requirement =
        if raw.required then ComponentRequirement.required else ComponentRequirement.optional;
    default_enabled = raw.required || raw.default_enabled;
    requires = requires;
    conflicts = conflicts;
    files = files;
  }

  -- The loop over the components, with the paths and the component ids seen so far: the set of all
  -- component ids, and the components.
  unfoldable pub validate_components :
      List Text
      → List Text
      → List RawProviderComponent
      → Result (List Text × List (ProviderComponent Url))
  unfolding component_ids
  validate_components paths ids [] = ok (ids, [])
  validate_components paths ids (raw ∷ raws) = do
    id ← component_id raw.id
    reject (contains id ids) (Error.static_provider (ProviderError.duplicate_component id))
    reject (is_empty (trim raw.name) || ltb 128 (len raw.name)) invalid_manifest
    reject (is_empty raw.files) invalid_manifest
    requires ← component_ids raw.requires
    conflicts ← component_ids raw.conflicts
    seen ← validate_files resolve max_file_size (some raw.required) 0 paths [] raw.files
    rest ← validate_components seen.0 (insert_set id ids) raws
    ok (rest.0, component id raw requires conflicts seen.1 ∷ rest.1)

-- `requires.iter().chain(&conflicts)`
unfoldable pub check_references : Text → List Text → List Text → Result (Unit {0})
check_references id component_ids [] = ok tt
check_references id component_ids (d ∷ ds) = do
  reject (text_eq d id || not (contains d component_ids))
      (Error.static_provider (ProviderError.invalid_component_reference id d))
  check_references id component_ids ds

unfoldable pub check_components :
    {Url : Type 0} → List Text → List (ProviderComponent Url) → Result (Unit {0})
unfolding check_references
check_components component_ids [] = ok tt
check_components component_ids (c ∷ cs) = do
  check_references c.id component_ids (c.requires ++ c.conflicts)
  check_components component_ids cs

module _ {Url : Type 0} (resolve : Text → Result (ProviderResource Url)) (max_file_size : ℕ) where
  -- `RawInstanceManifest::validate`
  unfoldable pub validate_manifest :
      RawInstanceManifest → Text → Result (ProviderInstanceDefinition Url)
  unfolding validate_loader is_inconsistent validate_server validate_components check_components
  validate_manifest raw expected_id = do
    reject (not (raw.format_version == instance_manifest_format_version))
        (Error.static_provider (ProviderError.unsupported_instance_format raw.format_version))
    id ← instance_id raw.id
    reject (not (text_eq id expected_id))
        (Error.static_provider (ProviderError.instance_identity expected_id id))
    reject (is_empty (trim raw.name) || ltb 128 (len raw.name)) invalid_manifest
    reject (raw.revision == 0) invalid_manifest
    loader ← validate_loader raw.minecraft.loader
    reject (is_empty raw.minecraft.version || ltb 128 (len raw.minecraft.version)) invalid_manifest
    reject (is_some_and raw.java_memory is_inconsistent) invalid_manifest
    server ← validate_server raw.server
    let authentication = authentication_or_default raw.authentication
    validate_policy authentication
    seen ← validate_files resolve max_file_size none 0 [] [] raw.files
    declared ← validate_components resolve max_file_size seen.0 [] raw.components
    check_components declared.0 declared.1
    ok (record {
      id = id;
      name = raw.name;
      description = raw.description;
      revision = raw.revision;
      minecraft_version = raw.minecraft.version;
      loader = loader;
      java_memory = raw.java_memory;
      server = server;
      authentication = authentication;
      files = seen.1;
      components = declared.1;
    })
