-- ===== src/Providers/Update/Desired.antt =====
-- providers/service.rs: the files that a definition wants in an instance, and those of the index that
-- a provider owns there.
pub mod Owned
pub mod Wanted
use central_core.Prelude.{
  Bool, true, false, ◌&&◌, ◌||◌, Option, none, some, List, [], ◌∷◌, ◌++◌, map, Text, TextMap, text,
  text_eq, insert, starts_with, ◌==◌, if◌then◌else◌,
}
use central_core.Files.Hash.{FileHash, HashAlgorithm}
use central_core.Cache.{ManagedFile, ManagedFileOrigin, ManagedFileLocation}
use central_core.Providers.Ids.{ProviderInstanceId}
use central_core.Providers.Model.{ProviderFile, ProviderComponent}
use central_core.Providers.Manifest.{ProviderInstanceDefinition}
use central_core.Providers.Components.Resolve.{ResolvedComponentSet, is_enabled}

abbrev pub component_origin_id : ManagedFileOrigin → Option Text
component_origin_id (ManagedFileOrigin.component id) = some id
component_origin_id ManagedFileOrigin.minecraft = none
component_origin_id ManagedFileOrigin.loader = none
component_origin_id ManagedFileOrigin.provider = none
component_origin_id ManagedFileOrigin.user_optional = none

-- `str::contains` of a text
unfoldable pub contains_text : Text → Text → Bool
contains_text [] part = starts_with [] part
contains_text (c ∷ s) part = starts_with (c ∷ s) part || contains_text s part

abbrev pub is_provider_origin : ManagedFileOrigin → Bool
is_provider_origin (ManagedFileOrigin.component id) = true
is_provider_origin ManagedFileOrigin.minecraft = false
is_provider_origin ManagedFileOrigin.loader = false
is_provider_origin ManagedFileOrigin.provider = true
is_provider_origin ManagedFileOrigin.user_optional = false

abbrev pub is_in_instance : ManagedFileLocation → Bool
is_in_instance ManagedFileLocation.instance_root = true
is_in_instance ManagedFileLocation.cache = false

-- Equality of sizes, of hashes, and of options of them.
abbrev pub same_algorithm : HashAlgorithm → HashAlgorithm → Bool
same_algorithm HashAlgorithm.sha1 HashAlgorithm.sha1 = true
same_algorithm HashAlgorithm.sha1 HashAlgorithm.sha256 = false
same_algorithm HashAlgorithm.sha256 HashAlgorithm.sha1 = false
same_algorithm HashAlgorithm.sha256 HashAlgorithm.sha256 = true

abbrev pub same_hash : FileHash → FileHash → Bool
same_hash left right =
    same_algorithm left.algorithm right.algorithm && text_eq left.value right.value

abbrev pub same_option {ℓ} : {A : Type ℓ} → (A → A → Bool) → Option A → Option A → Bool
same_option same none none = true
same_option same none (some y) = false
same_option same (some x) none = false
same_option same (some x) (some y) = same x y

module _ {Url : Type 0} where
  unfoldable pub is_provider_owned : ManagedFile Url → ProviderInstanceId → Bool
  unfolding contains_text
  is_provider_owned managed key =
      is_provider_origin managed.origin
      && contains_text managed.id
          (text ":" ++ key.provider_id ++ text ":" ++ key.instance_id ++ text ":")

module _ (Url : Type 0) where
  pub record DesiredProviderFile : Type 0 where
    pub wanted : ProviderFile Url
    pub component_id : Option Text

module _ {Url : Type 0} where
  unfoldable pub component_files : ProviderComponent Url → List (DesiredProviderFile Url)
  component_files c =
      map (λ (x : ProviderFile Url). record { wanted = x; component_id = some c.id }) c.files

  unfoldable pub enabled_files :
      ResolvedComponentSet → List (ProviderComponent Url) → List (DesiredProviderFile Url)
  unfolding component_files is_enabled
  enabled_files resolved [] = []
  enabled_files resolved (c ∷ cs) =
      let rest = enabled_files resolved cs in
      if is_enabled resolved c.id then component_files c ++ rest else rest

  -- `desired_provider_files`, and the origin as `component_origin_id` has it
  unfoldable pub desired_provider_files :
      ProviderInstanceDefinition Url → ResolvedComponentSet → List (DesiredProviderFile Url)
  unfolding enabled_files
  desired_provider_files definition resolved =
      map (λ (x : ProviderFile Url). record { wanted = x; component_id = none }) definition.files
      ++ enabled_files resolved definition.components

  -- `current`: the provider's files of the instance, by their paths
  unfoldable pub current_files :
      ProviderInstanceId
      → List (ManagedFile Url)
      → TextMap (ManagedFile Url)
      → TextMap (ManagedFile Url)
  unfolding is_provider_owned
  current_files key [] m = m
  current_files key (x ∷ xs) m =
      current_files key xs (
        if is_in_instance x.location && is_provider_owned x key then insert x.path.value x m else m)

  -- `format!(".minecraft/{}", desired.file.path)`
  abbrev pub instance_path : DesiredProviderFile Url → Text
  instance_path desired = text ".minecraft/" ++ desired.wanted.path.value

  -- `desired_paths`
  unfoldable pub desired_paths :
      List (DesiredProviderFile Url)
      → TextMap (DesiredProviderFile Url)
      → TextMap (DesiredProviderFile Url)
  desired_paths [] m = m
  desired_paths (d ∷ ds) m = desired_paths ds (insert (instance_path d) d m)

  -- The guard of the first arm of the `match`.
  abbrev pub is_same : ManagedFile Url → DesiredProviderFile Url → Bool
  is_same existing desired =
      same_option ◌==◌ existing.expected_size (some desired.wanted.size)
      && same_option same_hash existing.expected_hash (some desired.wanted.sha256)
