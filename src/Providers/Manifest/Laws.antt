-- ===== src/Providers/Manifest/Laws.antt =====
-- What an accepted instance manifest guarantees to the code that resolves and installs it.
use central_core.Prelude.{
  ℕ, ◌≡◌, ◌≢◌, sym, subst, ◌∙◌, Bool, ◌||◌, not, none, List, [], ◌++◌, arith, All, All-map, Text,
  text_eq, text_eq_iff, contains, IsDistinct, IsDistinct-append, is_empty, trim, len, ltb,
  is_some_and, ◌==◌,
}
use central_core.Errors.{Result, ok, >>=-eq-ok, reject-eq-ok}
use central_core.Providers.Ids.{instance_id}
use central_core.Providers.Model.{ProviderResource, ProviderComponent}
use central_core.Instances.{validate_policy}
use central_core.Providers.Manifest.{
  RawInstanceManifest, ProviderInstanceDefinition, validate_manifest, validate_components,
  validate_loader, validate_server, check_components, is_inconsistent,
  instance_manifest_format_version, authentication_or_default,
}
use central_core.Providers.Manifest.Files.{validate_files}
use central_core.Providers.Manifest.Files.Laws.{
  IsValidFile, paths_of, Listed, Listed-validate_files,
}
use central_core.Providers.Manifest.Declarations.{
  ids_of, component_paths, IsValidComponent, Declared, IsReference, check_components-ok,
  Declared-validate_components,
}

contains-nil : (j : Text) (b : Bool) → (b || contains j []) ≡ b
unfolding contains
contains-nil j b = ground arith

module _ {Url : Type 0} where
  -- A definition that can be resolved and installed.
  pub record IsWellFormed (max_file_size : ℕ) (expected_id : Text)
      (def : ProviderInstanceDefinition Url) : Type 0 where
    pub identity : def.id ≡ expected_id
    pub revision : def.revision ≢ 0
    pub distinct_paths : IsDistinct (paths_of def.files ++ component_paths def.components)
    pub files : All (IsValidFile none max_file_size) def.files
    pub distinct_ids : IsDistinct (ids_of def.components)
    pub components : All (IsValidComponent max_file_size) def.components
    pub references :
        All
          (λ c. All (IsReference c.id (ids_of def.components)) (c.requires ++ c.conflicts))
          def.components

  same_members :
      (ids after : List Text) (cs : List (ProviderComponent Url))
      → ((j : Text) → contains j after ≡ contains j ids)
      → All (λ c. All (IsReference c.id after) (c.requires ++ c.conflicts)) cs
      → All (λ c. All (IsReference c.id ids) (c.requires ++ c.conflicts)) cs
  same_members ids after cs h good =
      All-map _ _ cs (λ c. All-map _ _ (c.requires ++ c.conflicts) (λ d r. (r.0, sym (h d) ∙ r.1)))
        good

  IsWellFormed-parts :
      (max_file_size : ℕ) (expected_id : Text) (def : ProviderInstanceDefinition Url)
      (paths after : List Text)
      → def.id ≡ expected_id
      → def.revision ≢ 0
      → Listed none max_file_size [] paths def.files
      → Declared max_file_size paths [] after def.components
      → All (λ c. All (IsReference c.id after) (c.requires ++ c.conflicts)) def.components
      → IsWellFormed max_file_size expected_id def
  IsWellFormed-parts max_file_size expected_id def paths after identity revision listed declared
        references =
      record {
        identity = identity;
        revision = revision;
        distinct_paths =
            IsDistinct-append (paths_of def.files) (component_paths def.components) listed.distinct
              declared.distinct_paths
              (λ j e. ground (arith, listed.members j, declared.fresh_paths j));
        files = listed.valid;
        distinct_ids = declared.distinct_ids;
        components = declared.valid;
        references =
            same_members (ids_of def.components) after def.components
              (λ j. declared.members j ∙ contains-nil j (contains j (ids_of def.components)))
              references;
      }

  definition-ok :
      (a b : ProviderInstanceDefinition Url)
      → ◌≡◌ {A = Result (ProviderInstanceDefinition Url)} (ok a) (ok b)
      → a ≡ b
  definition-ok a b h = ground arith

  -- An accepted manifest has the expected id and a revision above 0; no path is listed twice, over
  -- its own files and those of all components; every path is portable, every size is above 0 and at
  -- most the limit, and every hash a lower-case SHA-256; the component ids are distinct; and every
  -- component that one requires or conflicts with is another one of the manifest.
  pub validate_manifest-IsWellFormed :
      (resolve : Text → Result (ProviderResource Url)) (max_file_size : ℕ)
      (raw : RawInstanceManifest) (expected_id : Text) (def : ProviderInstanceDefinition Url)
      → validate_manifest resolve max_file_size raw expected_id ≡ ok def
      → IsWellFormed max_file_size expected_id def
  unfolding validate_manifest
  validate_manifest-IsWellFormed resolve max_file_size raw expected_id def e =
      let (version, e1) =
        reject-eq-ok (not (raw.format_version == instance_manifest_format_version)) _ _ e in
      let (id, e_id, e2) = >>=-eq-ok (instance_id raw.id) _ e1 in
      let (identity, e3) = reject-eq-ok (not (text_eq id expected_id)) _ _ e2 in
      let (named, e4) = reject-eq-ok (is_empty (trim raw.name) || ltb 128 (len raw.name)) _ _ e3 in
      let (revision, e5) = reject-eq-ok (raw.revision == 0) _ _ e4 in
      let (loader, e_loader, e6) = >>=-eq-ok (validate_loader raw.minecraft.loader) _ e5 in
      let (mc, e7) =
        reject-eq-ok (is_empty raw.minecraft.version || ltb 128 (len raw.minecraft.version)) _ _
          e6 in
      let (memory, e8) = reject-eq-ok (is_some_and raw.java_memory is_inconsistent) _ _ e7 in
      let (server, e_server, e9) = >>=-eq-ok (validate_server raw.server) _ e8 in
      let (u, e_policy, e10) =
        >>=-eq-ok (validate_policy (authentication_or_default raw.authentication)) _ e9 in
      let (seen, e_seen, e11) =
        >>=-eq-ok (validate_files resolve max_file_size none 0 [] [] raw.files) _ e10 in
      let (declared, e_declared, e12) =
        >>=-eq-ok (validate_components resolve max_file_size seen.0 [] raw.components) _ e11 in
      let (v, e_references, e13) = >>=-eq-ok (check_components declared.0 declared.1) _ e12 in
      subst (IsWellFormed max_file_size expected_id) (definition-ok _ def e13) (
        IsWellFormed-parts max_file_size expected_id _ seen.0 declared.0
          (ground (arith, text_eq_iff id expected_id)) (ground arith)
          (Listed-validate_files resolve max_file_size none 0 [] [] seen.0 raw.files seen.1 e_seen)
          (Declared-validate_components resolve max_file_size seen.0 [] declared.0 raw.components
            declared.1 e_declared)
          (check_components-ok declared.0 declared.1 e_references))
