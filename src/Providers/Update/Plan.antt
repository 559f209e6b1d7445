-- ===== src/Providers/Update/Plan.antt =====
-- providers/service.rs, `plan_update_with`, and `UpdatePlan` of providers/update.rs: the difference
-- between the managed files of an instance and those that a definition wants. The installed revision
-- and the install plan of a changed base game are arguments. A sum of `u64` wraps, as in a release build.
pub mod Laws
use mathlib.Core.List.{foldl}
use central_core.Prelude.{
  ℕ, zero, suc, ◌+◌, ◌-◌, ◌%◌, ◌^◌, ◌≡◌, Bool, true, false, ◌&&◌, ◌||◌, not, Option, none, some,
  List, [], ◌∷◌, ◌++◌, map, any, retain, length, is_empty, Text, TextMap, text, text_eq, get,
  insert, insert_set, contains, keys, values, is_some, starts_with, ◌==◌, if◌then◌else◌, leb,
}
use central_core.Errors.{Error, Result, ok, err, Run, run_bind}
use central_core.Files.Path.{SafeRelativePath}
use central_core.Files.Hash.{FileHash, HashAlgorithm}
use central_core.Cache.{ManagedFile, ManagedFileOrigin, ManagedFileLocation}
use central_core.Providers.Ids.{ProviderInstanceId}
use central_core.Providers.Model.{ProviderFile, ProviderComponent}
use central_core.Providers.Manifest.{ProviderInstanceDefinition}
use central_core.Providers.Components.Selection.{ComponentSelections}
use central_core.Providers.Components.Resolve.{ResolvedComponentSet, is_enabled, resolve_components}
use central_core.Cache.{ManagedFileIndex}
use central_core.Providers.Update.Desired.{
  DesiredProviderFile, component_origin_id, current_files, desired_paths, desired_provider_files,
  is_in_instance, is_same, same_hash, same_option,
}

pub record UpdateFileAction : Type 0 where
  pub id : Text
  pub path : Text
  pub component_id : Option Text
  pub size : ℕ
  pub sha256 : FileHash

pub record UpdateRemoval : Type 0 where
  pub id : Text
  pub path : Text
  pub component_id : Option Text

pub record OptionalComponentChange : Type 0 where
  pub component_id : Text
  pub enabled : Bool

-- The part of a download of the install plan that is compared with the index.
pub record DownloadRequest : Type 0 where
  pub destination : SafeRelativePath
  pub expected_size : Option ℕ
  pub expected_hash : Option FileHash

-- Of a plan the parts that tell what to do; the base game is changed when there is a plan for it.
module _ (Url : Type 0) where
  pub record UpdatePlan : Type 0 where
    pub instance : ProviderInstanceId
    pub local_instance_id : Text
    pub from_revision : ℕ
    pub to_revision : ℕ
    pub keep : List UpdateFileAction
    pub downloads : List UpdateFileAction
    pub replacements : List UpdateFileAction
    pub removals : List UpdateRemoval
    pub optional_changes : List OptionalComponentChange
    pub base_downloads : ℕ
    pub base_download_size : Option ℕ
    pub download_size : ℕ
    pub base_game_changed : Bool
    pub desired_files : List (DesiredProviderFile Url)
    pub selections : ComponentSelections
    pub expected_selections : ComponentSelections

-- `UpdatePlan::has_changes`
unfoldable pub has_changes : {Url : Type 0} → UpdatePlan Url → Bool
has_changes plan =
    not (plan.from_revision == plan.to_revision)
    || plan.base_game_changed
    || not (is_empty plan.downloads)
    || not (is_empty plan.replacements)
    || not (is_empty plan.removals)
    || not (is_empty plan.optional_changes)

abbrev insert_option : Option Text → List Text → List Text
insert_option none s = s
insert_option (some k) s = insert_set k s

action_sizes : List UpdateFileAction → List ℕ
action_sizes actions = map (λ (a : UpdateFileAction). a.size) actions

abbrev pub action_paths : List UpdateFileAction → List Text
action_paths [] = []
action_paths (a ∷ actions) = a.path ∷ action_paths actions

abbrev pub removal_paths : List UpdateRemoval → List Text
removal_paths [] = []
removal_paths (r ∷ removals) = r.path ∷ removal_paths removals

-- What the loop over the desired paths collects.
pub record Difference : Type 0 where
  pub keep : List UpdateFileAction
  pub downloads : List UpdateFileAction
  pub replacements : List UpdateFileAction

module _ {Url : Type 0} where
  unfoldable pub update_action : DesiredProviderFile Url → Text → UpdateFileAction
  update_action desired path = record {
    id = desired.wanted.id;
    path = path;
    component_id = desired.component_id;
    size = desired.wanted.size;
    sha256 = desired.wanted.sha256;
  }

  abbrev add_action :
      Option (ManagedFile Url)
      → DesiredProviderFile Url
      → UpdateFileAction
      → Difference
      → Difference
  add_action none desired action d = record d { downloads = action ∷ d.downloads }
  add_action (some existing) desired action d =
      if is_same existing desired
      then record d { keep = action ∷ d.keep }
      else record d { replacements = action ∷ d.replacements }

  unfoldable pub difference :
      TextMap (ManagedFile Url) → TextMap (DesiredProviderFile Url) → Difference
  unfolding update_action
  difference current [] = record { keep = []; downloads = []; replacements = [] }
  difference current ((path, desired) ∷ rest) =
      add_action (get path current) desired (update_action desired path) (difference current rest)

  abbrev update_removal : Text × ManagedFile Url → UpdateRemoval
  update_removal (path, existing) = record {
    id = existing.id;
    path = path;
    component_id = component_origin_id existing.origin;
  }

  unfoldable pub removals_of :
      TextMap (ManagedFile Url) → TextMap (DesiredProviderFile Url) → List UpdateRemoval
  removals_of [] desired = []
  removals_of ((path, existing) ∷ rest) desired =
      let removals = removals_of rest desired in
      if is_some (get path desired) then removals else update_removal (path, existing) ∷ removals

  unfoldable pub current_components : TextMap (ManagedFile Url) → List Text
  current_components [] = []
  current_components ((path, existing) ∷ rest) =
      insert_option (component_origin_id existing.origin) (current_components rest)

  unfoldable pub desired_components :
      ResolvedComponentSet → List (ProviderComponent Url) → List Text
  desired_components resolved [] = []
  desired_components resolved (c ∷ cs) =
      let rest = desired_components resolved cs in
      if is_enabled resolved c.id then insert_set c.id rest else rest

abbrev pub insert_all : List Text → List Text → List Text
insert_all [] s = s
insert_all (k ∷ ks) s = insert_set k (insert_all ks s)

-- `BTreeSet::symmetric_difference`, in the order of the set
unfoldable pub symmetric_difference : List Text → List Text → List Text
symmetric_difference left right =
    insert_all (retain (λ k. not (contains k right)) left)
      (retain (λ k. not (contains k left)) right)

unfoldable pub changes_of : List Text → List Text → List OptionalComponentChange
changes_of desired [] = []
changes_of desired (id ∷ ids) =
    record { component_id = id; enabled = contains id desired } ∷ changes_of desired ids

unfoldable pub optional_changes : (current desired : List Text) → List OptionalComponentChange
unfolding symmetric_difference changes_of
optional_changes current desired = changes_of desired (symmetric_difference current desired)

-- `sum::<u64>()`
abbrev u64_sum : List ℕ → ℕ
u64_sum [] = 0
u64_sum (n ∷ ns) = (n + u64_sum ns) % 2 ^ 64

abbrev saturating_add : ℕ → ℕ → ℕ
saturating_add a b = if leb (a + b) (2 ^ 64 - 1) then a + b else 2 ^ 64 - 1

-- `collect::<Option<Vec<_>>>()`
abbrev all_some : List (Option ℕ) → Option (List ℕ)
all_some [] = some []
all_some (none ∷ os) = none
all_some (some n ∷ os) = elim (all_some os) [ none ↦ none | some ns ↦ some (n ∷ ns) ]

abbrev option_sum : Option (List ℕ) → Option ℕ
option_sum none = none
option_sum (some ns) = some (u64_sum ns)

abbrev or_zero : Option ℕ → ℕ
or_zero none = 0
or_zero (some n) = n

module _ {Url : Type 0} where
  is_cached : List (ManagedFile Url) → DownloadRequest → Bool
  is_cached files request =
      any
        (λ (x : ManagedFile Url).
          not (is_in_instance x.location)
          && text_eq x.path.value request.destination.value
          && same_option ◌==◌ x.expected_size request.expected_size
          && same_option same_hash x.expected_hash request.expected_hash)
        files

  -- The downloads of a changed base game, and their size if it is known.
  unfoldable pub base_of : List (ManagedFile Url) → Option (List DownloadRequest) → ℕ × Option ℕ
  unfolding is_cached
  base_of files none = (0, some 0)
  base_of files (some requests) =
      let missing = retain (λ request. not (is_cached files request)) requests in
      (
        length missing,
        option_sum (all_some (map (λ (r : DownloadRequest). r.expected_size) missing)),
      )

  unfoldable pub plan_of :
      (local_instance_id : Text) (from_revision : ℕ)
      → ProviderInstanceId
      → ProviderInstanceDefinition Url
      → (selections expected_selections : ComponentSelections)
      → (base_plan : Option (List DownloadRequest)) → List (ManagedFile Url)
      → ResolvedComponentSet
      → UpdatePlan Url
  unfolding desired_provider_files current_files desired_paths difference removals_of
      optional_changes current_components desired_components base_of action_sizes
  plan_of local_instance_id from_revision key definition selections expected_selections base_plan
        files resolved =
      let desired_files = desired_provider_files definition resolved in
      let current = current_files key files [] in
      let desired = desired_paths desired_files [] in
      let d = difference current desired in
      let base = base_of files base_plan in
      record {
        instance = key;
        local_instance_id = local_instance_id;
        from_revision = from_revision;
        to_revision = definition.revision;
        keep = d.keep;
        downloads = d.downloads;
        replacements = d.replacements;
        removals = removals_of current desired;
        optional_changes =
            optional_changes (current_components current)
              (desired_components resolved definition.components);
        base_downloads = base.0;
        base_download_size = base.1;
        download_size =
            saturating_add (u64_sum (action_sizes (d.downloads ++ d.replacements)))
              (or_zero base.1);
        base_game_changed = is_some base_plan;
        desired_files = desired_files;
        selections = selections;
        expected_selections = expected_selections;
      }

  unfoldable pub plan_update_with :
      (local_instance_id : Text) (from_revision : ℕ)
      → ProviderInstanceId
      → ProviderInstanceDefinition Url
      → (selections expected_selections : ComponentSelections)
      → (base_plan : Option (List DownloadRequest)) → ManagedFileIndex Url
      → Run (UpdatePlan Url)
  unfolding plan_of resolve_components
  plan_update_with local_instance_id from_revision key definition selections expected_selections
        base_plan index =
      run_bind (resolve_components definition.components selections) (λ resolved. some (
        ok (
          plan_of local_instance_id from_revision key definition selections expected_selections
            base_plan index.files resolved)))
