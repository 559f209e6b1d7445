-- ===== src/Providers/Update/Apply.antt =====
-- providers/service.rs, `apply_update` and `apply_update_unlocked`, on what the disk has of an
-- instance. Downloads, the installation of a changed base game, the snapshot of the new files, their
-- verification and the results of the writes at the end are parameters. The report and the events are
-- left out. The index is replaced by `atomic_json`; the writes of the selections and of the
-- specification fail, if they do, with the old document in place: that the old one is removed and the
-- rename after that fails is left out, and so are a staging directory that is removed in part and
-- failures of the journal.
pub mod Finalized
pub mod Begun
pub mod Laws
pub mod Moved
pub mod Files
pub mod Guards
use central_core.Prelude.{
  ℕ, Bool, true, false, ◌&&◌, ◌||◌, not, Option, none, some, List, [], ◌∷◌, ◌++◌, retain, Text,
  TextMap, text_eq, insert, remove_key, contains, ◌==◌, if◌then◌else◌,
}
use central_core.Errors.{Error, ProviderError, Result, ok, err, ◌>>=◌, ◌>>◌, reject}
use central_core.Cache.{ManagedFile, ManagedFileIndex, ManagedFileOrigin}
use central_core.Providers.Manifest.{ProviderInstanceDefinition}
use central_core.Providers.Components.Selection.{ComponentSelections, initialize_selections}
use central_core.Providers.Update.Tree.{Tree, followed}
use central_core.Providers.Storage.{Write, outcome_of}
use central_core.Providers.Update.Transaction.{
  Trees, Applied, committed, restored, stuck, abandoned, apply_files,
}
use central_core.Providers.Update.Desired.{is_in_instance, is_provider_owned}
use central_core.Providers.Update.Plan.{UpdatePlan, action_paths, removal_paths, insert_all}

pub data PersistedInstallStatus : Type 0 where
  installing updating installed broken interrupted : PersistedInstallStatus

pub data TransactionState : Type 0 where
  created preparing downloading applying validating finalizing committing : TransactionState
  done cancelled failed : TransactionState

module _ (Url Spec : Type 0) where
  -- The directory `runtime/update-<transaction>`.
  pub record Staging : Type 0 where
    pub staged : Tree
    pub backups : Tree
    pub previous_spec : Option Spec
    pub previous_index : Option (ManagedFileIndex Url)

  pub record OnDisk : Type 0 where
    pub instance_files : Tree
    pub spec : Spec
    pub index : ManagedFileIndex Url
    pub selections : ComponentSelections
    pub status : PersistedInstallStatus
    pub journal : TransactionState
    pub staging : TextMap Staging

  -- What the update calls.
  pub record Calls : Type 0 where
    pub stage : UpdatePlan Url → Result (Unit {0}) × Tree
    pub load_index : ManagedFileIndex Url → Result (Unit {0})
    pub replace_spec : Spec → Result (Unit {0})
    pub install :
        Spec → Tree → ManagedFileIndex Url → Result (Unit {0}) × (Tree × ManagedFileIndex Url)
    pub snapshot : UpdatePlan Url → Tree → Result (List (ManagedFile Url))
    pub is_healthy : ManagedFileIndex Url → Tree → Result Bool
    pub write_index : ManagedFileIndex Url → Write
    pub register : ManagedFileIndex Url → Result (Unit {0})
    pub write_selections : ComponentSelections → Result (Unit {0})
    pub cleanup : Text → Result (Unit {0})
    pub is_cancelled : Bool

abbrev is_base_origin : ManagedFileOrigin → Bool
is_base_origin ManagedFileOrigin.minecraft = true
is_base_origin ManagedFileOrigin.loader = true
is_base_origin ManagedFileOrigin.provider = false
is_base_origin ManagedFileOrigin.user_optional = false
is_base_origin (ManagedFileOrigin.component id) = false

module _ {Url : Type 0} where
  pub instance_paths : List (ManagedFile Url) → List Text
  instance_paths [] = []
  instance_paths (x ∷ xs) =
      let rest = instance_paths xs in
      if is_in_instance x.location then x.path.value ∷ rest else rest

  unfoldable pub base_removals : List (ManagedFile Url) → List Text → List Text
  base_removals [] new_paths = []
  base_removals (x ∷ xs) new_paths =
      let rest = base_removals xs new_paths in
      if is_in_instance x.location
        && is_base_origin x.origin
        && not (contains x.path.value new_paths)
      then x.path.value ∷ rest
      else rest

  abbrev pub changed_paths : UpdatePlan Url → List Text
  changed_paths plan = action_paths (plan.downloads ++ plan.replacements)

  abbrev pub backup_paths : UpdatePlan Url → List Text → List Text
  backup_paths plan base_removal_paths =
      insert_all base_removal_paths
        (insert_all (removal_paths plan.removals ++ action_paths plan.replacements) [])

  -- The index after the update: the provider's files are replaced by the new ones.
  unfoldable pub updated_index :
      UpdatePlan Url → List (ManagedFile Url) → ManagedFileIndex Url → ManagedFileIndex Url
  unfolding is_provider_owned
  updated_index plan additions index = record index {
    files = retain (λ x. not (is_provider_owned x plan.instance)) index.files ++ additions;
  }

module _ {Url Spec : Type 0} (calls : Calls Url Spec) (transaction : Text)
    (plan : UpdatePlan Url) where
  -- The trees are written back into the staging directory.
  abbrev pub with_trees : OnDisk Url Spec → Staging Url Spec → Trees → OnDisk Url Spec
  with_trees s staging t = record s {
    instance_files = t.instance_files;
    staging =
        insert transaction (record staging { staged = t.staged; backups = t.backups }) s.staging;
  }

  -- Finalizing: each document is written, and at last the staging directory is removed. A changed base
  -- game has its specification already.
  abbrev pub finish : OnDisk Url Spec → Result (Unit {0}) × OnDisk Url Spec
  finish s =
      followed (calls.cleanup transaction, s)
        (λ s. (ok tt, record s { staging = remove_key transaction s.staging }))

  abbrev pub finish_spec : Spec → OnDisk Url Spec → Result (Unit {0}) × OnDisk Url Spec
  finish_spec target_spec s =
      if plan.base_game_changed
      then finish s
      else followed (calls.replace_spec target_spec, s)
          (λ s. finish (record s { spec = target_spec }))

  abbrev pub finish_selections : Spec → OnDisk Url Spec → Result (Unit {0}) × OnDisk Url Spec
  finish_selections target_spec s =
      followed (calls.write_selections plan.selections, s)
        (λ s. finish_spec target_spec (record s { selections = plan.selections }))

  unfoldable pub finalized :
      Spec → ManagedFileIndex Url → OnDisk Url Spec → Result (Unit {0}) × OnDisk Url Spec
  finalized target_spec index s =
      followed (outcome_of (calls.write_index index) s (record s { index = index }))
        (λ s. followed (calls.register index, s) (finish_selections target_spec))

  -- The index with a snapshot of the new files, and whether the files verify.
  unfoldable pub indexed : OnDisk Url Spec → Trees → Result (ManagedFileIndex Url)
  unfolding updated_index
  indexed s t = do
    calls.load_index s.index
    additions ← calls.snapshot plan t.instance_files
    ok (updated_index plan additions s.index)

  unfoldable pub verify : OnDisk Url Spec → Trees → Result Bool
  unfolding indexed
  verify s t = do index ← indexed s t; calls.is_healthy index t.instance_files

  -- The files verified with this index.
  abbrev pub with_index :
      Spec → Result (ManagedFileIndex Url) → OnDisk Url Spec → Result (Unit {0}) × OnDisk Url Spec
  with_index target_spec (err e) s = (err e, s)
  with_index target_spec (ok index) s =
      finalized target_spec index (record s { journal = finalizing })

  abbrev pub after_files :
      Spec
      → OnDisk Url Spec
      → Staging Url Spec
      → Applied × Trees
      → Result (Unit {0}) × OnDisk Url Spec
  after_files target_spec s staging (committed, t) =
      with_index target_spec (indexed s t) (with_trees s staging t)
  after_files target_spec s staging (restored e, t) = (err e, with_trees s staging t)
  after_files target_spec s staging (stuck e, t) = (err e, with_trees s staging t)
  after_files target_spec s staging (abandoned e, t) = (err e, with_trees s staging t)

  -- From `TransactionState::Applying` on.
  unfoldable pub apply_moves :
      Spec → List Text → Staging Url Spec → OnDisk Url Spec → Result (Unit {0}) × OnDisk Url Spec
  unfolding apply_files finalized verify
  apply_moves target_spec base_removal_paths staging s =
      if calls.is_cancelled
      then (err Error.cancelled, s)
      else after_files target_spec s staging (
          apply_files (verify s) (changed_paths plan) (backup_paths plan base_removal_paths)
            (record {
              instance_files = s.instance_files;
              staged = staging.staged;
              backups = staging.backups;
            }))

  abbrev pub after_install :
      Spec
      → Staging Url Spec
      → OnDisk Url Spec
      → Result (Unit {0}) × (Tree × ManagedFileIndex Url)
      → Result (Unit {0}) × OnDisk Url Spec
  after_install target_spec staging s (err e, (tree, index)) =
      (err e, record s { instance_files = tree; index = index })
  after_install target_spec staging s (ok u, (tree, index)) =
      let old_files = s.index.files in
      followed
        (
          calls.load_index index,
          record s { instance_files = tree; index = index; status = updating },
        )
        (λ s.
          apply_moves target_spec (base_removals old_files (instance_paths index.files)) staging
            (record s { journal = applying }))

  -- A changed base game gets its specification first, and is installed.
  unfoldable pub install_base :
      Spec → Staging Url Spec → OnDisk Url Spec → Result (Unit {0}) × OnDisk Url Spec
  unfolding apply_moves base_removals instance_paths
  install_base target_spec staging s =
      followed (calls.load_index s.index >> calls.replace_spec target_spec, s)
        (λ s.
          after_install target_spec staging (record s { spec = target_spec })
            (calls.install target_spec s.instance_files s.index))

  unfoldable pub apply_base :
      Spec → Staging Url Spec → OnDisk Url Spec → Result (Unit {0}) × OnDisk Url Spec
  unfolding apply_moves install_base
  apply_base target_spec staging s =
      if plan.base_game_changed
      then install_base target_spec staging s
      else apply_moves target_spec [] staging (record s { journal = applying })

  abbrev pub with_spec :
      Staging Url Spec → OnDisk Url Spec → Result Spec → Result (Unit {0}) × OnDisk Url Spec
  with_spec staging s (err e) = (err e, s)
  with_spec staging s (ok target_spec) = apply_base target_spec staging s

  abbrev pub after_stage :
      Result Spec
      → OnDisk Url Spec
      → Staging Url Spec
      → Result (Unit {0}) × Tree
      → Result (Unit {0}) × OnDisk Url Spec
  after_stage target_spec s staging (r, tree) =
      let staging = record staging { staged = tree } in
      let s = record s { staging = insert transaction staging s.staging; journal = downloading } in
      elim r [ err e ↦ (err e, s) | ok u ↦ with_spec staging s target_spec ]

  -- `target_spec` is what `local_spec` of the definition gives.
  unfoldable pub apply_update_unlocked :
      Result Spec → OnDisk Url Spec → Result (Unit {0}) × OnDisk Url Spec
  unfolding apply_base
  apply_update_unlocked target_spec s =
      after_stage target_spec s
        (record {
          staged = [];
          backups = [];
          previous_spec = some s.spec;
          previous_index = some s.index;
        })
        (calls.stage plan)

-- Equality of `ComponentSelections`, on the choices
abbrev pub same_choices : TextMap Bool → TextMap Bool → Bool
same_choices [] [] = true
same_choices [] ((k, v) ∷ n) = false
same_choices ((j, u) ∷ m) [] = false
same_choices ((j, u) ∷ m) ((k, v) ∷ n) =
    text_eq j k && ((u && v) || (not u && not v)) && same_choices m n

module _ {Url Spec : Type 0} (calls : Calls Url Spec) (transaction : Text)
    (plan : UpdatePlan Url) where
  -- What `apply_update` makes of the result.
  abbrev pub settled : Result (Unit {0}) × OnDisk Url Spec → Result (Unit {0}) × OnDisk Url Spec
  settled (ok u, s) = (ok tt, record s { status = installed; journal = done })
  settled (err e, s) = (
    err e,
    record s { status = interrupted; journal = if calls.is_cancelled then cancelled else failed },
  )

  abbrev pub when_current :
      Result (Unit {0}) → Result Spec → OnDisk Url Spec → Result (Unit {0}) × OnDisk Url Spec
  when_current (err e) target_spec s = (err e, s)
  when_current (ok u) target_spec s = settled (
      apply_update_unlocked calls transaction plan target_spec
        (record s { status = updating; journal = preparing }))

  -- The plan is refused when what it was made from has changed.
  unfoldable pub check_plan :
      (is_running : Bool) (installed_revision : Spec → ℕ)
      → ProviderInstanceDefinition Url
      → OnDisk Url Spec
      → Result (Unit {0})
  unfolding initialize_selections
  check_plan is_running installed_revision definition s =
      let selections = initialize_selections definition.components s.selections in
      do
        reject is_running
            (Error.static_provider (ProviderError.instance_running plan.local_instance_id))
        reject (not (definition.revision == plan.to_revision)) (
            Error.static_provider
              (ProviderError.stale_update_plan plan.to_revision definition.revision))
        reject (not (installed_revision s.spec == plan.from_revision)) (
            Error.static_provider (
              ProviderError.stale_installed_revision plan.from_revision
                (installed_revision s.spec)))
        reject
            (not (
              selections.format_version == plan.expected_selections.format_version
              && same_choices selections.components plan.expected_selections.components))
            (Error.static_provider ProviderError.stale_component_selections)

  unfoldable pub apply_update :
      (is_running : Bool) (installed_revision : Spec → ℕ) (target_spec : Result Spec)
      → ProviderInstanceDefinition Url
      → OnDisk Url Spec
      → Result (Unit {0}) × OnDisk Url Spec
  unfolding check_plan apply_update_unlocked
  apply_update is_running installed_revision target_spec definition s =
      when_current (check_plan is_running installed_revision definition s) target_spec s
