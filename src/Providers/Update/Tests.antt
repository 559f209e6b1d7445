-- ===== src/Providers/Update/Tests.antt =====
-- An update to a definition that keeps one file, adds one, replaces one and drops one.
use mathlib.Core.List.{Memᴰ}
use central_core.Providers.Storage.{written}
use central_core.Providers.Components.Resolve.{ResolvedComponentSet, resolve_components}
use central_core.Providers.Update.Desired.Wanted.{WantedAt, of_definition, of_component}
use central_core.Providers.Update.Plan.Laws.{Has}
use central_core.Providers.Update.Recovery.{restore_backup_tree}
use central_core.Providers.Update.Recovery.Laws.{HasDistinctKeys}
use central_core.Providers.Update.Recovery.Orphan.{restore_backup_tree-orphan}
use central_core.Prelude.{
  List, sym, text_eq_iff, ◌++◌, ◌≢◌, ◌∙◌, subst, contains, is_some, ℕ, ◌≡◌, ◌&&◌, refl, Bool, true,
  false, none, some, [], ◌∷◌, Text, String, text, text_eq, ◌==◌, strings, maps, len,
}
use central_core.Errors.{Error, ok, err}
use central_core.Files.Path.{SafeRelativePath}
use central_core.Files.Hash.{FileHash, HashAlgorithm}
use central_core.Cache.{
  ManagedFile, ManagedFileIndex, ManagedFileOrigin, ManagedFileLocation, ManagedFileKind,
}
use central_core.Providers.Ids.{ProviderInstanceId}
use central_core.Providers.Model.{
  ProviderFile, ProviderResource, ProviderComponent, ComponentRequirement,
}
use central_core.Providers.Manifest.{ProviderInstanceDefinition}
use central_core.Providers.Components.Selection.{ComponentSelections}
use central_core.Providers.Update.Tree.{directory, file, file_at, ensure_real_parents}
use central_core.Files.Path
use central_core.Providers.Update.Transaction.{
  Trees, each, is_below_file, move_to_backup, move_staged_into_instance, rollback_update_files,
}
use central_core.Providers.Update.Plan.{UpdatePlan, plan_update_with}
use central_core.Providers.Update.Plan.Laws.{IsDifference, plan_update_with-IsDifference}
use central_core.Providers.Update.Apply.{
  OnDisk, Calls, PersistedInstallStatus, TransactionState, apply_update, apply_update_unlocked,
}
use central_core.Providers.Update.Apply.Guards.{IsSettled, apply_update-IsSettled}
use central_core.Providers.Update.Apply.Files.{is_wanted, apply_update_unlocked-wanted}
use central_core.Providers.Update.Recovery.Abandoned.{restore_abandoned_update}
use central_core.Providers.Update.Recovery.Stale.{restore_abandoned_update-stale}

abbrev digest : String → FileHash
digest s = record { algorithm = HashAlgorithm.sha256; value = text s }

abbrev provided : String → ℕ → String → ProviderFile Text
provided id size hash = record {
  id = text id;
  path = record { value = text id };
  source = ProviderResource.remote (text "u");
  size = size;
  sha256 = digest hash;
  required = true;
}

abbrev extra : ProviderComponent Text
extra = record {
  id = text "extra";
  name = text "Extra";
  description = none;
  requirement = ComponentRequirement.optional;
  default_enabled = true;
  requires = [];
  conflicts = [];
  files = provided "c" 1 "5" ∷ [];
}

abbrev definition : ProviderInstanceDefinition Text
definition = record {
  id = text "i";
  name = text "I";
  description = none;
  revision = 2;
  minecraft_version = text "1";
  loader = none;
  java_memory = none;
  server = none;
  authentication = record { required = false; providers = [] };
  files = provided "a" 1 "4" ∷ provided "k" 1 "9" ∷ [];
  components = extra ∷ [];
}

abbrev managed : String → String → String → ManagedFile Text
managed id path hash = record {
  id = text id;
  location = ManagedFileLocation.instance_root;
  path = record { value = text path };
  kind = ManagedFileKind.other;
  origin = ManagedFileOrigin.provider;
  expected_size = some 1;
  expected_hash = some (digest hash);
  source = none;
  source_path = none;
  repair_from = none;
  verified_size = 1;
  verified_modified_unix_nanos = none;
}

abbrev index : ManagedFileIndex Text
index = record {
  format_version = 1;
  instance_id = text "l";
  version_id = text "1";
  files =
      managed "provider-file:p:i:a" ".minecraft/a" "1"
      ∷ managed "provider-file:p:i:k" ".minecraft/k" "9"
      ∷ managed "provider-file:p:i:o" ".minecraft/o" "3"
      ∷ [];
  native_archives = [];
}

abbrev key : ProviderInstanceId
key = record { provider_id = text "p"; instance_id = text "i" }

abbrev choices : ComponentSelections
choices = record { format_version = 1; components = [] }

abbrev the_plan : UpdatePlan Text
the_plan = record {
  instance = key;
  local_instance_id = text "l";
  from_revision = 1;
  to_revision = 2;
  keep =
      record {
        id = text "k";
        path = text ".minecraft/k";
        component_id = none;
        size = 1;
        sha256 = digest "9";
      }
      ∷ [];
  downloads =
      record {
        id = text "c";
        path = text ".minecraft/c";
        component_id = some (text "extra");
        size = 1;
        sha256 = digest "5";
      }
      ∷ [];
  replacements =
      record {
        id = text "a";
        path = text ".minecraft/a";
        component_id = none;
        size = 1;
        sha256 = digest "4";
      }
      ∷ [];
  removals =
      record { id = text "provider-file:p:i:o"; path = text ".minecraft/o"; component_id = none }
      ∷ [];
  optional_changes = record { component_id = text "extra"; enabled = true } ∷ [];
  base_downloads = 0;
  base_download_size = some 0;
  download_size = 2;
  base_game_changed = false;
  desired_files =
      record { wanted = provided "a" 1 "4"; component_id = none }
      ∷ record { wanted = provided "k" 1 "9"; component_id = none }
      ∷ record { wanted = provided "c" 1 "5"; component_id = some (text "extra") }
      ∷ [];
  selections = choices;
  expected_selections = choices;
}

planned :
    plan_update_with (text "l") 1 key definition choices choices none index ≡ some (ok the_plan)
unfolding plan_update_with strings maps
planned = refl

abbrev resolved : ResolvedComponentSet
resolved = record {
  enabled = text "extra" ∷ [];
  statuses =
      record {
        id = text "extra";
        name = text "Extra";
        description = none;
        requirement = ComponentRequirement.optional;
        selected = true;
        enabled = true;
        enabled_by = [];
      }
      ∷ [];
}

resolves : resolve_components definition.components choices ≡ some (ok resolved)
unfolding resolve_components strings maps
resolves = refl

plan_update_with-IsDifference_example :
    IsDifference key index.files definition resolved the_plan (text ".minecraft/a")
plan_update_with-IsDifference_example =
    plan_update_with-IsDifference (text "l") 1 key definition choices choices none index resolved
      the_plan (text ".minecraft/a") resolves planned

-- A specification is its revision, and the hash of a content is the content.
abbrev calls : Calls Text ℕ
calls = record {
  stage = λ plan. (
    ok tt,
    (text ".minecraft", directory)
        ∷ (text ".minecraft/a", file (text "4"))
        ∷ (text ".minecraft/c", file (text "5"))
        ∷ [],
  );
  install = λ spec tree old. (ok tt, (tree, old));
  load_index = λ old. ok tt;
  replace_spec = λ spec. ok tt;
  snapshot = λ plan tree. ok (managed "provider-file:p:i:a" ".minecraft/a" "4" ∷ []);
  is_healthy = λ new tree. ok true;
  write_index = λ new. written;
  register = λ new. ok tt;
  write_selections = λ selections. ok tt;
  cleanup = λ transaction. ok tt;
  is_cancelled = false;
}

abbrev sick : Calls Text ℕ
sick = record calls { is_healthy = λ new tree. ok false }

abbrev on_disk : OnDisk Text ℕ
on_disk = record {
  instance_files =
      (text ".minecraft", directory)
      ∷ (text ".minecraft/a", file (text "1"))
      ∷ (text ".minecraft/k", file (text "9"))
      ∷ (text ".minecraft/mine", file (text "8"))
      ∷ (text ".minecraft/o", file (text "3"))
      ∷ [];
  spec = 1;
  index = index;
  selections = choices;
  status = PersistedInstallStatus.updating;
  journal = TransactionState.preparing;
  staging = [];
}

abbrev has_digest : ℕ → FileHash → Text → Bool
has_digest size hash content = len content == size && text_eq hash.value content

-- Everything that an update runs.
unfoldable update_runs : Unit {0}
unfolding apply_update_unlocked restore_abandoned_update is_below_file Path.new ensure_real_parents
    move_to_backup move_staged_into_instance rollback_update_files strings maps
update_runs = tt

updated_disk : OnDisk Text ℕ
unfolding update_runs
updated_disk = (apply_update_unlocked calls (text "1-1") the_plan (ok 2) on_disk).1

updates : apply_update_unlocked calls (text "1-1") the_plan (ok 2) on_disk ≡ (ok tt, updated_disk)
unfolding update_runs updated_disk
updates = refl

abbrev path : Text
path = text ".minecraft/c"

differs : (s t : Text) → text_eq s t ≡ false → s ≡ t → ⊥
differs s t apart same = absurd (cc (apart, (text_eq_iff s t).1 same))

-- One file is wanted there, and the index has none there.
only_c : (f : ProviderFile Text) → WantedAt definition resolved path f → f ≡ provided "c" 1 "5"
unfolding strings maps
only_c f (of_definition (Memᴰ.head e), at) = absurd (
    differs _ _ refl
      (subst (λ (x : ProviderFile Text). text ".minecraft/" ++ x.path.value ≡ path) e at))
only_c f (of_definition (Memᴰ.tail (Memᴰ.head e)), at) = absurd (
    differs _ _ refl
      (subst (λ (x : ProviderFile Text). text ".minecraft/" ++ x.path.value ≡ path) e at))
only_c f (of_definition (Memᴰ.tail (Memᴰ.tail x)), at) = elim x [ ]
only_c f (of_component c (Memᴰ.tail x) on there, at) = elim x [ ]
only_c f (of_component c (Memᴰ.head e) on (there), at) =
    only_file f (subst (λ (x : ProviderComponent Text). Memᴰ f x.files) e there)
  where
    only_file : (g : ProviderFile Text) → Memᴰ g extra.files → g ≡ provided "c" 1 "5"
    only_file g (Memᴰ.head same) = same
    only_file g (Memᴰ.tail x) = elim x [ ]

none_owned : (e : ManagedFile Text) → Has key index.files path e → ⊥
unfolding strings
none_owned e (Memᴰ.head same, owned) =
    differs _ _ refl (subst (λ (x : ManagedFile Text). x.path.value ≡ path) same owned.path)
none_owned e (Memᴰ.tail (Memᴰ.head same), owned) =
    differs _ _ refl (subst (λ (x : ManagedFile Text). x.path.value ≡ path) same owned.path)
none_owned e (Memᴰ.tail (Memᴰ.tail (Memᴰ.head same)), owned) =
    differs _ _ refl (subst (λ (x : ManagedFile Text). x.path.value ≡ path) same owned.path)
none_owned e (Memᴰ.tail (Memᴰ.tail (Memᴰ.tail x)), owned) = elim x [ ]

staged_c : is_wanted has_digest (provided "c" 1 "5") (file_at path (calls.stage the_plan).1) ≡ true
unfolding update_runs
staged_c = refl

apply_update_unlocked-wanted_example :
    ((f : ProviderFile Text)
      → WantedAt definition resolved path f
      → is_wanted has_digest f (file_at path updated_disk.instance_files) ≡ true)
    × (((f : ProviderFile Text) → WantedAt definition resolved path f → ⊥)
        → ((e : ManagedFile Text)
            → Has key index.files path e
            → file_at path updated_disk.instance_files ≡ none)
          × (((e : ManagedFile Text) → Has key index.files path e → ⊥)
              → file_at path updated_disk.instance_files ≡ file_at path on_disk.instance_files))
apply_update_unlocked-wanted_example =
    apply_update_unlocked-wanted has_digest calls (text "1-1") (text "l") 1 key definition choices
      choices none resolved the_plan (ok 2) on_disk updated_disk path resolves planned refl
      (λ f g v w. only_c f v ∙ sym (only_c g w))
      (λ f w changed.
        subst
          (λ (x : ProviderFile Text).
            is_wanted has_digest x (file_at path (calls.stage the_plan).1) ≡ true)
          (sym (only_c f w)) staged_c)
      (λ e f owned same. absurd (none_owned e owned)) updates

-- An update is abandoned when its files are moved, and recovered.
abbrev first_trees : Trees
first_trees = record {
  instance_files = on_disk.instance_files;
  staged = (calls.stage the_plan).1;
  backups = [];
}

abbrev first_backups : List Text
first_backups = text ".minecraft/a" ∷ text ".minecraft/o" ∷ []

abbrev first_moves : List Text
first_moves = path ∷ text ".minecraft/a" ∷ []

saved_trees : Trees
unfolding update_runs
saved_trees = (each move_to_backup first_backups first_trees).1

saves : each move_to_backup first_backups first_trees ≡ (ok tt, saved_trees)
unfolding update_runs saved_trees each
saves = refl

moved_trees : Trees
unfolding update_runs saved_trees
moved_trees = (each move_staged_into_instance first_moves saved_trees).1

moves : each move_staged_into_instance first_moves saved_trees ≡ (ok tt, moved_trees)
unfolding update_runs saved_trees moved_trees each
moves = refl

restored_trees : Trees
unfolding update_runs moved_trees
restored_trees = (restore_backup_tree moved_trees).1

restores : restore_backup_tree moved_trees ≡ (ok tt, restored_trees)
unfolding update_runs moved_trees restored_trees
restores = refl

distinct : HasDistinctKeys moved_trees.backups
unfolding update_runs saved_trees moved_trees each
distinct = (refl, (refl, (refl, tt)))

abbrev restored_disk : OnDisk Text ℕ
restored_disk = record on_disk { instance_files = restored_trees.instance_files }

moves_c : contains path first_moves ≡ true
unfolding strings maps
moves_c = refl

wants_c : WantedAt definition resolved path (provided "c" 1 "5")
unfolding strings maps
wants_c = (of_component extra (Memᴰ.head refl) refl (Memᴰ.head refl), refl)

restore_backup_tree-orphan_example :
    (is_some (file_at path restored_trees.instance_files) ≡ true)
    × ((apply_update_unlocked calls (text "1-3") the_plan (ok 2) restored_disk).0 ≢ ok tt)
restore_backup_tree-orphan_example =
    restore_backup_tree-orphan calls first_backups first_moves first_trees saved_trees moved_trees
      restored_trees path (text "1-3") (text "l") 1 key definition choices choices resolved the_plan
      (ok 2) restored_disk (provided "c" 1 "5") saves moves moves_c distinct restores refl resolves
      planned refl wants_c none_owned

-- The first update fails, a second one succeeds, and then the disk is recovered.
failed_disk : OnDisk Text ℕ
unfolding update_runs
failed_disk = (apply_update_unlocked sick (text "1-1") the_plan (ok 2) on_disk).1

fails :
    apply_update_unlocked sick (text "1-1") the_plan (ok 2) on_disk
    ≡ (err Error.final_verification, failed_disk)
unfolding update_runs failed_disk
fails = refl

second_disk : OnDisk Text ℕ
unfolding update_runs failed_disk
second_disk = (apply_update_unlocked calls (text "1-2") the_plan (ok 3) failed_disk).1

succeeds :
    apply_update_unlocked calls (text "1-2") the_plan (ok 3) failed_disk ≡ (ok tt, second_disk)
unfolding update_runs failed_disk second_disk
succeeds = refl

recovered_disk : OnDisk Text ℕ
unfolding update_runs second_disk
recovered_disk = (restore_abandoned_update second_disk).1

recovers : restore_abandoned_update second_disk ≡ (ok tt, recovered_disk)
unfolding update_runs second_disk recovered_disk
recovers = refl

differ : text_eq (text "1-2") (text "1-1") ≡ false
unfolding strings
differ = refl

restore_abandoned_update-stale_example :
    (ok 3 ≡ ok second_disk.spec) × (recovered_disk.spec ≡ 1) × (recovered_disk.index ≡ index)
restore_abandoned_update-stale_example =
    restore_abandoned_update-stale sick calls (text "1-1") (text "1-2") the_plan the_plan (ok 2)
      (ok 3) Error.final_verification on_disk failed_disk second_disk recovered_disk refl differ
      fails succeeds recovers

-- The plan as `plan_update` makes it, with the defaults filled in.
abbrev current_plan : UpdatePlan Text
current_plan = record the_plan {
  expected_selections = record { format_version = 1; components = (text "extra", true) ∷ [] };
}

apply_update-IsSettled_example :
    IsSettled calls
      (text "1-1")
      current_plan
      false
      (λ r. r)
      (ok 2)
      definition
      on_disk
      (apply_update calls (text "1-1") current_plan false (λ r. r) (ok 2) definition on_disk)
apply_update-IsSettled_example =
    apply_update-IsSettled calls (text "1-1") current_plan false (λ r. r) (ok 2) definition on_disk

settles :
    (apply_update calls (text "1-1") current_plan false (λ r. r) (ok 2) definition on_disk).0
    ≡ ok tt
unfolding update_runs apply_update
settles = refl
