-- ===== src/Providers/Update/Transaction.antt =====
-- providers/service.rs, the file transaction of `apply_update_unlocked`: `move_to_backup`,
-- `move_staged_into_instance` and `rollback_update_files`. The instance, the staged files and the
-- backups are trees of their own. An operation gives its result and the trees after it. What is on
-- the disk can make an operation fail, such as a path below a file; other failures of the disk are
-- not modelled, and what a link to a directory leads to counts as missing.
pub mod Moves
pub mod Rollback
pub mod Backups
pub mod Laws
mod Tests
use central_core.Prelude.{
  ◌≡◌, refl, Bool, true, false, Option, none, some, List, [], ◌∷◌, ◌++◌, map, Text, get, insert,
  remove_key, insert_set, if◌then◌else◌, any, split,
}
use mathlib.Core.List.{reverse, foldl}
use central_core.Errors.{Error, ProviderError, Result, ok, err}
use central_core.Files.Path
use central_core.Files.Path.{SafeRelativePath}
use central_core.Providers.Update.Tree.{
  Entry, directory, file, symlink, Tree, exists, unsafe_entry, ensure_real_parents, followed,
  parents,
}

pub record Trees : Type 0 where
  pub instance_files : Tree
  pub staged : Tree
  pub backups : Tree

abbrev pub Outcome : Type 0
Outcome = Result (Unit {0}) × Trees

-- `SafeRelativePath::new(path)?`
abbrev pub with_path : Text → Trees → (Text → Outcome) → Outcome
with_path path s next = elim (Path.new path) [
  | err e ↦ (err e, s)
  | ok relative ↦ next relative.value
]

-- `symlink_metadata`: below a file it fails, and not because nothing is found.
abbrev is_file_entry : Option Entry → Bool
is_file_entry none = false
is_file_entry (some directory) = false
is_file_entry (some (file c)) = true
is_file_entry (some (symlink b)) = false

unfoldable pub is_below_file : Text → Tree → Bool
unfolding parents
is_below_file path tree =
    any (λ parent. is_file_entry (get parent tree)) (parents [] (split 0x2f path))

abbrev pub with_metadata : Text → Tree → Trees → (Option Entry → Outcome) → Outcome
with_metadata path tree s next =
    if is_below_file path tree then (err Error.io, s) else next (get path tree)

-- `rename` onto a directory fails, and replaces anything else.
abbrev is_directory : Option Entry → Bool
is_directory none = false
is_directory (some directory) = true
is_directory (some (file c)) = false
is_directory (some (symlink b)) = false

abbrev pub rename_failed : Error
rename_failed = Error.io

-- `rename(source, backup)`
unfoldable pub rename_to_backup : Text → Text → Result (Unit {0}) × Tree → Trees → Outcome
rename_to_backup path c (err e, backups) s = (err e, record s { backups = backups })
rename_to_backup path c (ok u, backups) s =
    if is_directory (get path backups)
    then (err rename_failed, record s { backups = backups })
    else (
      ok tt,
      record s {
        instance_files = remove_key path s.instance_files;
        backups = insert path (file c) backups;
      },
    )

unfoldable pub backup_entry : Text → Option Entry → Trees → Outcome
unfolding rename_to_backup
backup_entry path none s = (ok tt, s)
backup_entry path (some (file c)) s = rename_to_backup path c (ensure_real_parents path s.backups) s
backup_entry path (some directory) s = (err (unsafe_entry path), s)
backup_entry path (some (symlink b)) s = (err (unsafe_entry path), s)

unfoldable pub move_to_backup : Text → Trees → Outcome
unfolding backup_entry is_below_file
move_to_backup path s =
    with_path path s (λ relative.
      with_metadata relative s.instance_files s (λ entry. backup_entry relative entry s))

unfoldable pub rename_staged : Text → Text → Result (Unit {0}) × Tree → Trees → Outcome
rename_staged path c (err e, instance_files) s =
    (err e, record s { instance_files = instance_files })
rename_staged path c (ok u, instance_files) s =
    if exists (get path instance_files)
    then (
      err (Error.static_provider (ProviderError.managed_path_conflict path)),
      record s { instance_files = instance_files },
    )
    else (
      ok tt,
      record s {
        instance_files = insert path (file c) instance_files;
        staged = remove_key path s.staged;
      },
    )

unfoldable pub staged_entry : Text → Option Entry → Trees → Outcome
unfolding rename_staged
staged_entry path none s = (err Error.io, s)
staged_entry path (some (file c)) s =
    rename_staged path c (ensure_real_parents path s.instance_files) s
staged_entry path (some directory) s = (err (unsafe_entry path), s)
staged_entry path (some (symlink b)) s = (err (unsafe_entry path), s)

unfoldable pub move_staged_into_instance : Text → Trees → Outcome
unfolding staged_entry
move_staged_into_instance path s =
    with_path path s (λ relative. staged_entry relative (get relative s.staged) s)

-- `rollback_update_files`: the files that were applied are removed, the last one first ...
unfoldable pub remove_entry : Text → Option Entry → Trees → Outcome
remove_entry path none s = (ok tt, s)
remove_entry path (some (file c)) s =
    (ok tt, record s { instance_files = remove_key path s.instance_files })
remove_entry path (some directory) s = (err (unsafe_entry path), s)
remove_entry path (some (symlink b)) s = (err (unsafe_entry path), s)

unfoldable pub remove_applied : Text → Trees → Outcome
unfolding remove_entry is_below_file
remove_applied path s =
    with_path path s (λ relative.
      with_metadata relative s.instance_files s (λ entry. remove_entry relative entry s))

-- ... and the backups that are there are moved back.
unfoldable pub rename_back : Text → Entry → Result (Unit {0}) × Tree → Trees → Outcome
rename_back path entry (err e, instance_files) s =
    (err e, record s { instance_files = instance_files })
rename_back path entry (ok u, instance_files) s =
    if is_directory (get path instance_files)
    then (err rename_failed, record s { instance_files = instance_files })
    else (
      ok tt,
      record s {
        instance_files = insert path entry instance_files;
        backups = remove_key path s.backups;
      },
    )

-- A backup path never names a directory of the backups: if another path lies below it, then it comes
-- before that path in their order, and `move_to_backup` refuses it. The move of one counts as failed.
unfoldable pub restore_entry : Text → Option Entry → Trees → Outcome
unfolding rename_back
restore_entry path none s = (ok tt, s)
restore_entry path (some directory) s = (err rename_failed, s)
restore_entry path (some (file c)) s =
    rename_back path (file c) (ensure_real_parents path s.instance_files) s
restore_entry path (some (symlink false)) s = (ok tt, s)
restore_entry path (some (symlink true)) s =
    rename_back path (symlink true) (ensure_real_parents path s.instance_files) s

unfoldable pub restore_backup : Text → Trees → Outcome
unfolding restore_entry is_below_file
restore_backup path s =
    with_path path s
      (λ relative. with_metadata relative s.backups s (λ entry. restore_entry relative entry s))

-- A loop over paths that stops at the first error.
unfoldable pub each : (Text → Trees → Outcome) → List Text → Trees → Outcome
each f [] s = (ok tt, s)
each f (path ∷ paths) s = followed (f path s) (each f paths)

unfoldable pub rollback_update_files : List Text → List Text → Trees → Outcome
unfolding each remove_applied restore_backup
rollback_update_files applied_paths backup_paths s =
    followed (each remove_applied (reverse applied_paths) s) (each restore_backup backup_paths)

-- What the update comes to: an error after a rollback, an error of the rollback itself, or an error
-- of the verification, after which there is no rollback. The source returns the error in each case.
pub data Applied : Type 0 where
  committed : Applied
  restored : Error → Applied
  stuck : Error → Applied
  abandoned : Error → Applied

abbrev pub rolled_back : Error → Outcome → Applied × Trees
rolled_back e (ok u, s) = (restored e, s)
rolled_back e (err x, s) = (stuck x, s)

abbrev pub with_applied : List Text → Applied × Trees → Applied × List Text × Trees
with_applied applied_paths (a, s) = (a, applied_paths, s)

abbrev pub after_move :
    List Text
    → List Text
    → Outcome
    → (Trees → Applied × List Text × Trees)
    → Applied × List Text × Trees
after_move backup_paths applied_paths (ok u, s) next = next s
after_move backup_paths applied_paths (err e, s) next =
    with_applied applied_paths (rolled_back e (rollback_update_files applied_paths backup_paths s))

-- The loop of `move_staged_into_instance`, with the paths applied so far.
unfoldable pub apply_staged :
    List Text → List Text → List Text → Trees → Applied × List Text × Trees
unfolding rollback_update_files
apply_staged backup_paths applied_paths [] s = (committed, applied_paths, s)
apply_staged backup_paths applied_paths (path ∷ paths) s =
    after_move backup_paths applied_paths (move_staged_into_instance path s)
      (apply_staged backup_paths (applied_paths ++ (path ∷ [])) paths)

-- The verification of the files after the update is a parameter: it reads the index, takes the
-- snapshot of the new files and runs `verify_index`. If one of them fails, the update returns.
abbrev pub verified : Result Bool → List Text → Applied × List Text × Trees → Applied × Trees
verified (ok true) backup_paths (committed, applied_paths, s) = (committed, s)
verified (ok false) backup_paths (committed, applied_paths, s) =
    rolled_back Error.final_verification (rollback_update_files applied_paths backup_paths s)
verified (err e) backup_paths (committed, applied_paths, s) = (abandoned e, s)
verified is_healthy backup_paths (restored e, applied_paths, s) = (restored e, s)
verified is_healthy backup_paths (stuck e, applied_paths, s) = (stuck e, s)
verified is_healthy backup_paths (abandoned e, applied_paths, s) = (abandoned e, s)

abbrev pub after_backups : (Trees → Result Bool) → List Text → List Text → Outcome → Applied × Trees
after_backups is_healthy changed_paths backup_paths (err e, s) =
    rolled_back e (rollback_update_files [] backup_paths s)
after_backups is_healthy changed_paths backup_paths (ok u, s) =
    let out = apply_staged backup_paths [] changed_paths s in
    verified (is_healthy out.2) backup_paths out

-- The moves of `apply_update_unlocked`: backups of what is removed or replaced, then the downloads
-- and replacements, then the verification.
unfoldable pub apply_files :
    (Trees → Result Bool) → (changed_paths backup_paths : List Text) → Trees → Applied × Trees
unfolding each move_to_backup apply_staged
apply_files is_healthy changed_paths backup_paths s =
    after_backups is_healthy changed_paths backup_paths (each move_to_backup backup_paths s)
