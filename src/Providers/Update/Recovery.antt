-- ===== src/Providers/Update/Recovery.antt =====
-- minecraft/recovery.rs, `restore_backup_tree`: after a restart the backups of an update that was
-- abandoned are moved over the files of the instance. The directories are walked in the order of the
-- paths; the order in which a system lists a directory is its own, and every file is moved once.
pub mod Laws
pub mod Abandoned
pub mod Stale
pub mod Orphan
use central_core.Prelude.{
  Bool, true, false, Option, none, some, List, [], ◌∷◌, Text, get, insert, remove_key,
  if◌then◌else◌, split,
}
use central_core.Errors.{Error, Result, ok, err}
use central_core.Providers.Update.Tree.{
  Entry, directory, file, symlink, Tree, unsafe_entry, ensure_real_parents, followed,
}
use central_core.Providers.Update.Transaction.{Trees, Outcome}

-- `try_exists`, and then the entry itself must be a file.
unfoldable pub check_destination : Text → Option Entry → Result (Unit {0})
check_destination path none = ok tt
check_destination path (some (file c)) = ok tt
check_destination path (some directory) = err (unsafe_entry path)
check_destination path (some (symlink false)) = ok tt
check_destination path (some (symlink true)) = err (unsafe_entry path)

abbrev pub replace_destination : Text → Text → Result (Unit {0}) → Tree → Trees → Outcome
replace_destination path c (err e) tree s = (err e, record s { instance_files = tree })
replace_destination path c (ok u) tree s = (
  ok tt,
  record s { instance_files = insert path (file c) tree; backups = remove_key path s.backups },
)

-- `ensure_recovery_parents` and what follows it
unfoldable pub recover_file : Text → Text → Result (Unit {0}) × Tree → Trees → Outcome
unfolding check_destination
recover_file path c (err e, tree) s = (err e, record s { instance_files = tree })
recover_file path c (ok u, tree) s =
    replace_destination path c (check_destination path (get path tree)) tree s

unfoldable pub recover_entry : Text → Entry → Trees → Outcome
unfolding recover_file
recover_entry path directory s = (ok tt, s)
recover_entry path (symlink b) s = (err (unsafe_entry path), s)
recover_entry path (file c) s = recover_file path c (ensure_real_parents path s.instance_files) s

unfoldable pub recover_entries : Tree → Trees → Outcome
unfolding recover_entry
recover_entries [] s = (ok tt, s)
recover_entries ((path, entry) ∷ entries) s =
    followed (recover_entry path entry s) (recover_entries entries)

unfoldable pub restore_backup_tree : Trees → Outcome
unfolding recover_entries
restore_backup_tree s = recover_entries s.backups s
