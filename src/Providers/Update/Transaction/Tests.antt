-- ===== src/Providers/Update/Transaction/Tests.antt =====
-- An update that replaces one mod, removes another and adds a third.
use central_core.Prelude.{
  ◌≡◌, refl, true, false, some, List, [], ◌∷◌, Text, text, strings, maps, is_some, contains,
}
use central_core.Errors.{ok}
use central_core.Files.Path
use central_core.Providers.Update.Tree.{directory, file, file_at, ensure_real_parents}
use central_core.Providers.Update.Transaction.{
  Trees, committed, apply_files, each, each, move_to_backup, move_staged_into_instance,
}
use central_core.Providers.Update.Transaction.Laws.{LeavesFiles, apply_files-LeavesFiles}
use central_core.Providers.Update.Recovery.{restore_backup_tree}
use central_core.Providers.Update.Recovery.Laws.{HasDistinctKeys, restore_backup_tree-each}

abbrev before : Trees
before = record {
  instance_files =
      (text "m", directory)
      ∷ (text "m/a", file (text "1"))
      ∷ (text "m/b", file (text "2"))
      ∷ (text "o", file (text "3"))
      ∷ [];
  staged =
      (text "m", directory) ∷ (text "m/a", file (text "4")) ∷ (text "m/c", file (text "5")) ∷ [];
  backups = [];
}

abbrev changed : List Text
changed = text "m/c" ∷ text "m/a" ∷ []

abbrev backed_up : List Text
backed_up = text "m/a" ∷ text "m/b" ∷ []

abbrev after : Trees
after = record {
  instance_files =
      (text "m", directory)
      ∷ (text "m/a", file (text "4"))
      ∷ (text "m/c", file (text "5"))
      ∷ (text "o", file (text "3"))
      ∷ [];
  staged = (text "m", directory) ∷ [];
  backups =
      (text "m", directory) ∷ (text "m/a", file (text "1")) ∷ (text "m/b", file (text "2")) ∷ [];
}

commits : apply_files (λ t. ok true) changed backed_up before ≡ (committed, after)
unfolding apply_files strings maps Path.new ensure_real_parents move_to_backup
    move_staged_into_instance
commits = refl

undoes :
    file_at (text "m/b") (apply_files (λ t. ok false) changed backed_up before).1.instance_files
    ≡ some (text "2")
unfolding apply_files strings maps Path.new ensure_real_parents move_to_backup
    move_staged_into_instance
undoes = refl

apply_files-LeavesFiles_example :
    LeavesFiles changed backed_up before (apply_files (λ t. ok true) changed backed_up before)
apply_files-LeavesFiles_example =
    apply_files-LeavesFiles (λ t. ok true) changed backed_up before refl

-- The program stops with all of it applied.
abbrev recovered_trees : Trees
recovered_trees = record {
  instance_files =
      (text "m", directory)
      ∷ (text "m/a", file (text "1"))
      ∷ (text "m/b", file (text "2"))
      ∷ (text "m/c", file (text "5"))
      ∷ (text "o", file (text "3"))
      ∷ [];
  staged = (text "m", directory) ∷ [];
  backups = (text "m", directory) ∷ [];
}

recovers : restore_backup_tree after ≡ (ok tt, recovered_trees)
unfolding restore_backup_tree strings maps ensure_real_parents
recovers = refl

distinct_after : HasDistinctKeys after.backups
unfolding strings maps
distinct_after = (refl, (refl, (refl, tt)))

c_is_there : is_some (file_at (text "m/c") after.instance_files) ≡ true
unfolding strings maps
c_is_there = refl

-- Both backups are made and one file is moved.
abbrev backed_up_trees : Trees
backed_up_trees = (each move_to_backup backed_up before).1

abbrev stopped : Trees
stopped = (each move_staged_into_instance (text "m/c" ∷ []) backed_up_trees).1

abbrev recovered_stop : Trees
recovered_stop = (restore_backup_tree stopped).1

saves : each move_to_backup backed_up before ≡ (ok tt, backed_up_trees)
unfolding each strings maps Path.new ensure_real_parents move_to_backup
saves = refl

stops : each move_staged_into_instance (text "m/c" ∷ []) backed_up_trees ≡ (ok tt, stopped)
unfolding each strings maps Path.new ensure_real_parents move_to_backup move_staged_into_instance
stops = refl

distinct_stop : HasDistinctKeys stopped.backups
unfolding each strings maps Path.new ensure_real_parents move_to_backup move_staged_into_instance
distinct_stop = (refl, (refl, (refl, tt)))

recovers_stop : restore_backup_tree stopped ≡ (ok tt, recovered_stop)
unfolding each restore_backup_tree strings maps Path.new ensure_real_parents move_to_backup
    move_staged_into_instance
recovers_stop = refl

restore_backup_tree-each_example :
    (is_some (file_at (text "m/a") before.instance_files) ≡ true
      → file_at (text "m/a") recovered_stop.instance_files
        ≡ file_at (text "m/a") before.instance_files)
    × (contains (text "m/a") (text "m/c" ∷ []) ≡ false
        → file_at (text "m/a") recovered_stop.instance_files
          ≡ file_at (text "m/a") before.instance_files)
restore_backup_tree-each_example =
    restore_backup_tree-each backed_up (text "m/c" ∷ []) before backed_up_trees stopped
      recovered_stop (text "m/a") refl saves stops distinct_stop recovers_stop
