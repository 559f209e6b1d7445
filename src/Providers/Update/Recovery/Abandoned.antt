-- ===== src/Providers/Update/Recovery/Abandoned.antt =====
-- minecraft/recovery.rs, `restore_abandoned_update`: every directory of an update that is left is
-- restored and removed, in the order of their names; the system's own order may be another.
use central_core.Prelude.{[], ◌∷◌, Text, TextMap, remove_key, unwrap_or}
use central_core.Errors.{Result, ok, err}
use central_core.Providers.Update.Tree.{followed}
use central_core.Providers.Update.Transaction.{Outcome}
use central_core.Providers.Update.Recovery.{restore_backup_tree}
use central_core.Providers.Update.Apply.{Staging, OnDisk}

module _ {Url Spec : Type 0} where
  -- `restore_metadata_file` of both files, if they are there, and `remove_dir_all`
  abbrev pub restore_metadata : Text → Staging Url Spec → OnDisk Url Spec → OnDisk Url Spec
  restore_metadata transaction staging s = record s {
    spec = unwrap_or staging.previous_spec s.spec;
    index = unwrap_or staging.previous_index s.index;
    staging = remove_key transaction s.staging;
  }

  abbrev pub after_restore :
      Text → Staging Url Spec → Outcome → OnDisk Url Spec → Result (Unit {0}) × OnDisk Url Spec
  after_restore transaction staging (err e, t) s =
      (err e, record s { instance_files = t.instance_files })
  after_restore transaction staging (ok u, t) s =
      (ok tt, restore_metadata transaction staging (record s { instance_files = t.instance_files }))

  unfoldable pub restore_one :
      Text → Staging Url Spec → OnDisk Url Spec → Result (Unit {0}) × OnDisk Url Spec
  unfolding restore_backup_tree
  restore_one transaction staging s =
      after_restore transaction staging
        (restore_backup_tree (record {
          instance_files = s.instance_files;
          staged = staging.staged;
          backups = staging.backups;
        }))
        s

  unfoldable pub restore_all :
      TextMap (Staging Url Spec) → OnDisk Url Spec → Result (Unit {0}) × OnDisk Url Spec
  unfolding restore_one
  restore_all [] s = (ok tt, s)
  restore_all ((transaction, staging) ∷ rest) s =
      followed (restore_one transaction staging s) (restore_all rest)

  unfoldable pub restore_abandoned_update : OnDisk Url Spec → Result (Unit {0}) × OnDisk Url Spec
  unfolding restore_all
  restore_abandoned_update s = restore_all s.staging s
