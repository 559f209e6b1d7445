-- ===== src/Providers/Update/Apply/Moved.antt =====
-- An update that leaves the base game and succeeds has moved its files.
use central_core.Prelude.{◌≡◌, refl, false, Option, some, [], Text, if_cases}
use central_core.Errors.{Result, ok, err}
use central_core.Cache.{ManagedFileIndex}
use central_core.Providers.Update.Tree.{Tree}
use central_core.Providers.Update.Transaction.{
  Trees, Applied, committed, restored, stuck, abandoned,
}
use central_core.Providers.Update.Transaction.Laws.{Replaced, LeavesFiles, apply_files-LeavesFiles}
use central_core.Providers.Update.Plan.{UpdatePlan}
use central_core.Providers.Update.Apply.Finalized.{
  Ends, finished, before_index, after_index, after_selections, after_spec, Ends-finalized,
}
use central_core.Providers.Update.Apply.{
  Staging, OnDisk, Calls, after_files, apply_moves, apply_base, with_spec, after_stage,
  apply_update_unlocked, verify, with_index, with_trees, finalizing, changed_paths, backup_paths,
}

module _ {Url Spec : Type 0} (calls : Calls Url Spec) (transaction : Text)
    (plan : UpdatePlan Url) where
  -- On success the files are those of the transaction.
  abbrev pub moved_from : OnDisk Url Spec → Tree → Trees
  moved_from s staged = record { instance_files = s.instance_files; staged = staged; backups = [] }

  abbrev pub AreMoved : OnDisk Url Spec → Tree → Result (Unit {0}) × OnDisk Url Spec → Type 0
  AreMoved s staged (ok u, t) =
      Replaced (changed_paths plan) (backup_paths plan []) (moved_from s staged)
        (moved_from t staged)
  AreMoved s staged (err e, t) = Unit

  AreMoved-Ends :
      (target_spec : Spec) (index : ManagedFileIndex Url) (orig s : OnDisk Url Spec) (staged : Tree)
      (out : Result (Unit {0}) × OnDisk Url Spec)
      → Replaced
          (changed_paths plan)
          (backup_paths plan [])
          (moved_from orig staged)
          (moved_from s staged)
      → Ends calls transaction plan target_spec index s out
      → AreMoved orig staged out
  AreMoved-Ends target_spec index orig s staged _ h (finished spec kept new) = record {
    files = h.files;
    staged = h.staged;
    free = h.free;
  }
  AreMoved-Ends target_spec index orig s staged _ h (before_index e) = tt
  AreMoved-Ends target_spec index orig s staged _ h (after_index e) = tt
  AreMoved-Ends target_spec index orig s staged _ h (after_selections e late) = tt
  AreMoved-Ends target_spec index orig s staged _ h (after_spec e late) = tt

  AreMoved-with_index :
      (target_spec : Spec) (orig s : OnDisk Url Spec) (staged : Tree)
      (o : Result (ManagedFileIndex Url))
      → Replaced
          (changed_paths plan)
          (backup_paths plan [])
          (moved_from orig staged)
          (moved_from s staged)
      → AreMoved orig staged (with_index calls transaction plan target_spec o s)
  AreMoved-with_index target_spec orig s staged (err e) h = tt
  AreMoved-with_index target_spec orig s staged (ok index) h =
      AreMoved-Ends target_spec index orig (record s { journal = finalizing }) staged _
        (record { files = h.files; staged = h.staged; free = h.free })
        (Ends-finalized calls transaction plan target_spec index
          (record s { journal = finalizing }))

  AreMoved-after_files :
      (target_spec : Spec) (orig s : OnDisk Url Spec) (staging : Staging Url Spec) (staged : Tree)
      (out : Applied × Trees)
      → LeavesFiles (changed_paths plan) (backup_paths plan []) (moved_from orig staged) out
      → AreMoved orig staged (after_files calls transaction plan target_spec s staging out)
  AreMoved-after_files target_spec orig s staging staged (committed, t) h =
      AreMoved-with_index target_spec orig (with_trees calls transaction plan s staging t) staged _
        (record { files = h.files; staged = h.staged; free = h.free })
  AreMoved-after_files target_spec orig s staging staged (restored e, t) h = tt
  AreMoved-after_files target_spec orig s staging staged (stuck e, t) h = tt
  AreMoved-after_files target_spec orig s staging staged (abandoned e, t) h = tt

  abbrev fresh : Tree → Option Spec → Option (ManagedFileIndex Url) → Staging Url Spec
  fresh staged previous_spec previous_index = record {
    staged = staged;
    backups = [];
    previous_spec = previous_spec;
    previous_index = previous_index;
  }

  AreMoved-apply_moves :
      (target_spec : Spec) (s : OnDisk Url Spec) (staged : Tree) (old : Option Spec)
      (old_index : Option (ManagedFileIndex Url))
      → AreMoved s staged
          (apply_moves calls transaction plan target_spec [] (fresh staged old old_index) s)
  unfolding apply_moves
  AreMoved-apply_moves target_spec s staged old old_index =
      if_cases (AreMoved s staged) calls.is_cancelled (λ e. tt)
        (λ e. AreMoved-after_files target_spec s s (fresh staged old old_index) staged _ (
          apply_files-LeavesFiles (verify calls transaction plan s) (changed_paths plan)
            (backup_paths plan []) _ refl))

  AreMoved-apply_base :
      (target_spec : Spec) (s : OnDisk Url Spec) (staged : Tree) (old : Option Spec)
      (old_index : Option (ManagedFileIndex Url))
      → plan.base_game_changed ≡ false
      → AreMoved s staged
          (apply_base calls transaction plan target_spec (fresh staged old old_index) s)
  unfolding apply_base
  AreMoved-apply_base target_spec s staged old old_index same =
      if_cases (AreMoved s staged) plan.base_game_changed (λ e. absurd (cc (e, same)))
        (λ e. AreMoved-apply_moves target_spec _ staged old old_index)

  AreMoved-with_spec :
      (target_spec : Result Spec) (s : OnDisk Url Spec) (staged : Tree) (old : Option Spec)
      (old_index : Option (ManagedFileIndex Url))
      → plan.base_game_changed ≡ false
      → AreMoved s staged
          (with_spec calls transaction plan (fresh staged old old_index) s target_spec)
  AreMoved-with_spec (err e) s staged old old_index same = tt
  AreMoved-with_spec (ok target_spec) s staged old old_index same =
      AreMoved-apply_base target_spec s staged old old_index same

  AreMoved-after_stage :
      (target_spec : Result Spec) (s : OnDisk Url Spec) (out : Result (Unit {0}) × Tree)
      → plan.base_game_changed ≡ false
      → AreMoved s out.1 (
          after_stage calls transaction plan target_spec s
            (fresh [] (some s.spec) (some s.index))
            out)
  AreMoved-after_stage target_spec s (err e, staged) same = tt
  AreMoved-after_stage target_spec s (ok u, staged) same =
      AreMoved-with_spec target_spec _ staged _ _ same

  pub AreMoved-apply_update_unlocked :
      (target_spec : Result Spec) (s : OnDisk Url Spec)
      → plan.base_game_changed ≡ false
      → AreMoved s (calls.stage plan).1 (apply_update_unlocked calls transaction plan target_spec s)
  unfolding apply_update_unlocked
  AreMoved-apply_update_unlocked target_spec s same =
      AreMoved-after_stage target_spec s (calls.stage plan) same
