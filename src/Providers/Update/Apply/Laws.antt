-- ===== src/Providers/Update/Apply/Laws.antt =====
-- What an update leaves on disk.
use central_core.Prelude.{
  ◌≡◌, refl, ◌∙◌, true, some, List, [], arith, Text, insert, get-insert, get-remove_key,
  IsSorted-insert, IsSorted-remove_key, if_cases, Bool-cases, inl, inr, ap,
}
use central_core.Errors.{Result, ok, err, ◌>>◌, >>=-eq-ok}
use central_core.Cache.{ManagedFile, ManagedFileIndex}
use central_core.Providers.Update.Tree.{Tree, followed}
use central_core.Providers.Update.Transaction.{
  Trees, Applied, committed, restored, stuck, abandoned,
}
use central_core.Providers.Update.Plan.{UpdatePlan}
use central_core.Providers.Update.Apply.{
  with_trees, Staging, OnDisk, Calls, after_files, apply_moves, after_install, apply_base,
  with_spec, after_stage, apply_update_unlocked, downloading, finalizing, updating, applying,
  with_index, indexed, updated_index, install_base, base_removals, instance_paths,
}
use central_core.Providers.Update.Apply.Finalized.{
  Ends, finished, before_index, after_index, after_selections, after_spec, Ends-finalized,
}
use central_core.Providers.Update.Apply.Begun.{
  IsIndexed, index_written, selections_written, spec_written, IsUpdate, Begun, Failed-written,
  Failed-Begun, Begun-with_trees, Begun-journal, Begun-changed,
}

module _ {Url Spec : Type 0} (calls : Calls Url Spec) (transaction : Text)
    (plan : UpdatePlan Url) where
  -- The index is made from a snapshot of the files.
  indexed-eq-ok :
      (s : OnDisk Url Spec) (t : Trees) (index : ManagedFileIndex Url)
      → indexed calls transaction plan s t ≡ ok index
      → (additions : List (ManagedFile Url)) × (calls.snapshot plan t.instance_files ≡ ok additions)
        × (index ≡ updated_index plan additions s.index)
  unfolding indexed
  indexed-eq-ok s t index h =
      let (u, loaded, h1) = >>=-eq-ok (calls.load_index s.index) _ h in
      let (additions, taken, h2) = >>=-eq-ok (calls.snapshot plan t.instance_files) _ h1 in
      (additions, taken, cc h2)

  IsUpdate-Ends :
      (target_spec : Spec) (index : ManagedFileIndex Url) (orig s : OnDisk Url Spec)
      (staging : Staging Url Spec) (out : Result (Unit {0}) × OnDisk Url Spec)
      → Begun calls transaction plan orig s staging
      → (plan.base_game_changed ≡ true → s.spec ≡ target_spec)
      → IsIndexed calls plan orig (record s { index = index })
      → Ends calls transaction plan target_spec index s out
      → IsUpdate calls transaction plan (ok target_spec) orig out
  IsUpdate-Ends target_spec index orig s staging _ b set made (finished spec kept new) = record {
    spec = elim (Bool-cases plan.base_game_changed) [
      | inl e ↦ cc (kept e, set e)
      | inr e ↦ cc (new e)
    ];
    selections = refl;
    sorted = λ h. IsSorted-remove_key transaction s.staging (b.sorted h);
    staging = λ j. get-remove_key transaction j s.staging ∙ ground (arith, b.directories j);
  }
  IsUpdate-Ends target_spec index orig s staging _ b set made (before_index e) =
      Failed-Begun calls transaction plan (ok target_spec) orig s staging e b
  IsUpdate-Ends target_spec index orig s staging _ b set made (after_index e) =
      Failed-written calls transaction plan (ok target_spec) orig s _ staging e b refl
        (index_written b.selections b.spec made)
  IsUpdate-Ends target_spec index orig s staging _ b set made (after_selections e late) =
      Failed-written calls transaction plan (ok target_spec) orig s _ staging e b refl
        (selections_written refl b.spec made late)
  IsUpdate-Ends target_spec index orig s staging _ b set made (after_spec e late) =
      Failed-written calls transaction plan (ok target_spec) orig s _ staging e b refl
        (spec_written refl refl made late)

  IsUpdate-with_index :
      (target_spec : Spec) (orig s : OnDisk Url Spec) (staging : Staging Url Spec) (t : Trees)
      (o : Result (ManagedFileIndex Url))
      → Begun calls transaction plan orig s staging
      → (plan.base_game_changed ≡ true → s.spec ≡ target_spec)
      → indexed calls transaction plan s t ≡ o
      → IsUpdate calls transaction plan (ok target_spec) orig (
          with_index calls transaction plan target_spec o
            (with_trees calls transaction plan s staging t))
  IsUpdate-with_index target_spec orig s staging t (err e) b set same =
      Failed-Begun calls transaction plan (ok target_spec) orig _ _ e
        (Begun-with_trees calls transaction plan orig s staging t b)
  IsUpdate-with_index target_spec orig s staging t (ok index) b set same =
      let (additions, taken, made) = indexed-eq-ok s t index same in
      let moved = Begun-with_trees calls transaction plan orig s staging t b in
      let final : Begun calls transaction plan orig
          (record (with_trees calls transaction plan s staging t) { journal = finalizing })
          (record staging { staged = t.staged; backups = t.backups }) =
        Begun-journal calls transaction plan orig _ _ finalizing moved in
      IsUpdate-Ends target_spec index orig _ _ _ final set
        (λ other. (additions, taken, made ∙ ap (updated_index plan additions) (b.index other)))
        (Ends-finalized calls transaction plan target_spec index
          (record (with_trees calls transaction plan s staging t) { journal = finalizing }))

  IsUpdate-after_files :
      (target_spec : Spec) (orig s : OnDisk Url Spec) (staging : Staging Url Spec)
      (out : Applied × Trees)
      → Begun calls transaction plan orig s staging
      → (plan.base_game_changed ≡ true → s.spec ≡ target_spec)
      → IsUpdate calls transaction plan
          (ok target_spec)
          orig
          (after_files calls transaction plan target_spec s staging out)
  IsUpdate-after_files target_spec orig s staging (committed, t) b set =
      IsUpdate-with_index target_spec orig s staging t _ b set refl
  IsUpdate-after_files target_spec orig s staging (restored e, t) b set =
      Failed-Begun calls transaction plan (ok target_spec) orig _ _ e
        (Begun-with_trees calls transaction plan orig s staging t b)
  IsUpdate-after_files target_spec orig s staging (stuck e, t) b set =
      Failed-Begun calls transaction plan (ok target_spec) orig _ _ e
        (Begun-with_trees calls transaction plan orig s staging t b)
  IsUpdate-after_files target_spec orig s staging (abandoned e, t) b set =
      Failed-Begun calls transaction plan (ok target_spec) orig _ _ e
        (Begun-with_trees calls transaction plan orig s staging t b)

  IsUpdate-apply_moves :
      (target_spec : Spec) (removals : List Text) (orig s : OnDisk Url Spec)
      (staging : Staging Url Spec)
      → Begun calls transaction plan orig s staging
      → (plan.base_game_changed ≡ true → s.spec ≡ target_spec)
      → IsUpdate calls transaction plan
          (ok target_spec)
          orig
          (apply_moves calls transaction plan target_spec removals staging s)
  unfolding apply_moves
  IsUpdate-apply_moves target_spec removals orig s staging b set =
      if_cases (IsUpdate calls transaction plan (ok target_spec) orig) calls.is_cancelled
        (λ e. Failed-Begun calls transaction plan (ok target_spec) orig s staging _ b)
        (λ e. IsUpdate-after_files target_spec orig s staging _ b set)

  IsUpdate-after_install :
      (target_spec : Spec) (orig s : OnDisk Url Spec) (staging : Staging Url Spec)
      (out : Result (Unit {0}) × (Tree × ManagedFileIndex Url))
      → plan.base_game_changed ≡ true
      → s.spec ≡ target_spec
      → Begun calls transaction plan orig s staging
      → IsUpdate calls transaction plan
          (ok target_spec)
          orig
          (after_install calls transaction plan target_spec staging s out)
  IsUpdate-after_install target_spec orig s staging (err e, (tree, index)) changed set b =
      Failed-Begun calls transaction plan (ok target_spec) orig _ staging e
        (Begun-changed calls transaction plan orig s _ staging changed b refl refl)
  IsUpdate-after_install target_spec orig s staging (ok u, (tree, index)) changed set b =
      loaded (calls.load_index index)
    where
      loaded :
          (r : Result (Unit {0}))
          → IsUpdate calls transaction plan (ok target_spec) orig (
              followed
                (r, record s { instance_files = tree; index = index; status = updating })
                (λ t.
                  apply_moves calls transaction plan target_spec
                    (base_removals s.index.files (instance_paths index.files))
                    staging
                    (record t { journal = applying })))
      loaded (err e) = Failed-Begun calls transaction plan (ok target_spec) orig _ staging e (
          Begun-changed calls transaction plan orig s
            (record s { instance_files = tree; index = index; status = updating }) staging changed b
            refl refl)
      loaded (ok x) =
          IsUpdate-apply_moves target_spec _ orig _ staging
            (Begun-changed calls transaction plan orig s
              (record s {
                instance_files = tree;
                index = index;
                status = updating;
                journal = applying;
              })
              staging changed b refl refl)
            (λ e. set)

  IsUpdate-install_base :
      (target_spec : Spec) (orig s : OnDisk Url Spec) (staging : Staging Url Spec)
      → plan.base_game_changed ≡ true
      → Begun calls transaction plan orig s staging
      → IsUpdate calls transaction plan
          (ok target_spec)
          orig
          (install_base calls transaction plan target_spec staging s)
  unfolding install_base
  IsUpdate-install_base target_spec orig s staging changed b =
      replaced (calls.load_index s.index >> calls.replace_spec target_spec)
    where
      replaced :
          (r : Result (Unit {0}))
          → IsUpdate calls transaction plan (ok target_spec) orig (
              followed
                (r, s)
                (λ t.
                  after_install calls transaction plan target_spec staging
                    (record t { spec = target_spec })
                    (calls.install target_spec t.instance_files t.index)))
      replaced (err e) = Failed-Begun calls transaction plan (ok target_spec) orig s staging e b
      replaced (ok u) =
          IsUpdate-after_install target_spec orig (record s { spec = target_spec }) staging
            (calls.install target_spec s.instance_files s.index) changed refl
            (Begun-changed calls transaction plan orig s _ staging changed b refl refl)

  IsUpdate-apply_base :
      (target_spec : Spec) (orig s : OnDisk Url Spec) (staging : Staging Url Spec)
      → Begun calls transaction plan orig s staging
      → IsUpdate calls transaction plan
          (ok target_spec)
          orig
          (apply_base calls transaction plan target_spec staging s)
  unfolding apply_base
  IsUpdate-apply_base target_spec orig s staging b =
      if_cases (IsUpdate calls transaction plan (ok target_spec) orig) plan.base_game_changed
        (λ e. IsUpdate-install_base target_spec orig s staging e b)
        (λ e.
          IsUpdate-apply_moves target_spec [] orig _ staging
            (Begun-journal calls transaction plan orig s staging applying b)
            (λ changed. absurd (cc (e, changed))))

  abbrev begun : OnDisk Url Spec → Tree → OnDisk Url Spec
  begun orig tree = record orig {
    staging =
        insert transaction
          (record {
            staged = tree;
            backups = [];
            previous_spec = some orig.spec;
            previous_index = some orig.index;
          })
          orig.staging;
    journal = downloading;
  }

  Begun-begun :
      (orig : OnDisk Url Spec) (tree : Tree)
      → Begun calls transaction plan orig (begun orig tree) (record {
        staged = tree;
        backups = [];
        previous_spec = some orig.spec;
        previous_index = some orig.index;
      })
  Begun-begun orig tree = record {
    selections = refl;
    spec = λ h. refl;
    index = λ h. refl;
    sorted = IsSorted-insert transaction _ orig.staging;
    directories = λ j. get-insert transaction j _ orig.staging;
    previous_spec = refl;
    previous_index = refl;
  }

  IsUpdate-with_spec :
      (target_spec : Result Spec) (orig s : OnDisk Url Spec) (staging : Staging Url Spec)
      → Begun calls transaction plan orig s staging
      → IsUpdate calls transaction plan target_spec orig
          (with_spec calls transaction plan staging s target_spec)
  IsUpdate-with_spec (err e) orig s staging b =
      Failed-Begun calls transaction plan (err e) orig s staging e b
  IsUpdate-with_spec (ok target_spec) orig s staging b =
      IsUpdate-apply_base target_spec orig s staging b

  IsUpdate-after_stage :
      (target_spec : Result Spec) (orig : OnDisk Url Spec) (out : Result (Unit {0}) × Tree)
      → IsUpdate calls transaction plan target_spec orig (
          after_stage calls transaction plan target_spec orig
            (record {
              staged = [];
              backups = [];
              previous_spec = some orig.spec;
              previous_index = some orig.index;
            })
            out)
  IsUpdate-after_stage target_spec orig (err e, tree) =
      Failed-Begun calls transaction plan target_spec orig (begun orig tree) _ e
        (Begun-begun orig tree)
  IsUpdate-after_stage target_spec orig (ok u, tree) =
      IsUpdate-with_spec target_spec orig (begun orig tree) _ (Begun-begun orig tree)

  pub apply_update_unlocked-IsUpdate :
      (target_spec : Result Spec) (s : OnDisk Url Spec)
      → IsUpdate calls transaction plan target_spec s
          (apply_update_unlocked calls transaction plan target_spec s)
  unfolding apply_update_unlocked
  apply_update_unlocked-IsUpdate target_spec s =
      IsUpdate-after_stage target_spec s (calls.stage plan)
