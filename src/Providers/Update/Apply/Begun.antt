-- ===== src/Providers/Update/Apply/Begun.antt =====
-- What a failed update and a successful one leave on disk, and the states before the files are moved.
use central_core.Prelude.{
  ◌≡◌, refl, ◌∙◌, true, false, none, some, List, arith, Text, text_eq, text_eq_iff, get, get-insert,
  IsSorted, IsSorted-insert, if◌then◌else◌, ap,
}
use central_core.Errors.{Error, Result, ok, err}
use central_core.Cache.{ManagedFile}
use central_core.Providers.Update.Transaction.{Trees}
use central_core.Providers.Update.Plan.{UpdatePlan}
use central_core.Providers.Update.Apply.{
  with_trees, Staging, OnDisk, Calls, TransactionState, updated_index,
}
use central_core.Providers.Update.Apply.Finalized.{IsLate}

module _ {Url Spec : Type 0} where
  -- The staging directory of an update keeps what the instance had before.
  pub record Keeps (orig : OnDisk Url Spec) (transaction : Text) (s : OnDisk Url Spec)
      : Type 0 where
    pub staging : Staging Url Spec
    pub there : get transaction s.staging ≡ some staging
    pub previous_spec : staging.previous_spec ≡ some orig.spec
    pub previous_index : staging.previous_index ≡ some orig.index

  -- What an update does, by its result.
  pub record Succeeded (transaction : Text) (plan : UpdatePlan Url) (target_spec : Result Spec)
      (orig s : OnDisk Url Spec) : Type 0 where
    pub spec : target_spec ≡ ok s.spec
    pub selections : s.selections ≡ plan.selections
    pub staging :
        (j : Text) → get j s.staging ≡ (if text_eq transaction j then none else get j orig.staging)
    pub sorted : IsSorted orig.staging → IsSorted s.staging

  -- If the base game is not changed, the index is that of the update.
  abbrev pub IsIndexed :
      Calls Url Spec → (plan : UpdatePlan Url) (orig s : OnDisk Url Spec) → Type 0
  IsIndexed calls plan orig s =
      plan.base_game_changed ≡ false
      → (additions : List (ManagedFile Url)) × (calls.snapshot plan s.instance_files ≡ ok additions)
        × (s.index ≡ updated_index plan additions orig.index)

  -- How far an update that fails has come with the documents of the instance.
  pub data Progress (calls : Calls Url Spec) (transaction : Text) (plan : UpdatePlan Url)
      (target_spec : Result Spec) (orig : OnDisk Url Spec) (e : Error) (s : OnDisk Url Spec)
      : Type 0 where
    not_finalized :
        s.selections ≡ orig.selections
        → (plan.base_game_changed ≡ false → s.spec ≡ orig.spec)
        → (plan.base_game_changed ≡ false → s.index ≡ orig.index)
        → Progress calls transaction plan target_spec orig e s
    index_written :
        s.selections ≡ orig.selections
        → (plan.base_game_changed ≡ false → s.spec ≡ orig.spec)
        → IsIndexed calls plan orig s
        → Progress calls transaction plan target_spec orig e s
    selections_written :
        s.selections ≡ plan.selections
        → (plan.base_game_changed ≡ false → s.spec ≡ orig.spec)
        → IsIndexed calls plan orig s
        → IsLate calls transaction target_spec e
        → Progress calls transaction plan target_spec orig e s
    spec_written :
        s.selections ≡ plan.selections
        → target_spec ≡ ok s.spec
        → IsIndexed calls plan orig s
        → calls.cleanup transaction ≡ err e
        → Progress calls transaction plan target_spec orig e s

  pub record Failed (calls : Calls Url Spec) (transaction : Text) (plan : UpdatePlan Url)
      (target_spec : Result Spec) (orig : OnDisk Url Spec) (e : Error) (s : OnDisk Url Spec)
      : Type 0 where
    pub progress : Progress calls transaction plan target_spec orig e s
    pub others : (j : Text) → text_eq transaction j ≡ false → get j s.staging ≡ get j orig.staging
    pub sorted : IsSorted orig.staging → IsSorted s.staging
    pub keeps : Keeps orig transaction s

  abbrev pub IsUpdate :
      Calls Url Spec
      → (transaction : Text) (plan : UpdatePlan Url) (target_spec : Result Spec)
        (orig : OnDisk Url Spec)
      → Result (Unit {0}) × OnDisk Url Spec
      → Type 0
  IsUpdate calls transaction plan target_spec orig (ok u, s) =
      Succeeded transaction plan target_spec orig s
  IsUpdate calls transaction plan target_spec orig (err e, s) =
      Failed calls transaction plan target_spec orig e s

module _ {Url Spec : Type 0} (calls : Calls Url Spec) (transaction : Text)
    (plan : UpdatePlan Url) where
  -- Before the files are moved: only the staging directory is new.
  pub record Begun (orig s : OnDisk Url Spec) (staging : Staging Url Spec) : Type 0 where
    pub selections : s.selections ≡ orig.selections
    pub spec : plan.base_game_changed ≡ false → s.spec ≡ orig.spec
    pub index : plan.base_game_changed ≡ false → s.index ≡ orig.index
    pub sorted : IsSorted orig.staging → IsSorted s.staging
    pub directories :
        (j : Text)
        → get j s.staging ≡ (if text_eq transaction j then some staging else get j orig.staging)
    pub previous_spec : staging.previous_spec ≡ some orig.spec
    pub previous_index : staging.previous_index ≡ some orig.index

  -- It stays in place with whatever is written of the documents.
  pub Failed-written :
      (target_spec : Result Spec) (orig s t : OnDisk Url Spec) (staging : Staging Url Spec)
      (e : Error)
      → Begun orig s staging
      → t.staging ≡ s.staging
      → Progress calls transaction plan target_spec orig e t
      → Failed calls transaction plan target_spec orig e t
  Failed-written target_spec orig s t staging e b same progress = record {
    progress = progress;
    others = λ j differ. ground (arith, same, b.directories j);
    sorted = λ h. rw same (b.sorted h);
    keeps = record {
      staging = staging;
      there =
          rw same (ground (arith, b.directories transaction, text_eq_iff transaction transaction));
      previous_spec = b.previous_spec;
      previous_index = b.previous_index;
    };
  }

  pub Failed-Begun :
      (target_spec : Result Spec) (orig s : OnDisk Url Spec) (staging : Staging Url Spec)
      (e : Error)
      → Begun orig s staging
      → Failed calls transaction plan target_spec orig e s
  Failed-Begun target_spec orig s staging e b =
      Failed-written target_spec orig s s staging e b refl
        (not_finalized b.selections b.spec b.index)

  pub Begun-with_trees :
      (orig s : OnDisk Url Spec) (staging : Staging Url Spec) (t : Trees)
      → Begun orig s staging
      → Begun orig
          (with_trees calls transaction plan s staging t)
          (record staging { staged = t.staged; backups = t.backups })
  Begun-with_trees orig s staging t b = record {
    selections = b.selections;
    spec = b.spec;
    index = b.index;
    sorted = λ h. IsSorted-insert transaction _ s.staging (b.sorted h);
    directories = λ j. get-insert transaction j _ s.staging ∙ ground (arith, b.directories j);
    previous_spec = b.previous_spec;
    previous_index = b.previous_index;
  }

  pub Begun-journal :
      (orig s : OnDisk Url Spec) (staging : Staging Url Spec) (journal : TransactionState)
      → Begun orig s staging
      → Begun orig (record s { journal = journal }) staging
  Begun-journal orig s staging journal b = record {
    selections = b.selections;
    spec = b.spec;
    index = b.index;
    sorted = b.sorted;
    directories = b.directories;
    previous_spec = b.previous_spec;
    previous_index = b.previous_index;
  }

  -- A changed base game leaves the selections and the staging directories.
  pub Begun-changed :
      (orig s t : OnDisk Url Spec) (staging : Staging Url Spec)
      → plan.base_game_changed ≡ true
      → Begun orig s staging
      → t.selections ≡ s.selections
      → t.staging ≡ s.staging
      → Begun orig t staging
  Begun-changed orig s t staging changed b selections directories = record {
    selections = selections ∙ b.selections;
    spec = λ h. absurd (cc (changed, h));
    index = λ h. absurd (cc (changed, h));
    sorted = λ h. rw directories (b.sorted h);
    directories = λ j. ap (get j) directories ∙ b.directories j;
    previous_spec = b.previous_spec;
    previous_index = b.previous_index;
  }
