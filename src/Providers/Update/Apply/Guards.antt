-- ===== src/Providers/Update/Apply/Guards.antt =====
-- An update is applied only by a plan that is still current.
use central_core.Prelude.{
  ℕ, ◌≡◌, ◌⊎◌, inl, inr, and_iff, refl, ◌∙◌, Bool, true, false, not, Text, ◌==◌, ==_iff,
}
use central_core.Errors.{Error, Result, ok, err, reject, reject-eq-ok}
use central_core.Providers.Manifest.{ProviderInstanceDefinition}
use central_core.Providers.Components.Selection.{ComponentSelections, initialize_selections}
use central_core.Providers.Update.Plan.{UpdatePlan}
use central_core.Providers.Update.Apply.{
  OnDisk, Calls, installed, done, interrupted, updating, preparing, check_plan, settled,
  when_current, same_choices, apply_update,
}
use central_core.Providers.Update.Apply.Finalized.{IsLate}
use central_core.Providers.Update.Apply.Begun.{
  IsUpdate, Progress, not_finalized, index_written, selections_written, spec_written,
}
use central_core.Providers.Update.Apply.Laws.{apply_update_unlocked-IsUpdate}

negated : (b : Bool) → not b ≡ false → b ≡ true
negated true h = refl
negated false h = absurd (cc h)

reject-eq-false : (b : Bool) (e : Error) → reject b e ≡ ok tt → b ≡ false
reject-eq-false false e h = refl
reject-eq-false true e h = absurd (cc h)

module _ {Url Spec : Type 0} (calls : Calls Url Spec) (transaction : Text)
    (plan : UpdatePlan Url) where
  -- What the plan was made from is what is there.
  pub record IsCurrent (is_running : Bool) (installed_revision : Spec → ℕ)
      (definition : ProviderInstanceDefinition Url) (s : OnDisk Url Spec) : Type 0 where
    pub stopped : is_running ≡ false
    pub definition_revision : definition.revision ≡ plan.to_revision
    pub revision : installed_revision s.spec ≡ plan.from_revision
    pub choices :
        same_choices
          (initialize_selections definition.components s.selections).components
          plan.expected_selections.components
        ≡ true

  check_plan-IsCurrent :
      (is_running : Bool) (installed_revision : Spec → ℕ)
      (definition : ProviderInstanceDefinition Url) (s : OnDisk Url Spec)
      → check_plan calls transaction plan is_running installed_revision definition s ≡ ok tt
      → IsCurrent is_running installed_revision definition s
  unfolding check_plan
  check_plan-IsCurrent is_running installed_revision definition s h =
      let (a, h1) = reject-eq-ok is_running _ _ h in
      let (b, h2) = reject-eq-ok (not (definition.revision == plan.to_revision)) _ _ h1 in
      let (c, h3) = reject-eq-ok (not (installed_revision s.spec == plan.from_revision)) _ _ h2 in
      let d = reject-eq-false _ _ h3 in
      let e = (and_iff _ _).0 (negated _ d) in
      record {
        stopped = a;
        definition_revision = (==_iff _ _).0 (negated _ b);
        revision = (==_iff _ _).0 (negated _ c);
        choices = e.1;
      }

  -- What came of an update.
  abbrev pub IsSettled :
      (is_running : Bool) (installed_revision : Spec → ℕ) (target_spec : Result Spec)
      (definition : ProviderInstanceDefinition Url) (s : OnDisk Url Spec)
      → Result (Unit {0}) × OnDisk Url Spec
      → Type 0
  IsSettled is_running installed_revision target_spec definition s (ok u, t) =
      IsCurrent is_running installed_revision definition s
      × (target_spec ≡ ok t.spec)
      × (t.selections ≡ plan.selections)
      × (t.status ≡ installed)
      × (t.journal ≡ done)
  IsSettled is_running installed_revision target_spec definition s (err e, t) =
      (t ≡ s)
      ⊎ (IsCurrent is_running installed_revision definition s
          × (t.status ≡ interrupted)
          × ((t.selections ≡ s.selections)
              ⊎ ((t.selections ≡ plan.selections) × IsLate calls transaction target_spec e)))

  selections-Progress :
      (target_spec : Result Spec) (begun t : OnDisk Url Spec) (e : Error)
      (before : ComponentSelections)
      → begun.selections ≡ before
      → Progress calls transaction plan target_spec begun e t
      → (t.selections ≡ before)
        ⊎ ((t.selections ≡ plan.selections) × IsLate calls transaction target_spec e)
  selections-Progress target_spec begun t e before same (not_finalized kept spec index) =
      inl (kept ∙ same)
  selections-Progress target_spec begun t e before same (index_written kept spec index) =
      inl (kept ∙ same)
  selections-Progress target_spec begun t e before same (selections_written new spec index late) =
      inr (new, late)
  selections-Progress target_spec begun t e before same (spec_written new spec index late) =
      inr (new, inr late)

  IsSettled-settled :
      (is_running : Bool) (installed_revision : Spec → ℕ) (target_spec : Result Spec)
      (definition : ProviderInstanceDefinition Url) (s begun : OnDisk Url Spec)
      (out : Result (Unit {0}) × OnDisk Url Spec)
      → IsCurrent is_running installed_revision definition s
      → begun.selections ≡ s.selections
      → IsUpdate calls transaction plan target_spec begun out
      → IsSettled is_running installed_revision target_spec definition s
          (settled calls transaction plan out)
  IsSettled-settled is_running installed_revision target_spec definition s begun (ok u, t) current
        same h =
      (current, h.spec, h.selections, refl, refl)
  IsSettled-settled is_running installed_revision target_spec definition s begun (err e, t) current
        same h =
      inr (current, refl, selections-Progress target_spec begun t e s.selections same h.progress)

  IsSettled-when_current :
      (is_running : Bool) (installed_revision : Spec → ℕ) (target_spec : Result Spec)
      (definition : ProviderInstanceDefinition Url) (s : OnDisk Url Spec)
      (check : Result (Unit {0}))
      → check_plan calls transaction plan is_running installed_revision definition s ≡ check
      → IsSettled is_running installed_revision target_spec definition s
          (when_current calls transaction plan check target_spec s)
  IsSettled-when_current is_running installed_revision target_spec definition s (err e) h = inl refl
  IsSettled-when_current is_running installed_revision target_spec definition s (ok tt) h =
      IsSettled-settled is_running installed_revision target_spec definition s
        (record s { status = updating; journal = preparing }) _
        (check_plan-IsCurrent is_running installed_revision definition s h) refl
        (apply_update_unlocked-IsUpdate calls transaction plan target_spec
          (record s { status = updating; journal = preparing }))

  -- An update that succeeds was applied by a plan for the revisions and the choices that are there to
  -- an instance that is not running, and leaves it installed, with the target specification, the
  -- selections of the plan and a finished journal. One that fails changes nothing, or it fails with a
  -- current plan and leaves the instance interrupted, with its selections; with those of the plan only
  -- if the error is one of the replacement of the specification or of the removal of the staging
  -- directory, which come after the selections are written.
  pub apply_update-IsSettled :
      (is_running : Bool) (installed_revision : Spec → ℕ) (target_spec : Result Spec)
      (definition : ProviderInstanceDefinition Url) (s : OnDisk Url Spec)
      → IsSettled is_running installed_revision target_spec definition s (
          apply_update calls transaction plan is_running installed_revision target_spec definition
            s)
  unfolding apply_update
  apply_update-IsSettled is_running installed_revision target_spec definition s =
      IsSettled-when_current is_running installed_revision target_spec definition s
        (check_plan calls transaction plan is_running installed_revision definition s) refl
