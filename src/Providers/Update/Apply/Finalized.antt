-- ===== src/Providers/Update/Apply/Finalized.antt =====
-- How the finalization of an update ends.
use central_core.Prelude.{◌≡◌, refl, true, false, Text, remove_key, if_cases, ◌⊎◌, inl, inr}
use central_core.Errors.{Error, Result, ok, err}
use central_core.Providers.Storage.{Write, written, not_written, written_but, outcome_of}
use central_core.Cache.{ManagedFileIndex}
use central_core.Providers.Update.Tree.{followed}
use central_core.Providers.Update.Plan.{UpdatePlan}
use central_core.Providers.Update.Apply.{
  OnDisk, Calls, finalized, finish, finish_spec, finish_selections,
}

module _ {Url Spec : Type 0} where
  -- The error comes from the specification or from the staging directory.
  abbrev pub IsLate :
      Calls Url Spec → (transaction : Text) (target_spec : Result Spec) (e : Error) → Type 0
  IsLate calls transaction target_spec e =
      ((spec : Spec) × (target_spec ≡ ok spec) × (calls.replace_spec spec ≡ err e))
      ⊎ (calls.cleanup transaction ≡ err e)

module _ {Url Spec : Type 0} (calls : Calls Url Spec) (transaction : Text)
    (plan : UpdatePlan Url) where
  -- The ways in which the finalization ends.
  pub data Ends (target_spec : Spec) (index : ManagedFileIndex Url) (s : OnDisk Url Spec)
      : Result (Unit {0}) × OnDisk Url Spec → Type 0 where
    finished :
        (spec : Spec)
        → (plan.base_game_changed ≡ true → spec ≡ s.spec)
        → (plan.base_game_changed ≡ false → spec ≡ target_spec)
        → Ends target_spec index s (
          ok tt,
          record s {
            index = index;
            selections = plan.selections;
            spec = spec;
            staging = remove_key transaction s.staging;
          },
        )
    before_index : (e : Error) → Ends target_spec index s (err e, s)
    after_index : (e : Error) → Ends target_spec index s (err e, record s { index = index })
    after_selections :
        (e : Error)
        → IsLate calls transaction (ok target_spec) e
        → Ends target_spec index s (err e, record s { index = index; selections = plan.selections })
    after_spec :
        (e : Error)
        → calls.cleanup transaction ≡ err e
        → Ends target_spec index s
            (err e, record s { index = index; selections = plan.selections; spec = target_spec })

  Ends-finish :
      (target_spec : Spec) (index : ManagedFileIndex Url) (s : OnDisk Url Spec)
      → Ends target_spec index s (
          finish_spec calls transaction plan target_spec
            (record s { index = index; selections = plan.selections }))
  Ends-finish target_spec index s =
      if_cases (Ends target_spec index s) plan.base_game_changed
        (λ same. cleaned same (calls.cleanup transaction) refl)
        (λ other. replaced other (calls.replace_spec target_spec) refl)
    where
      cleaned :
          plan.base_game_changed ≡ true
          → (r : Result (Unit {0})) → calls.cleanup transaction ≡ r
          → Ends target_spec index s (
              followed
                (r, record s { index = index; selections = plan.selections })
                (λ t. (ok tt, record t { staging = remove_key transaction t.staging })))
      cleaned same (ok tt) h = finished s.spec (λ x. refl) (λ x. absurd (cc (same, x)))
      cleaned same (err e) h = after_selections e (inr h)

      cleaned_spec :
          plan.base_game_changed ≡ false
          → (r : Result (Unit {0})) → calls.cleanup transaction ≡ r
          → Ends target_spec index s (
              followed
                (r, record s { index = index; selections = plan.selections; spec = target_spec })
                (λ t. (ok tt, record t { staging = remove_key transaction t.staging })))
      cleaned_spec other (ok tt) h = finished target_spec (λ x. absurd (cc (other, x))) (λ x. refl)
      cleaned_spec other (err e) h = after_spec e h

      replaced :
          plan.base_game_changed ≡ false
          → (r : Result (Unit {0})) → calls.replace_spec target_spec ≡ r
          → Ends target_spec index s (
              followed
                (r, record s { index = index; selections = plan.selections })
                (λ t. finish calls transaction plan (record t { spec = target_spec })))
      replaced other (ok tt) h = cleaned_spec other (calls.cleanup transaction) refl
      replaced other (err e) h = after_selections e (inl (target_spec, refl, h))

  pub Ends-finalized :
      (target_spec : Spec) (index : ManagedFileIndex Url) (s : OnDisk Url Spec)
      → Ends target_spec index s (finalized calls transaction plan target_spec index s)
  unfolding finalized
  Ends-finalized target_spec index s = indexes (calls.write_index index)
    where
      selects :
          (r : Result (Unit {0}))
          → Ends target_spec index s (
              followed
                (r, record s { index = index })
                (λ t.
                  finish_spec calls transaction plan target_spec
                    (record t { selections = plan.selections })))
      selects (ok tt) = Ends-finish target_spec index s
      selects (err e) = after_index e

      registers :
          (r : Result (Unit {0}))
          → Ends target_spec index s (
              followed
                (r, record s { index = index })
                (finish_selections calls transaction plan target_spec))
      registers (ok tt) = selects (calls.write_selections plan.selections)
      registers (err e) = after_index e

      indexes :
          (w : Write)
          → Ends target_spec index s (
              followed (outcome_of w s (record s { index = index })) (λ t.
                followed
                  (calls.register index, t)
                  (finish_selections calls transaction plan target_spec)))
      indexes written = registers (calls.register index)
      indexes (not_written e) = before_index e
      indexes (written_but e) = after_index e
