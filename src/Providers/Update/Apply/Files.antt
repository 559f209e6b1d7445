-- ===== src/Providers/Update/Apply/Files.antt =====
-- The files of an instance after an update that followed its plan.
use central_core.Prelude.{
  ℕ, ◌≡◌, refl, subst, ◌∙◌, Bool, true, false, ◌||◌, Option, none, some, List, [], ◌∷◌, ◌++◌, arith,
  Text, contains, contains-insert_set, contains-append, inl, inr,
}
use central_core.Errors.{Result, ok}
use central_core.Files.Hash.{FileHash}
use central_core.Cache.{ManagedFile}
use central_core.Providers.Ids.{ProviderInstanceId}
use central_core.Providers.Manifest.{ProviderInstanceDefinition}
use central_core.Providers.Components.Selection.{ComponentSelections}
use central_core.Providers.Update.Tree.{file_at}
use central_core.Providers.Update.Desired.{is_same, desired_provider_files}
use central_core.Providers.Update.Plan.{
  UpdatePlan, UpdateFileAction, DownloadRequest, action_paths, removal_paths, insert_all,
  plan_update_with,
}
use central_core.Providers.Update.Plan.Laws.{
  plan_update_with-MapDifference, Has, current-cases, desired-cases,
}
use central_core.Providers.Update.Desired.Owned.{Matches, is_same_iff}
use central_core.Providers.Update.Desired.Wanted.{WantedAt}
use central_core.Providers.Model.{ProviderFile}
use central_core.Providers.Components.Resolve.{ResolvedComponentSet, resolve_components}
use central_core.Providers.Update.Apply.{
  OnDisk, Calls, apply_update_unlocked, changed_paths, backup_paths,
}
use central_core.Providers.Update.Apply.Moved.{AreMoved, AreMoved-apply_update_unlocked}

contains-insert_all :
    (q : Text) (ks s : List Text) → contains q (insert_all ks s) ≡ (contains q ks || contains q s)
unfolding contains
contains-insert_all q [] s = refl
contains-insert_all q (k ∷ ks) s =
    contains-insert_set k q (insert_all ks s) ∙ ground (arith, contains-insert_all q ks s)

contains-action_paths :
    (q : Text) (left right : List UpdateFileAction)
    → contains q (action_paths (left ++ right))
      ≡ (contains q (action_paths left) || contains q (action_paths right))
unfolding contains
contains-action_paths q [] right = refl
contains-action_paths q (a ∷ left) right = ground (arith, contains-action_paths q left right)

-- The content of a file, if there is one, is that of a wanted file.
abbrev pub is_wanted :
    {Url : Type 0} → (ℕ → FileHash → Text → Bool) → ProviderFile Url → Option Text → Bool
is_wanted has_digest f none = false
is_wanted has_digest f (some content) = has_digest f.size f.sha256 content

module _ {Url : Type 0} where
  -- What the paths of the parts of a plan come to in the files.
  pub contains-changed_paths :
      (plan : UpdatePlan Url) (q : Text)
      → contains q (changed_paths plan)
        ≡ (contains q (action_paths plan.downloads) || contains q (action_paths plan.replacements))
  contains-changed_paths plan q = contains-action_paths q plan.downloads plan.replacements

  pub contains-backup_paths :
      (plan : UpdatePlan Url) (q : Text)
      → contains q (backup_paths plan [])
        ≡ (contains q (removal_paths plan.removals) || contains q (action_paths plan.replacements))
  unfolding contains
  contains-backup_paths plan q = ground (
    arith,
    contains-insert_all q (removal_paths plan.removals ++ action_paths plan.replacements) [],
    contains-append q (removal_paths plan.removals) (action_paths plan.replacements),
  )

module _ {Url Spec : Type 0} (has_digest : ℕ → FileHash → Text → Bool)
    (calls : Calls Url Spec) where
  -- After an update by a plan that was made for the index, and that leaves the base game, a file that
  -- the definition wants, one of its own or of an enabled component, is in the instance with its size
  -- and digest; and where none is wanted, a file that the provider owns by the index is gone, and
  -- any other is as before. No two files are wanted at the path, a staged file has its digest, and so
  -- has a file of the instance that the index has for the provider.
  pub apply_update_unlocked-wanted :
      (transaction local_instance_id : Text) (from_revision : ℕ) (key : ProviderInstanceId)
      (definition : ProviderInstanceDefinition Url)
      (selections expected_selections : ComponentSelections)
      (base_plan : Option (List DownloadRequest)) (resolved : ResolvedComponentSet)
      (plan : UpdatePlan Url) (target_spec : Result Spec) (s t : OnDisk Url Spec) (q : Text)
      → resolve_components definition.components selections ≡ some (ok resolved)
      → plan_update_with local_instance_id from_revision key definition selections
          expected_selections base_plan s.index
        ≡ some (ok plan)
      → plan.base_game_changed ≡ false
      → ((f g : ProviderFile Url)
          → WantedAt definition resolved q f
          → WantedAt definition resolved q g
          → f ≡ g)
      → ((f : ProviderFile Url)
          → WantedAt definition resolved q f
          → contains q (changed_paths plan) ≡ true
          → is_wanted has_digest f (file_at q (calls.stage plan).1) ≡ true)
      → ((e : ManagedFile Url) (f : ProviderFile Url)
          → Has key s.index.files q e
          → Matches e f
          → is_wanted has_digest f (file_at q s.instance_files) ≡ true)
      → apply_update_unlocked calls transaction plan target_spec s ≡ (ok tt, t)
      → ((f : ProviderFile Url)
          → WantedAt definition resolved q f
          → is_wanted has_digest f (file_at q t.instance_files) ≡ true)
        × (((f : ProviderFile Url) → WantedAt definition resolved q f → ⊥)
            → ((e : ManagedFile Url)
                → Has key s.index.files q e
                → file_at q t.instance_files ≡ none)
              × (((e : ManagedFile Url) → Has key s.index.files q e → ⊥)
                  → file_at q t.instance_files ≡ file_at q s.instance_files))
  apply_update_unlocked-wanted transaction local_instance_id from_revision key definition selections
        expected_selections base_plan resolved plan target_spec s t q enabled made same unique
        staged indexed applied =
      let moved : AreMoved calls transaction plan s (calls.stage plan).1 (ok tt, t) =
        subst (AreMoved calls transaction plan s (calls.stage plan).1) applied
          (AreMoved-apply_update_unlocked calls transaction plan target_spec s same) in
      let d =
        plan_update_with-MapDifference local_instance_id from_revision key definition selections
          expected_selections base_plan s.index resolved plan q enabled made in
      let changes = contains-changed_paths plan q in
      let saves = contains-backup_paths plan q in
      let current = current-cases key s.index.files q in
      elim (desired-cases definition resolved q (desired_provider_files definition resolved) refl) [
        | inl (none_wanted, unwanted) ↦ (
          λ f w. absurd (unwanted f w),
          λ no. elim current [
            | inl (gone, unowned) ↦ (
              λ e h. absurd (unowned e h),
              λ h.
                  ground
                    (arith, moved.files q, d.downloads, d.replacements, d.removals, changes, saves),
            )
            | inr (x, there, owned) ↦ (
              λ e h.
                  ground
                    (arith, moved.files q, d.downloads, d.replacements, d.removals, changes, saves),
              λ h. absurd (h x owned),
            )
          ],
        )
        | inr (w, here, wanted) ↦ (
          λ f v.
              subst
                (λ (g : ProviderFile Url).
                  is_wanted has_digest g (file_at q t.instance_files) ≡ true)
                (unique w.wanted f wanted v)
                (elim current [
                  | inl (gone, unowned) ↦ ground (
                    arith,
                    moved.files q,
                    d.downloads,
                    d.replacements,
                    changes,
                    staged w.wanted wanted,
                  )
                  | inr (x, there, owned) ↦
                      let kept : is_same x w ≡ true
                          → is_wanted has_digest w.wanted (file_at q s.instance_files) ≡ true =
                        λ e. indexed x w.wanted owned ((is_same_iff x w).0 e) in
                      ground (
                        arith,
                        moved.files q,
                        d.downloads,
                        d.replacements,
                        d.removals,
                        changes,
                        saves,
                        staged w.wanted wanted,
                        kept,
                      )
                ]),
          λ no. absurd (no w.wanted wanted),
        )
      ]
