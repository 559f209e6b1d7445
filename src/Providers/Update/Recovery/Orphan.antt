-- ===== src/Providers/Update/Recovery/Orphan.antt =====
-- What a recovery leaves behind, and what that does to a later update.
use central_core.Prelude.{
  ℕ, ◌≡◌, ◌≢◌, inl, inr, refl, ap, subst, true, false, none, some, List, [], ◌∷◌, arith, Text,
  text_eq, text_eq_iff, contains, is_some, Bool-cases,
}
use central_core.Errors.{Result, ok, err}
use central_core.Cache.{ManagedFile}
use central_core.Providers.Ids.{ProviderInstanceId}
use central_core.Providers.Model.{ProviderFile}
use central_core.Providers.Manifest.{ProviderInstanceDefinition}
use central_core.Providers.Components.Selection.{ComponentSelections}
use central_core.Providers.Components.Resolve.{ResolvedComponentSet, resolve_components}
use central_core.Providers.Update.Tree.{file_at}
use central_core.Providers.Update.Transaction.{
  Trees, Outcome, each, move_to_backup, move_staged_into_instance,
}
use central_core.Providers.Update.Transaction.Moves.{IsStaged, Moved-move_staged_into_instance}
use central_core.Providers.Update.Transaction.Rollback.{Moved-ok, followed-ok}
use central_core.Providers.Update.Recovery.{restore_backup_tree}
use central_core.Providers.Update.Recovery.Laws.{HasDistinctKeys, recovered}
use central_core.Providers.Update.Desired.{desired_provider_files}
use central_core.Providers.Update.Desired.Wanted.{WantedAt}
use central_core.Providers.Update.Plan.{UpdatePlan, plan_update_with}
use central_core.Providers.Update.Plan.Laws.{
  Has, current-cases, desired-cases, plan_update_with-MapDifference,
}
use central_core.Providers.Update.Apply.{OnDisk, Calls, apply_update_unlocked}
use central_core.Providers.Update.Apply.Moved.{AreMoved, AreMoved-apply_update_unlocked}
use central_core.Providers.Update.Apply.Files.{contains-changed_paths, contains-backup_paths}

-- A file that is in the instance stays there while others are moved in, and one that is moved in is
-- there.
stays_there :
    (p : Text) (ps : List Text) (s t : Trees)
    → each move_staged_into_instance ps s ≡ (ok tt, t)
    → is_some (file_at p s.instance_files) ≡ true
    → is_some (file_at p t.instance_files) ≡ true
unfolding each
stays_there p [] s t e h =
    subst (λ (x : Trees). is_some (file_at p x.instance_files) ≡ true) (ap (λ (o : Outcome). o.1) e)
      h
stays_there p (k ∷ ps) s t e h =
    let (u, first, e1) =
      followed-ok (move_staged_into_instance k s) (each move_staged_into_instance ps) t e in
    let b = Moved-ok (IsStaged k s) s u _ (Moved-move_staged_into_instance k s) first in
    stays_there p ps u t e1 (ground (arith, b.instance_files p, b.there, h, text_eq_iff k p))

is_moved_in :
    (p : Text) (ps : List Text) (s t : Trees)
    → each move_staged_into_instance ps s ≡ (ok tt, t)
    → contains p ps ≡ true
    → is_some (file_at p t.instance_files) ≡ true
unfolding each contains
is_moved_in p [] s t e h = absurd (cc h)
is_moved_in p (k ∷ ps) s t e h =
    let (u, first, e1) =
      followed-ok (move_staged_into_instance k s) (each move_staged_into_instance ps) t e in
    let b = Moved-ok (IsStaged k s) s u _ (Moved-move_staged_into_instance k s) first in
    elim (Bool-cases (text_eq k p)) [
      | inl here ↦
          stays_there p ps u t e1 (ground (arith, b.instance_files p, b.there, text_eq_iff k p))
      | inr other ↦ is_moved_in p ps u t e1 (ground arith)
    ]

module _ {Url Spec : Type 0} (calls : Calls Url Spec) where
  -- A wanted file cannot be put where a file is that the provider does not own.
  refuses :
      (transaction local_instance_id : Text) (from_revision : ℕ) (key : ProviderInstanceId)
      (definition : ProviderInstanceDefinition Url)
      (selections expected_selections : ComponentSelections) (resolved : ResolvedComponentSet)
      (plan : UpdatePlan Url) (target_spec : Result Spec) (s : OnDisk Url Spec) (p : Text)
      (f : ProviderFile Url)
      → resolve_components definition.components selections ≡ some (ok resolved)
      → plan_update_with local_instance_id from_revision key definition selections
          expected_selections none s.index
        ≡ some (ok plan)
      → plan.base_game_changed ≡ false
      → WantedAt definition resolved p f
      → ((e : ManagedFile Url) → Has key s.index.files p e → ⊥)
      → is_some (file_at p s.instance_files) ≡ true
      → (out : Result (Unit {0}) × OnDisk Url Spec)
      → AreMoved calls transaction plan s (calls.stage plan).1 out
      → out.0 ≢ ok tt
  refuses transaction local_instance_id from_revision key definition selections expected_selections
        resolved plan target_spec s p f enabled made same wanted unowned there (err e, t) moved =
      λ h. cc h
  refuses transaction local_instance_id from_revision key definition selections expected_selections
        resolved plan target_spec s p f enabled made same wanted unowned there (ok u, t) moved =
      λ h.
        let d =
          plan_update_with-MapDifference local_instance_id from_revision key definition selections
            expected_selections none s.index resolved plan p enabled made in
        let changes = contains-changed_paths plan p in
        let saves = contains-backup_paths plan p in
        elim (current-cases key s.index.files p) [
          | inr (e, here, owned) ↦ unowned e owned
          | inl (gone, other) ↦
              elim (desired-cases definition resolved p (desired_provider_files definition resolved)
                refl) [
                  | inl (none_wanted, unwanted) ↦ unwanted f wanted
                  | inr (w, here, wanted_there) ↦ absurd (
                      ground (
                        arith,
                        moved.free p,
                        there,
                        d.downloads,
                        d.replacements,
                        d.removals,
                        changes,
                        saves,
                      ))
                ]
        ]

  -- A file that an abandoned update had moved into the instance is still there after its backups are
  -- recovered. Then every update fails whose plan wants a file at that path, while the index has none
  -- there that the provider owns, and which leaves the base game.
  pub restore_backup_tree-orphan :
      (backed_up applied : List Text) (s u v t : Trees) (p : Text)
      (transaction local_instance_id : Text) (from_revision : ℕ) (key : ProviderInstanceId)
      (definition : ProviderInstanceDefinition Url)
      (selections expected_selections : ComponentSelections) (resolved : ResolvedComponentSet)
      (plan : UpdatePlan Url) (target_spec : Result Spec) (later : OnDisk Url Spec)
      (f : ProviderFile Url)
      → each move_to_backup backed_up s ≡ (ok tt, u)
      → each move_staged_into_instance applied u ≡ (ok tt, v)
      → contains p applied ≡ true
      → HasDistinctKeys v.backups
      → restore_backup_tree v ≡ (ok tt, t)
      → later.instance_files ≡ t.instance_files
      → resolve_components definition.components selections ≡ some (ok resolved)
      → plan_update_with local_instance_id from_revision key definition selections
          expected_selections none later.index
        ≡ some (ok plan)
      → plan.base_game_changed ≡ false
      → WantedAt definition resolved p f
      → ((e : ManagedFile Url) → Has key later.index.files p e → ⊥)
      → (is_some (file_at p t.instance_files) ≡ true)
        × ((apply_update_unlocked calls transaction plan target_spec later).0 ≢ ok tt)
  restore_backup_tree-orphan backed_up applied s u v t p transaction local_instance_id from_revision
        key definition selections expected_selections resolved plan target_spec later f saves moves
        member distinct restores same enabled made unchanged wanted unowned =
      let stays : is_some (file_at p t.instance_files) ≡ true =
        ground (arith, recovered v t p distinct restores, is_moved_in p applied u v moves member) in
      (
        stays,
        refuses transaction local_instance_id from_revision key definition selections
            expected_selections resolved plan target_spec later p f enabled made unchanged wanted
            unowned (rw same stays) _
            (AreMoved-apply_update_unlocked calls transaction plan target_spec later unchanged),
      )
