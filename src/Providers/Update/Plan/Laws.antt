-- ===== src/Providers/Update/Plan/Laws.antt =====
-- What a plan does with each path.
use mathlib.Core.List.{Memᴰ}
use central_core.Providers.Model.{ProviderFile}
use central_core.Providers.Update.Desired.Owned.{
  OwnedAt, Matches, is_same_iff, get-current_files, current_files-there,
}
use central_core.Providers.Update.Desired.Wanted.{
  WantedAt, desired_provider_files-Wanted, Wanted-desired_provider_files, get-desired_paths,
  desired_paths-there,
}
use central_core.Prelude.{
  ℕ, ◌≡◌, ◌↔◌, ◌⊎◌, inl, inr, ap, ◌∙◌, ◌++◌, text, Option-cases, Bool-cases, refl, subst, Bool,
  true, false, not, Option, none, some, List, [], ◌∷◌, arith, Text, TextMap, text_eq_iff, get,
  contains, IsSorted, IsSorted-insert, get-AllAbove,
}
use central_core.Cache.{ManagedFile, ManagedFileIndex}
use central_core.Providers.Ids.{ProviderInstanceId}
use central_core.Providers.Update.Desired.{
  DesiredProviderFile, current_files, desired_paths, desired_provider_files, instance_path, is_same,
}
use central_core.Providers.Update.Plan.{
  action_paths, removal_paths, UpdatePlan, DownloadRequest, Difference, difference, removals_of,
  plan_of, plan_update_with,
}
use central_core.Errors.{ok, run_bind-eq-ok}
use central_core.Providers.Manifest.{ProviderInstanceDefinition}
use central_core.Providers.Components.Selection.{ComponentSelections}
use central_core.Providers.Components.Resolve.{ResolvedComponentSet, resolve_components}

module _ {Url : Type 0} where
  -- What becomes of a path that the definition wants, by the file that the provider owns there.
  abbrev pub is_kept : Option (ManagedFile Url) → Option (DesiredProviderFile Url) → Bool
  is_kept e none = false
  is_kept none (some d) = false
  is_kept (some e) (some d) = is_same e d

  abbrev pub is_downloaded : Option (ManagedFile Url) → Option (DesiredProviderFile Url) → Bool
  is_downloaded e none = false
  is_downloaded none (some d) = true
  is_downloaded (some e) (some d) = false

  abbrev pub is_replaced : Option (ManagedFile Url) → Option (DesiredProviderFile Url) → Bool
  is_replaced e none = false
  is_replaced none (some d) = false
  is_replaced (some e) (some d) = not (is_same e d)

  abbrev pub is_removed : Option (ManagedFile Url) → Option (DesiredProviderFile Url) → Bool
  is_removed none d = false
  is_removed (some e) (some d) = false
  is_removed (some e) none = true

  record Sorts (q : Text) (current : TextMap (ManagedFile Url))
      (desired : TextMap (DesiredProviderFile Url)) (d : Difference) : Type 0 where
    keep : contains q (action_paths d.keep) ≡ is_kept (get q current) (get q desired)
    downloads :
        contains q (action_paths d.downloads) ≡ is_downloaded (get q current) (get q desired)
    replacements :
        contains q (action_paths d.replacements) ≡ is_replaced (get q current) (get q desired)

  Sorts-difference :
      (q : Text) (current : TextMap (ManagedFile Url)) (desired : TextMap (DesiredProviderFile Url))
      → IsSorted desired
      → Sorts q current desired (difference current desired)
  unfolding difference get contains
  Sorts-difference q current [] h = record { keep = refl; downloads = refl; replacements = refl }
  Sorts-difference q current ((p, d) ∷ rest) h =
      let r = Sorts-difference q current rest h.1 in
      record {
        keep = ground (arith, r.keep, get-AllAbove p rest h.0, text_eq_iff p q);
        downloads = ground (arith, r.downloads, get-AllAbove p rest h.0, text_eq_iff p q);
        replacements = ground (arith, r.replacements, get-AllAbove p rest h.0, text_eq_iff p q);
      }

  contains-removals_of :
      (q : Text) (current : TextMap (ManagedFile Url)) (desired : TextMap (DesiredProviderFile Url))
      → contains q (removal_paths (removals_of current desired))
        ≡ is_removed (get q current) (get q desired)
  unfolding removals_of get contains
  contains-removals_of q [] desired = refl
  contains-removals_of q ((p, e) ∷ rest) desired =
      ground (arith, contains-removals_of q rest desired, text_eq_iff p q)

  IsSorted-desired_paths :
      (ds : List (DesiredProviderFile Url)) (m : TextMap (DesiredProviderFile Url))
      → IsSorted m
      → IsSorted (desired_paths ds m)
  unfolding desired_paths
  IsSorted-desired_paths [] m h = h
  IsSorted-desired_paths (d ∷ ds) m h =
      IsSorted-desired_paths ds _ (IsSorted-insert (instance_path d) d m h)

module _ {Url : Type 0} where
  -- What the two maps have at a path.
  module _ (key : ProviderInstanceId) (files : List (ManagedFile Url)) (q : Text) where
    abbrev pub Has : ManagedFile Url → Type 0
    Has e = Memᴰ e files × OwnedAt key q e

    pub current-cases :
        ((get q (current_files key files []) ≡ none) × ((e : ManagedFile Url) → Has e → ⊥))
        ⊎ ((e : ManagedFile Url) × (get q (current_files key files []) ≡ some e) × Has e)
    unfolding get
    current-cases = elim (Option-cases (get q (current_files key files []))) [
      | inl none_there ↦
          inl (
            none_there,
            λ e h. absurd (ground (arith, current_files-there key q files [] e h.0 h.1)),
          )
      | inr (e, there) ↦ elim (get-current_files key q files [] e there) [
        | inl h ↦ inr (e, there, h)
        | inr h ↦ absurd (cc h)
      ]
    ]

  pub desired-cases :
      (definition : ProviderInstanceDefinition Url) (resolved : ResolvedComponentSet) (q : Text)
      (ds : List (DesiredProviderFile Url))
      → ds ≡ desired_provider_files definition resolved
      → ((get q (desired_paths ds []) ≡ none)
          × ((f : ProviderFile Url) → WantedAt definition resolved q f → ⊥))
        ⊎ ((d : DesiredProviderFile Url) × (get q (desired_paths ds []) ≡ some d)
            × WantedAt definition resolved q d.wanted)
  unfolding get
  desired-cases definition resolved q ds same = elim (Option-cases (get q (desired_paths ds []))) [
    | inl none_there ↦ inl (
      none_there,
      λ f h.
          let (d, there, wanted) = Wanted-desired_provider_files definition resolved f h.0 in
          let here : instance_path d ≡ q =
            ap (λ (x : ProviderFile Url). text ".minecraft/" ++ x.path.value) wanted ∙ h.1 in
          absurd (ground (arith, desired_paths-there q ds [] d (rw same there) here)),
    )
    | inr (d, there) ↦ elim (get-desired_paths q ds [] d there) [
      | inl (listed, path) ↦ inr (
        d,
        there,
        (desired_provider_files-Wanted definition resolved d (rw (← same) listed), path),
      )
      | inr h ↦ absurd (cc h)
    ]
  ]

-- The paths of the parts of a plan, by what the two maps have there.
pub record MapDifference {Url : Type 0} (current : Option (ManagedFile Url))
    (desired : Option (DesiredProviderFile Url)) (plan : UpdatePlan Url) (q : Text) : Type 0 where
  pub keep : contains q (action_paths plan.keep) ≡ is_kept current desired
  pub downloads : contains q (action_paths plan.downloads) ≡ is_downloaded current desired
  pub replacements : contains q (action_paths plan.replacements) ≡ is_replaced current desired
  pub removals : contains q (removal_paths plan.removals) ≡ is_removed current desired

-- The paths of the parts of a plan, by the files of the index and those that the definition wants.
pub record IsDifference {Url : Type 0} (key : ProviderInstanceId) (files : List (ManagedFile Url))
    (definition : ProviderInstanceDefinition Url) (resolved : ResolvedComponentSet)
    (plan : UpdatePlan Url) (q : Text) : Type 0 where
  pub keep :
      contains q (action_paths plan.keep) ≡ true
      → (e : ManagedFile Url) × (f : ProviderFile Url) × Has key files q e
        × WantedAt definition resolved q f
        × Matches e f
  pub downloads : (contains q (action_paths plan.downloads) ≡ true) ↔ (
      ((f : ProviderFile Url) × WantedAt definition resolved q f)
      × ((e : ManagedFile Url) → Has key files q e → ⊥))
  pub replacements :
      contains q (action_paths plan.replacements) ≡ true
      → (e : ManagedFile Url) × (f : ProviderFile Url) × Has key files q e
        × WantedAt definition resolved q f
        × (Matches e f → ⊥)
  pub removals : (contains q (removal_paths plan.removals) ≡ true) ↔ (
      ((e : ManagedFile Url) × Has key files q e)
      × ((f : ProviderFile Url) → WantedAt definition resolved q f → ⊥))
  pub settled :
      (e : ManagedFile Url) (f : ProviderFile Url)
      → Has key files q e
      → WantedAt definition resolved q f
      → (contains q (action_paths plan.keep) ≡ true)
        ⊎ (contains q (action_paths plan.replacements) ≡ true)

module _ {Url : Type 0} where
  plan_of-MapDifference :
      (local_instance_id : Text) (from_revision : ℕ) (key : ProviderInstanceId)
      (definition : ProviderInstanceDefinition Url)
      (selections expected_selections : ComponentSelections)
      (base_plan : Option (List DownloadRequest)) (files : List (ManagedFile Url))
      (resolved : ResolvedComponentSet) (q : Text)
      → MapDifference
          (get q (current_files key files []))
          (get q (desired_paths (desired_provider_files definition resolved) []))
          (plan_of local_instance_id from_revision key definition selections expected_selections
            base_plan files resolved)
          q
  unfolding plan_of
  plan_of-MapDifference local_instance_id from_revision key definition selections
        expected_selections base_plan files resolved q =
      let desired = desired_paths (desired_provider_files definition resolved) [] in
      let sorts =
        Sorts-difference q (current_files key files []) desired
          (IsSorted-desired_paths (desired_provider_files definition resolved) [] tt) in
      record {
        keep = sorts.keep;
        downloads = sorts.downloads;
        replacements = sorts.replacements;
        removals = contains-removals_of q (current_files key files []) desired;
      }

  pub plan_update_with-MapDifference :
      (local_instance_id : Text) (from_revision : ℕ) (key : ProviderInstanceId)
      (definition : ProviderInstanceDefinition Url)
      (selections expected_selections : ComponentSelections)
      (base_plan : Option (List DownloadRequest)) (index : ManagedFileIndex Url)
      (resolved : ResolvedComponentSet) (plan : UpdatePlan Url) (q : Text)
      → resolve_components definition.components selections ≡ some (ok resolved)
      → plan_update_with local_instance_id from_revision key definition selections
          expected_selections base_plan index
        ≡ some (ok plan)
      → MapDifference
          (get q (current_files key index.files []))
          (get q (desired_paths (desired_provider_files definition resolved) []))
          plan
          q
  unfolding plan_update_with
  plan_update_with-MapDifference local_instance_id from_revision key definition selections
        expected_selections base_plan index resolved plan q enabled h =
      let (other, e, made) =
        run_bind-eq-ok (resolve_components definition.components selections) _ h in
      let same : plan_of local_instance_id from_revision key definition selections
            expected_selections base_plan index.files resolved
          ≡ plan =
        cc (made, e, enabled) in
      subst
        (λ (made_plan : UpdatePlan Url).
          MapDifference (get q (current_files key index.files []))
            (get q (desired_paths (desired_provider_files definition resolved) [])) made_plan q)
        same
        (plan_of-MapDifference local_instance_id from_revision key definition selections
          expected_selections base_plan index.files resolved q)

  -- The difference in terms of the two maps is that in terms of the two lists.
  IsDifference-MapDifference :
      (key : ProviderInstanceId) (files : List (ManagedFile Url))
      (definition : ProviderInstanceDefinition Url) (resolved : ResolvedComponentSet)
      (plan : UpdatePlan Url) (q : Text) (current : Option (ManagedFile Url))
      (desired : Option (DesiredProviderFile Url))
      → MapDifference current desired plan q
      → ((current ≡ none) × ((e : ManagedFile Url) → Has key files q e → ⊥))
        ⊎ ((e : ManagedFile Url) × (current ≡ some e) × Has key files q e)
      → ((desired ≡ none) × ((f : ProviderFile Url) → WantedAt definition resolved q f → ⊥))
        ⊎ ((d : DesiredProviderFile Url) × (desired ≡ some d)
            × WantedAt definition resolved q d.wanted)
      → IsDifference key files definition resolved plan q
  IsDifference-MapDifference key files definition resolved plan q current desired m
        (inl (gone, unowned)) (inl (none_wanted, unwanted)) =
      record {
        keep = λ h. absurd (ground (arith, m.keep));
        downloads = (λ h. absurd (ground (arith, m.downloads)), λ h. absurd (unwanted h.0.0 h.0.1));
        replacements = λ h. absurd (ground (arith, m.replacements));
        removals = (λ h. absurd (ground (arith, m.removals)), λ h. absurd (unowned h.0.0 h.0.1));
        settled = λ e f h w. absurd (unowned e h);
      }
  IsDifference-MapDifference key files definition resolved plan q current desired m
        (inl (gone, unowned)) (inr (d, here, wanted)) =
      record {
        keep = λ h. absurd (ground (arith, m.keep));
        downloads = (λ h. ((d.wanted, wanted), unowned), λ h. ground (arith, m.downloads));
        replacements = λ h. absurd (ground (arith, m.replacements));
        removals = (λ h. absurd (ground (arith, m.removals)), λ h. absurd (unowned h.0.0 h.0.1));
        settled = λ e f h w. absurd (unowned e h);
      }
  IsDifference-MapDifference key files definition resolved plan q current desired m
        (inr (e, there, owned)) (inl (none_wanted, unwanted)) =
      record {
        keep = λ h. absurd (ground (arith, m.keep));
        downloads = (λ h. absurd (ground (arith, m.downloads)), λ h. absurd (unwanted h.0.0 h.0.1));
        replacements = λ h. absurd (ground (arith, m.replacements));
        removals = (λ h. ((e, owned), unwanted), λ h. ground (arith, m.removals));
        settled = λ x f h w. absurd (unwanted f w);
      }
  IsDifference-MapDifference key files definition resolved plan q current desired m
        (inr (e, there, owned)) (inr (d, here, wanted)) =
      record {
        keep = λ h. (e, d.wanted, owned, wanted, (is_same_iff e d).0 (ground (arith, m.keep)));
        downloads = (λ h. absurd (ground (arith, m.downloads)), λ h. absurd (h.1 e owned));
        replacements = λ h. (
          e,
          d.wanted,
          owned,
          wanted,
          λ same. absurd (ground (arith, m.replacements, (is_same_iff e d).1 same)),
        );
        removals = (λ h. absurd (ground (arith, m.removals)), λ h. absurd (h.1 d.wanted wanted));
        settled = λ x f h w. elim (Bool-cases (is_same e d)) [
          | inl same ↦ inl (ground (arith, m.keep))
          | inr other ↦ inr (ground (arith, m.replacements))
        ];
      }

  -- What a plan does with a path. It is downloaded exactly when the definition wants a file there, one
  -- of its own or of an enabled component, and the index has none there that the provider owns; it is
  -- removed exactly when the index has one and none is wanted. When the index has one and one is
  -- wanted, the path is kept or replaced: kept only if the index has one there with the size and the
  -- digest of a wanted one, and replaced only if it has one that differs from a wanted one in these.
  pub plan_update_with-IsDifference :
      (local_instance_id : Text) (from_revision : ℕ) (key : ProviderInstanceId)
      (definition : ProviderInstanceDefinition Url)
      (selections expected_selections : ComponentSelections)
      (base_plan : Option (List DownloadRequest)) (index : ManagedFileIndex Url)
      (resolved : ResolvedComponentSet) (plan : UpdatePlan Url) (q : Text)
      → resolve_components definition.components selections ≡ some (ok resolved)
      → plan_update_with local_instance_id from_revision key definition selections
          expected_selections base_plan index
        ≡ some (ok plan)
      → IsDifference key index.files definition resolved plan q
  plan_update_with-IsDifference local_instance_id from_revision key definition selections
        expected_selections base_plan index resolved plan q enabled h =
      IsDifference-MapDifference key index.files definition resolved plan q _ _
        (plan_update_with-MapDifference local_instance_id from_revision key definition selections
          expected_selections base_plan index resolved plan q enabled h)
        (current-cases key index.files q)
        (desired-cases definition resolved q (desired_provider_files definition resolved) refl)
