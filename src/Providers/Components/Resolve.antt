-- ===== src/Providers/Components/Resolve.antt =====
-- `resolve_components` of providers/components.rs. The loop has as fuel the number of components
-- and of those that are selected.
pub mod Laws
pub mod Conflicts
mod Tests
use mathlib.Core.List.{foldl}
use central_core.Prelude.{
  ℕ, ◌+◌, Bool, Option, none, some, List, [], ◌∷◌, find, retain, map, Text, TextMap, get, length,
  remove_key, contains, insert_set, unwrap_or, if◌then◌else◌,
}
use central_core.Errors.{Error, ProviderError, Result, ok, err, Run, run_bind}
use central_core.Providers.Model.{ComponentRequirement, ProviderComponent}
use central_core.Providers.Components.Selection.{ComponentSelections, is_selected}
use central_core.Providers.Components.Graph.{ById, by_id_of, validate_dependency_graph}
use central_core.Providers.Components.Closure.{Marks, propagate}

pub record ComponentStatus : Type 0 where
  pub id : Text
  pub name : Text
  pub description : Option Text
  pub requirement : ComponentRequirement
  pub selected : Bool
  pub enabled : Bool
  pub enabled_by : List Text

pub record ResolvedComponentSet : Type 0 where
  pub enabled : List Text
  pub statuses : List ComponentStatus

-- `ResolvedComponentSet::is_enabled`
unfoldable pub is_enabled : ResolvedComponentSet → Text → Bool
is_enabled set id = contains id set.enabled

module _ {Url : Type 0} where
  -- `components.iter().filter(...).map(...).collect::<BTreeSet<_>>()`
  unfoldable pub selected_ids :
      ComponentSelections → List (ProviderComponent Url) → List Text → List Text
  unfolding is_selected
  selected_ids selections [] ids = ids
  selected_ids selections (c ∷ cs) ids =
      selected_ids selections cs (if is_selected selections c then insert_set c.id ids else ids)

  -- One round of the search for two enabled components in conflict, before the later rounds.
  unfoldable pub check_conflict :
      List Text → Text → Option (ProviderComponent Url) → Run (Unit {0}) → Run (Unit {0})
  check_conflict enabled id none later = none
  check_conflict enabled id (some c) later = elim (find (λ x. contains x enabled) c.conflicts) [
    | some x ↦ some (err (Error.static_provider (ProviderError.component_conflict id x)))
    | none ↦ later
  ]

  unfoldable pub check_conflicts : ById Url → List Text → List Text → Run (Unit {0})
  unfolding check_conflict
  check_conflicts by_id enabled [] = some (ok tt)
  check_conflicts by_id enabled (id ∷ ids) =
      check_conflict enabled id (get id by_id) (check_conflicts by_id enabled ids)

  status_of : ComponentSelections → Marks → ProviderComponent Url → ComponentStatus
  unfolding is_selected
  status_of selections m c = record {
    id = c.id;
    name = c.name;
    description = c.description;
    requirement = c.requirement;
    selected = is_selected selections c;
    enabled = contains c.id m.enabled;
    enabled_by = unwrap_or (get c.id m.enabled_by) [];
  }

  -- The closure removes from `enabled_by` as it goes.
  unfoldable pub statuses_of :
      ComponentSelections → Marks → List (ProviderComponent Url) → List ComponentStatus
  unfolding status_of
  statuses_of selections m [] = []
  statuses_of selections m (c ∷ cs) =
      status_of selections m c
      ∷ statuses_of selections (record m { enabled_by = remove_key c.id m.enabled_by }) cs

  unfoldable pub conclude :
      ComponentSelections → List (ProviderComponent Url) → Option Marks → Run ResolvedComponentSet
  unfolding check_conflicts statuses_of
  conclude selections components none = none
  conclude selections components (some m) =
      run_bind (check_conflicts (by_id_of components) m.enabled m.enabled) (λ _.
        some (ok (record { enabled = m.enabled; statuses = statuses_of selections m components })))

  unfoldable pub resolve_components :
      List (ProviderComponent Url) → ComponentSelections → Run ResolvedComponentSet
  unfolding conclude selected_ids by_id_of validate_dependency_graph propagate
  resolve_components components selections =
      let by_id = by_id_of components in
      let enabled = selected_ids selections components [] in
      run_bind (validate_dependency_graph by_id) (λ _. conclude selections components (
        propagate (length by_id + length enabled) by_id
          (record { enabled = enabled; enabled_by = [] }) enabled))
