-- ===== src/Providers/Components/Resolve/Tests.antt =====
-- The components of the source's own tests, and the theorems at them.
use central_core.Prelude.{
  ◌≡◌, ◌↔◌, refl, Bool, true, false, none, some, List, [], ◌∷◌, All, Text, text, strings, maps,
  String, get,
}
use central_core.Errors.{Error, ProviderError, Result, ok, err}
use central_core.Providers.Model.{ComponentRequirement, ProviderComponent}
use central_core.Providers.Components.Selection.{ComponentSelections}
use central_core.Providers.Components.Graph.{by_id_of, validate_dependency_graph}
use central_core.Providers.Components.Resolve.{ResolvedComponentSet, is_enabled, resolve_components}
use central_core.Providers.Components.Resolve.Laws.{Needed, resolve_components-enabled_iff}
use central_core.Providers.Components.Resolve.Conflicts.{
  resolve_components-no_conflict, resolve_components-total,
}

abbrev component : String → Bool → List Text → List Text → ProviderComponent String
component id on requires conflicts = record {
  id = text id;
  name = text id;
  description = none;
  requirement = ComponentRequirement.optional;
  default_enabled = on;
  requires = requires;
  conflicts = conflicts;
  files = [];
}

abbrev no_choice : ComponentSelections
no_choice = record { format_version = 1; components = [] }

abbrev chain : List (ProviderComponent String)
chain =
    component "sodium" false [] (text "old" ∷ [])
    ∷ component "iris" true (text "sodium" ∷ []) []
    ∷ component "old" false [] []
    ∷ []

abbrev enabled_set : ResolvedComponentSet
enabled_set = record {
  enabled = text "iris" ∷ text "sodium" ∷ [];
  statuses =
      record {
        id = text "sodium";
        name = text "sodium";
        description = none;
        requirement = ComponentRequirement.optional;
        selected = false;
        enabled = true;
        enabled_by = text "iris" ∷ [];
      }
      ∷ record {
        id = text "iris";
        name = text "iris";
        description = none;
        requirement = ComponentRequirement.optional;
        selected = true;
        enabled = true;
        enabled_by = [];
      }
      ∷ record {
        id = text "old";
        name = text "old";
        description = none;
        requirement = ComponentRequirement.optional;
        selected = false;
        enabled = false;
        enabled_by = [];
      }
      ∷ [];
}

chain_resolves : resolve_components chain no_choice ≡ some (ok enabled_set)
unfolding resolve_components strings maps
chain_resolves = refl

abbrev cycle : List (ProviderComponent String)
cycle =
    component "alpha" true (text "beta" ∷ []) []
    ∷ component "beta" false (text "alpha" ∷ []) []
    ∷ []

cycle_is_refused :
    resolve_components cycle no_choice
    ≡ some (
        err (
          Error.static_provider
            (ProviderError.component_dependency_cycle (text "alpha" ∷ text "beta" ∷ []))))
unfolding resolve_components strings maps
cycle_is_refused = refl

abbrev rivals : List (ProviderComponent String)
rivals = component "alpha" true [] (text "beta" ∷ []) ∷ component "beta" true [] [] ∷ []

conflict_is_refused :
    resolve_components rivals no_choice
    ≡ some (
        err (Error.static_provider (ProviderError.component_conflict (text "alpha") (text "beta"))))
unfolding resolve_components strings maps
conflict_is_refused = refl

resolve_components-enabled_iff_example :
    (is_enabled enabled_set (text "sodium") ≡ true) ↔ Needed chain no_choice (text "sodium")
resolve_components-enabled_iff_example =
    resolve_components-enabled_iff no_choice chain enabled_set (text "sodium") chain_resolves

sodium_is_enabled : is_enabled enabled_set (text "sodium") ≡ true
unfolding is_enabled strings maps
sodium_is_enabled = refl

sodium_is_known :
    get (text "sodium") (by_id_of chain) ≡ some (component "sodium" false [] (text "old" ∷ []))
unfolding by_id_of strings maps
sodium_is_known = refl

resolve_components-no_conflict_example :
    All (λ x. is_enabled enabled_set x ≡ false) (text "old" ∷ [])
resolve_components-no_conflict_example =
    resolve_components-no_conflict no_choice chain enabled_set (text "sodium")
      (component "sodium" false [] (text "old" ∷ [])) chain_resolves sodium_is_enabled
      sodium_is_known

chain_is_sound : validate_dependency_graph (by_id_of chain) ≡ some (ok tt)
unfolding validate_dependency_graph by_id_of strings maps
chain_is_sound = refl

resolve_components-total_example :
    (r : Result ResolvedComponentSet) × (resolve_components chain no_choice ≡ some r)
resolve_components-total_example = resolve_components-total no_choice chain chain_is_sound
