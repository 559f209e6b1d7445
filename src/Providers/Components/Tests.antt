-- ===== src/Providers/Components/Tests.antt =====
-- Choices: one made by the user, one left to its default.
use central_core.Prelude.{
  ◌≡◌, refl, Bool, true, false, none, some, List, [], ◌∷◌, Text, String, text, get, strings, maps,
}
use central_core.Providers.Model.{ProviderComponent, ComponentRequirement}
use central_core.Providers.Components.Selection.{ComponentSelections, initialize_selections}
use central_core.Providers.Components.Selection.Laws.{default_of, get-initialize_selections}

abbrev optional_component : Text → Bool → ProviderComponent String
optional_component id on = record {
  id = id;
  name = id;
  description = none;
  requirement = ComponentRequirement.optional;
  default_enabled = on;
  requires = [];
  conflicts = [];
  files = [];
}

abbrev shaders : List (ProviderComponent String)
shaders = optional_component (text "iris") true ∷ optional_component (text "sodium") true ∷ []

abbrev chosen : ComponentSelections
chosen = record { format_version = 1; components = (text "iris", false) ∷ [] }

fills_in :
    (initialize_selections shaders chosen).components
    ≡ (text "iris", false) ∷ (text "sodium", true) ∷ []
unfolding initialize_selections strings maps
fills_in = refl

get-initialize_selections_example :
    get (text "sodium") (initialize_selections shaders chosen).components
    ≡ (elim (get (text "sodium") chosen.components) [
      | some w ↦ some w
      | none ↦ default_of (text "sodium") shaders
    ])
get-initialize_selections_example = get-initialize_selections (text "sodium") shaders chosen
