-- ===== src/Providers/Components/Selection.antt =====
-- providers/components.rs, `ComponentSelections` and `initialize_selections`.
pub mod Laws
use central_core.Prelude.{
  ℕ, ◌||◌, Bool, false, true, Option, none, some, List, [], ◌∷◌, Text, TextMap, get, insert,
  unwrap_or,
}
use central_core.Providers.Model.{ComponentRequirement, ProviderComponent}

pub record ComponentSelections : Type 0 where
  pub format_version : ℕ
  pub components : TextMap Bool

-- `requirement == ComponentRequirement::Required`
abbrev pub is_required : ComponentRequirement → Bool
is_required ComponentRequirement.required = true
is_required ComponentRequirement.optional = false

-- `entry(key).or_insert(value)`
pub or_insert : Text → Bool → TextMap Bool → TextMap Bool
or_insert k v m = elim (get k m) [ none ↦ insert k v m | some w ↦ m ]

module _ {Url : Type 0} where
  initialize_one : ProviderComponent Url → TextMap Bool → TextMap Bool
  unfolding or_insert
  initialize_one c m = elim c.requirement [
    | ComponentRequirement.optional ↦ or_insert c.id c.default_enabled m
    | ComponentRequirement.required ↦ m
  ]

  initialize_from : List (ProviderComponent Url) → TextMap Bool → TextMap Bool
  initialize_from [] m = m
  initialize_from (c ∷ cs) m = initialize_from cs (initialize_one c m)

  -- `initialize_selections`
  unfoldable pub initialize_selections :
      List (ProviderComponent Url) → ComponentSelections → ComponentSelections
  unfolding initialize_from initialize_one
  initialize_selections components selections = record selections {
    components = initialize_from components selections.components;
  }

  -- Required, chosen by the user, or on by default.
  unfoldable pub is_selected : ComponentSelections → ProviderComponent Url → Bool
  is_selected selections c =
      is_required c.requirement || unwrap_or (get c.id selections.components) c.default_enabled
