-- ===== src/Providers/Components/Closure.antt =====
-- The loop of `resolve_components` that enables what the enabled components require. `none`
-- stands for `by_id[&id]` on an id that is not there, which panics, and for a loop that does not
-- end within its fuel.
pub mod Laws
pub mod Total
use central_core.Prelude.{
  ℕ, zero, suc, Bool, Option, none, some, List, [], ◌∷◌, ◌++◌, Text, TextMap, get, insert, contains,
  insert_set, unwrap_or, if◌then◌else◌,
}
use central_core.Providers.Model.{ProviderComponent}
use central_core.Providers.Components.Graph.{ById}

pub record Marks : Type 0 where
  pub enabled : List Text
  pub enabled_by : TextMap (List Text)

-- One dependency `d` of the component `id`: `enabled_by` and `enabled.insert`.
unfoldable pub mark : Text → Text → Marks → Marks
mark id d m = record {
  enabled = insert_set d m.enabled;
  enabled_by = insert d (insert_set id (unwrap_or (get d m.enabled_by) [])) m.enabled_by;
}

-- `pending.push_back` of what was not enabled before.
unfoldable pub queue : Text → Marks → List Text → List Text
queue d m pending = if contains d m.enabled then pending else pending ++ (d ∷ [])

unfoldable pub visit : Text → List Text → Marks → List Text → Marks × List Text
unfolding mark queue
visit id [] m pending = (m, pending)
visit id (d ∷ ds) m pending = visit id ds (mark id d m) (queue d m pending)

module _ {Url : Type 0} where
  -- `while let Some(id) = pending.pop_front()`
  unfoldable pub propagate : ℕ → ById Url → Marks → List Text → Option Marks
  unfolding visit
  propagate fuel by_id m [] = some m
  propagate zero by_id m (id ∷ pending) = none
  propagate (suc fuel) by_id m (id ∷ pending) = elim (get id by_id) [
    | none ↦ none
    | some c ↦ let s = visit id c.requires m pending in propagate fuel by_id s.0 s.1
  ]
