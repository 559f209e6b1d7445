-- ===== src/Providers/Components/Selection/Laws.antt =====
-- Defaults apply only to components that have never had a local choice.
use central_core.Prelude.{
  ◌≡◌, Bool, ◌&&◌, Option, some, none, List, [], ◌∷◌, arith, Text, TextMap, text_eq, text_eq_iff,
  get, get-insert, not, if◌then◌else◌,
}
use central_core.Providers.Model.{ProviderComponent}
use central_core.Providers.Components.Selection.{
  ComponentSelections, is_required, or_insert, initialize_one, initialize_from,
  initialize_selections,
}

get-or_insert :
    (k j : Text) (v : Bool) (m : TextMap Bool)
    → get j (or_insert k v m)
      ≡ (elim (get j m) [ some w ↦ some w | none ↦ if text_eq k j then some v else none ])
unfolding or_insert
get-or_insert k j v m = ground (arith, get-insert k j v m, text_eq_iff k j)

module _ {Url : Type 0} where
  -- The first optional component of that id.
  abbrev pub default_of : Text → List (ProviderComponent Url) → Option Bool
  default_of j [] = none
  default_of j (c ∷ cs) =
      if not (is_required c.requirement) && text_eq c.id j
      then some c.default_enabled
      else default_of j cs

  get-initialize_one :
      (j : Text) (c : ProviderComponent Url) (m : TextMap Bool)
      → get j (initialize_one c m) ≡ (elim (get j m) [
        | some w ↦ some w
        | none ↦
            if not (is_required c.requirement) && text_eq c.id j
            then some c.default_enabled
            else none
      ])
  unfolding initialize_one
  get-initialize_one j c m =
      ground (arith, get-insert c.id j c.default_enabled m, text_eq_iff c.id j)

  get-initialize_from :
      (j : Text) (cs : List (ProviderComponent Url)) (m : TextMap Bool)
      → get j (initialize_from cs m) ≡ (elim (get j m) [ some w ↦ some w | none ↦ default_of j cs ])
  unfolding initialize_from
  get-initialize_from j [] m = ground arith
  get-initialize_from j (c ∷ cs) m =
      ground (arith, get-initialize_from j cs (initialize_one c m), get-initialize_one j c m)

  -- After the defaults are filled in, every choice that was there is unchanged, and any other id
  -- has the default of the first optional component with that id, or no entry if there is none.
  pub get-initialize_selections :
      (j : Text) (cs : List (ProviderComponent Url)) (s : ComponentSelections)
      → get j (initialize_selections cs s).components
        ≡ (elim (get j s.components) [ some w ↦ some w | none ↦ default_of j cs ])
  unfolding initialize_selections
  get-initialize_selections j cs s = get-initialize_from j cs s.components

  -- Filling in the defaults a second time changes no choice.
  pub initialize_selections_idem :
      (j : Text) (cs : List (ProviderComponent Url)) (s : ComponentSelections)
      → get j (initialize_selections cs (initialize_selections cs s)).components
        ≡ get j (initialize_selections cs s).components
  initialize_selections_idem j cs s = ground (
    arith,
    get-initialize_selections j cs (initialize_selections cs s),
    get-initialize_selections j cs s,
  )
