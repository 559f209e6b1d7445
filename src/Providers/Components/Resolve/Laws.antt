-- ===== src/Providers/Components/Resolve/Laws.antt =====
-- Which components are enabled when the resolution succeeds, and that it comes to an end.
use mathlib.Core.List.{Memᴰ}
use central_core.Prelude.{
  ◌+◌, ◌≡◌, ◌↔◌, inl, inr, refl, Bool, true, ◌&&◌, ◌||◌, Option, some, none, List, [], ◌∷◌, arith,
  any, length, Text, text_eq, text_eq_iff, get, contains, contains-insert_set, insert_set,
  Bool-cases,
}
use central_core.Errors.{ok, run_bind-eq-ok}
use central_core.Providers.Model.{ProviderComponent}
use central_core.Providers.Components.Selection.{ComponentSelections, is_selected}
use central_core.Providers.Components.Graph.{ById, by_id_of, validate_dependency_graph}
use central_core.Providers.Components.Closure.{Marks, propagate}
use central_core.Providers.Components.Closure.Laws.{
  Settled, propagate-closed, propagate-keeps, propagate-All,
}
use central_core.Providers.Components.Resolve.{
  ResolvedComponentSet, is_enabled, selected_ids, check_conflicts, statuses_of, conclude,
  resolve_components,
}

-- What has to be enabled: the selected components, and what these require, directly or not.
pub data Needed {Url : Type 0} (components : List (ProviderComponent Url))
    (selections : ComponentSelections) : Text → Type 0 where
  chosen :
      (id : Text) (c : ProviderComponent Url)
      → Memᴰ c components
      → is_selected selections c ≡ true
      → c.id ≡ id
      → Needed components selections id
  required_by :
      (id d : Text) (c : ProviderComponent Url)
      → Needed components selections id
      → get id (by_id_of components) ≡ some c
      → contains d c.requires ≡ true
      → Needed components selections d

any-Mem {ℓ} :
    {A : Type ℓ} (p : A → Bool) (xs : List A) → any p xs ≡ true → (x : A) × Memᴰ x xs × (p x ≡ true)
any-Mem p [] h = cc
any-Mem p (x ∷ xs) h = elim (Bool-cases (p x)) [
  | inl here ↦ (x, Memᴰ.head refl, here)
  | inr gone ↦ let (y, m, e) = any-Mem p xs (ground arith) in (y, Memᴰ.tail m, e)
]

any_of_Mem {ℓ} :
    {A : Type ℓ} (p : A → Bool) {x : A} {xs : List A} → Memᴰ x xs → p x ≡ true → any p xs ≡ true
any_of_Mem p (Memᴰ.head e) h = ground arith
any_of_Mem p (Memᴰ.tail m) h = ground (arith, any_of_Mem p m h)

module _ {Url : Type 0} (selections : ComponentSelections) where
  pub contains-selected_ids :
      (j : Text) (cs : List (ProviderComponent Url)) (ids : List Text)
      → contains j (selected_ids selections cs ids)
        ≡ (contains j ids || any (λ c. is_selected selections c && text_eq c.id j) cs)
  unfolding selected_ids
  contains-selected_ids j [] ids = ground arith
  contains-selected_ids j (c ∷ cs) ids = ground (
    arith,
    contains-selected_ids j cs (insert_set c.id ids),
    contains-selected_ids j cs ids,
    contains-insert_set c.id j ids,
  )

module _ {Url : Type 0} (selections : ComponentSelections)
    (components : List (ProviderComponent Url)) where
  abbrev by_id : ById Url
  by_id = by_id_of components

  abbrev start : List Text
  start = selected_ids selections components []

  -- The run of the loop behind a successful resolution.
  pub record Resolution (r : ResolvedComponentSet) : Type 0 where
    pub graph : validate_dependency_graph by_id ≡ some (ok tt)
    pub marks : Marks
    pub loop :
        propagate
          (length by_id + length start)
          by_id
          (record { enabled = start; enabled_by = [] })
          start
        ≡ some marks
    pub free : check_conflicts by_id marks.enabled marks.enabled ≡ some (ok tt)
    pub enabled : r.enabled ≡ marks.enabled
    pub statuses : r.statuses ≡ statuses_of selections marks components

  conclude-eq-ok :
      (o : Option Marks) (r : ResolvedComponentSet)
      → conclude selections components o ≡ some (ok r)
      → (m : Marks) × (o ≡ some m)
        × (check_conflicts by_id m.enabled m.enabled ≡ some (ok tt))
        × (r.enabled ≡ m.enabled)
        × (r.statuses ≡ statuses_of selections m components)
  unfolding conclude
  conclude-eq-ok none r h = cc
  conclude-eq-ok (some m) r h =
      let (u, free, same) = run_bind-eq-ok (check_conflicts by_id m.enabled m.enabled) _ h in
      (m, refl, ground arith, ground arith, ground arith)

  pub Resolution-of :
      (r : ResolvedComponentSet)
      → resolve_components components selections ≡ some (ok r)
      → Resolution r
  unfolding resolve_components
  Resolution-of r h =
      let (u, graph, h') = run_bind-eq-ok (validate_dependency_graph by_id) _ h in
      let (m, loop, free, enabled, statuses) = conclude-eq-ok _ r h' in
      record {
        graph = ground arith;
        marks = m;
        loop = loop;
        free = free;
        enabled = enabled;
        statuses = statuses;
      }

  chosen_of_contains : (j : Text) → contains j start ≡ true → Needed components selections j
  chosen_of_contains j h =
      let (c, m, e) =
        any-Mem (λ c. is_selected selections c && text_eq c.id j) components
          (unfold contains in ground (arith, contains-selected_ids selections j components [])) in
      Needed.chosen j c m (ground arith) ((text_eq_iff c.id j).0 (ground arith))

  start_of_chosen :
      (j : Text) (c : ProviderComponent Url)
      → Memᴰ c components
      → is_selected selections c ≡ true
      → c.id ≡ j
      → contains j start ≡ true
  start_of_chosen j c m s e = ground (
    arith,
    contains-selected_ids selections j components [],
    any_of_Mem (λ c. is_selected selections c && text_eq c.id j) m
        (ground (arith, text_eq_iff c.id j)),
  )

  Settled-start : Settled by_id start start
  Settled-start id c found on = inl on

  enabled_of_Needed :
      (m : Marks)
      → propagate
          (length by_id + length start)
          by_id
          (record { enabled = start; enabled_by = [] })
          start
        ≡ some m
      → (j : Text) → Needed components selections j
      → contains j m.enabled ≡ true
  enabled_of_Needed m loop j (Needed.chosen _ c listed s e) =
      propagate-keeps by_id _ _ m start j loop (start_of_chosen j c listed s e)
  enabled_of_Needed m loop j (Needed.required_by id _ c n found r) =
      elim (propagate-closed by_id _ _ m start Settled-start loop id c found
        (enabled_of_Needed m loop id n)) [
          | inl waits ↦ absurd (unfold contains in cc)
          | inr closed ↦ closed j r
        ]

  -- When the resolution succeeds, a component is enabled exactly when it is needed: selected, or
  -- required, directly or through others, by a selected one.
  pub resolve_components-enabled_iff :
      (r : ResolvedComponentSet) (id : Text)
      → resolve_components components selections ≡ some (ok r)
      → (is_enabled r id ≡ true) ↔ Needed components selections id
  unfolding is_enabled
  resolve_components-enabled_iff r id h =
      let res = Resolution-of r h in
      (
        (λ e.
            propagate-All by_id (Needed components selections)
              (λ i d c n found q. Needed.required_by i d c n found q) _ _ res.marks start
              chosen_of_contains chosen_of_contains res.loop id (rw res.enabled at e)),
        (λ n. rw res.enabled (enabled_of_Needed res.marks res.loop id n)),
      )
