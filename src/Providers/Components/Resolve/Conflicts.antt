-- ===== src/Providers/Components/Resolve/Conflicts.antt =====
-- No two components in conflict are enabled together; the resolution of a sound graph ends.
use mathlib.Core.Option.{some-injective}
use central_core.Prelude.{
  ◌+◌, ◌≡◌, inl, inr, refl, subst, Bool, true, false, ◌&&◌, Option, some, none, List, [], ◌∷◌,
  arith, All, any, find, length, Text, text_eq, text_eq_iff, get, keys, contains, contains-keys,
  All-contains, All-of_contains, missing-le, length-keys, Option-cases, Bool-cases,
}
use central_core.Errors.{Error, ProviderError, Result, ok, err, Run}
use central_core.Providers.Model.{ProviderComponent}
use central_core.Providers.Components.Selection.{ComponentSelections, is_selected}
use central_core.Providers.Components.Graph.{ById, by_id_of, validate_dependency_graph}
use central_core.Providers.Components.Graph.Laws.{
  contains-keys-by_id_of, validate_dependency_graph-known,
}
use central_core.Providers.Components.Closure.{Marks}
use central_core.Providers.Components.Closure.Laws.{propagate-All}
use central_core.Providers.Components.Closure.Total.{propagate-total}
use central_core.Providers.Components.Resolve.{
  ResolvedComponentSet, is_enabled, selected_ids, check_conflict, check_conflicts, statuses_of,
  conclude, resolve_components,
}
use central_core.Providers.Components.Resolve.Laws.{contains-selected_ids, Resolution-of}

find-none-All {ℓ} :
    {A : Type ℓ} (p : A → Bool) (xs : List A) → find p xs ≡ none → All (λ x. p x ≡ false) xs
find-none-All p [] h = tt
find-none-All p (x ∷ xs) h = ground (arith, find-none-All p xs)

any-weaken {ℓ} :
    {A : Type ℓ} (p q : A → Bool) (xs : List A) → any (λ x. p x && q x) xs ≡ true → any q xs ≡ true
any-weaken p q [] h = cc
any-weaken p q (x ∷ xs) h = ground (arith, any-weaken p q xs)

module _ {Url : Type 0} (enabled : List Text) where
  check_conflict-eq-ok :
      (id : Text) (o : Option (ProviderComponent Url)) (later : Run (Unit {0}))
      → check_conflict enabled id o later ≡ some (ok tt)
      → (c : ProviderComponent Url) × (o ≡ some c)
        × (All (λ x. contains x enabled ≡ false) c.conflicts)
        × (later ≡ some (ok tt))
  unfolding check_conflict
  check_conflict-eq-ok id none later h = cc
  check_conflict-eq-ok id (some c) later h =
      (c, refl, find-none-All (λ x. contains x enabled) c.conflicts (ground arith), ground arith)

  check_conflict-total :
      (id : Text) (c : ProviderComponent Url) (later : Run (Unit {0}))
      → (r : Result (Unit {0})) × (later ≡ some r)
      → (r : Result (Unit {0})) × (check_conflict enabled id (some c) later ≡ some r)
  unfolding check_conflict
  check_conflict-total id c later (r, e) =
      elim (Option-cases (find (λ x. contains x enabled) c.conflicts)) [
        | inl free ↦ (r, rw (free, check_conflict) e)
        | inr (x, found) ↦ (
          err (Error.static_provider (ProviderError.component_conflict id x)),
          rw (found, check_conflict) refl,
        )
      ]

module _ {Url : Type 0} (by_id : ById Url) (enabled : List Text) where
  check_conflicts-free :
      (ids : List Text) (id : Text) (c : ProviderComponent Url)
      → check_conflicts by_id enabled ids ≡ some (ok tt)
      → contains id ids ≡ true
      → get id by_id ≡ some c
      → All (λ x. contains x enabled ≡ false) c.conflicts
  unfolding contains
  check_conflicts-free [] id c h e found = cc
  check_conflicts-free (j ∷ ids) id c h e found =
      let (c', found', free, later) =
        check_conflict-eq-ok enabled j (get j by_id) (check_conflicts by_id enabled ids)
          (unfold check_conflicts in h) in
      elim (Bool-cases (text_eq j id)) [
        | inl same ↦
            let eq : c' ≡ c = some-injective c' c (cc (found', found, (text_eq_iff j id).0 same)) in
            subst (λ k. All (λ x. contains x enabled ≡ false) k.conflicts) eq free
        | inr other ↦ check_conflicts-free ids id c later (ground arith) found
      ]

  -- The search for a conflict comes to an answer when every enabled component is known.
  check_conflicts-total :
      (ids : List Text)
      → All (λ j. contains j (keys by_id) ≡ true) ids
      → (r : Result (Unit {0})) × (check_conflicts by_id enabled ids ≡ some r)
  unfolding check_conflicts
  check_conflicts-total [] h = (ok tt, refl)
  check_conflicts-total (j ∷ ids) h = elim (Option-cases (get j by_id)) [
    | inl gone ↦ absurd (ground (arith, contains-keys j by_id, h.0))
    | inr (c, found) ↦
        let (r, e) =
          check_conflict-total enabled j c (check_conflicts by_id enabled ids)
            (check_conflicts-total ids h.1) in
        (r, rw found e)
  ]

module _ {Url : Type 0} (selections : ComponentSelections)
    (components : List (ProviderComponent Url)) where
  -- In a successful resolution no enabled component lists an enabled one among its conflicts.
  pub resolve_components-no_conflict :
      (r : ResolvedComponentSet) (id : Text) (c : ProviderComponent Url)
      → resolve_components components selections ≡ some (ok r)
      → is_enabled r id ≡ true
      → get id (by_id_of components) ≡ some c
      → All (λ x. is_enabled r x ≡ false) c.conflicts
  unfolding is_enabled
  resolve_components-no_conflict r id c h on found =
      let res = Resolution-of selections components r h in
      rw res.enabled (
        check_conflicts-free (by_id_of components) res.marks.enabled res.marks.enabled id c res.free
          (rw res.enabled at on) found)

  start-known :
      (j : Text)
      → contains j (selected_ids selections components []) ≡ true
      → contains j (keys (by_id_of components)) ≡ true
  unfolding contains
  start-known j h = ground (
    arith,
    contains-keys-by_id_of j components,
    contains-selected_ids selections j components [],
    any-weaken (λ c. is_selected selections c) (λ c. text_eq c.id j) components,
  )

  conclude_answer :
      (u : Result (Unit {0})) (m : Marks)
      → check_conflicts (by_id_of components) m.enabled m.enabled ≡ some u
      → (r : Result ResolvedComponentSet) × (conclude selections components (some m) ≡ some r)
  unfolding conclude
  conclude_answer (ok t) m e = (
    ok (record { enabled = m.enabled; statuses = statuses_of selections m components }),
    rw e refl,
  )
  conclude_answer (err x) m e = (err x, rw e refl)

  conclude-total :
      (m : Marks)
      → ((j : Text) → contains j m.enabled ≡ true → contains j (keys (by_id_of components)) ≡ true)
      → (r : Result ResolvedComponentSet) × (conclude selections components (some m) ≡ some r)
  unfolding conclude
  conclude-total m known =
      let (u, e) =
        check_conflicts-total (by_id_of components) m.enabled m.enabled
          (All-of_contains (λ j. contains j (keys (by_id_of components)) ≡ true) m.enabled known) in
      conclude_answer u m e

  -- When the graph of the components passes its check, the resolution ends within its fuel and
  -- looks up no unknown id: it answers with a set or with an error.
  pub resolve_components-total :
      validate_dependency_graph (by_id_of components) ≡ some (ok tt)
      → (r : Result ResolvedComponentSet) × (resolve_components components selections ≡ some r)
  unfolding resolve_components
  resolve_components-total graph =
      let by_id = by_id_of components in
      let start = selected_ids selections components [] in
      let (m, loop) =
        propagate-total by_id (validate_dependency_graph-known by_id graph)
          (length by_id + length start) (record { enabled = start; enabled_by = [] }) start
          start-known (omega (arith, missing-le (keys by_id) start, length-keys by_id)) in
      let (r, e) = conclude-total m (
        propagate-All by_id (λ j. contains j (keys by_id) ≡ true)
          (λ id d c here found q.
            All-contains (λ k. contains k (keys by_id) ≡ true) d c.requires
              (validate_dependency_graph-known by_id graph id c found) q)
          (length by_id + length start) (record { enabled = start; enabled_by = [] }) m start
          start-known start-known loop) in
      (r, rw (graph, loop) e)
