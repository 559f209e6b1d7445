-- ===== src/Providers/Components/Graph/Laws.antt =====
-- What the index of the components holds, and what the check of the graph establishes about
-- references.
use mathlib.Core.List.{foldl}
use mathlib.Core.Option.{some-injective}
use central_core.Prelude.{
  ◌≡◌, inl, inr, true, ◌||◌, not, some, List, [], ◌∷◌, arith, All, any, Text, TextMap, text_eq, get,
  keys, insert, get-insert, contains, contains-keys, is_some, Bool-cases,
}
use central_core.Errors.{ok, >>=-eq-ok, reject-eq-ok, run_bind-eq-ok}
use central_core.Providers.Model.{ProviderComponent}
use central_core.Providers.Components.Graph.{
  ById, Edges, by_id_of, link_requires, link, validate_dependency_graph, no_edges,
}

module _ {Url : Type 0} where
  is_some-insert :
      (k j : Text) (v : ProviderComponent Url) (m : ById Url)
      → is_some (get j (insert k v m)) ≡ (text_eq k j || is_some (get j m))
  is_some-insert k j v m = ground (arith, get-insert k j v m)

  is_some-foldl :
      (j : Text) (cs : List (ProviderComponent Url)) (m : ById Url)
      → is_some (get j (foldl (λ m c. insert c.id c m) m cs))
        ≡ (is_some (get j m) || any (λ c. text_eq c.id j) cs)
  is_some-foldl j [] m = ground arith
  is_some-foldl j (c ∷ cs) m =
      ground (arith, is_some-foldl j cs (insert c.id c m), is_some-insert c.id j c m)

  -- The index has the ids of the components.
  pub contains-keys-by_id_of :
      (j : Text) (cs : List (ProviderComponent Url))
      → contains j (keys (by_id_of cs)) ≡ any (λ c. text_eq c.id j) cs
  unfolding by_id_of get
  contains-keys-by_id_of j cs =
      ground (arith, contains-keys j (foldl (λ m c. insert c.id c m) [] cs), is_some-foldl j cs [])

  module _ (by_id : ById Url) where
    link_requires-known :
        (id : Text) (ds : List Text) (dependents after : TextMap (List Text))
        → link_requires by_id id ds dependents ≡ ok after
        → All (λ d. contains d (keys by_id) ≡ true) ds
    unfolding link_requires
    link_requires-known id [] dependents after e = tt
    link_requires-known id (d ∷ ds) dependents after e =
        let (there, e') = reject-eq-ok (not (is_some (get d by_id))) _ _ e in
        (ground (arith, contains-keys d by_id), link_requires-known id ds _ after e')

    link-known :
        (rest : ById Url) (edges after : Edges) (id : Text) (c : ProviderComponent Url)
        → link by_id rest edges ≡ ok after
        → get id rest ≡ some c
        → All (λ d. contains d (keys by_id) ≡ true) c.requires
    unfolding link get
    link-known [] edges after id c e found = cc
    link-known ((j, x) ∷ rest) edges after id c e found =
        let (dependents, e1, e2) =
          >>=-eq-ok (link_requires by_id j x.requires edges.dependents) _ e in
        elim (Bool-cases (text_eq j id)) [
          | inl same ↦
              let eq = some-injective x c (rw (same, get) at found) in
              rw (← eq) (link_requires-known j x.requires edges.dependents dependents e1)
          | inr other ↦ link-known rest _ after id c e2 (rw (other, get) at found)
        ]

    -- A graph that passes the check has no reference to an unknown component.
    pub validate_dependency_graph-known :
        validate_dependency_graph by_id ≡ some (ok tt)
        → (id : Text) (c : ProviderComponent Url) → get id by_id ≡ some c
        → All (λ d. contains d (keys by_id) ≡ true) c.requires
    unfolding validate_dependency_graph
    validate_dependency_graph-known e id c found =
        let (edges, linked, e') = run_bind-eq-ok (some (link by_id by_id no_edges)) _ e in
        link-known by_id no_edges edges id c (some-injective _ _ linked) found
