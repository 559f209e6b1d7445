-- ===== src/Providers/Components/Graph.antt =====
-- `validate_dependency_graph` of providers/components.rs, the check for unknown references and for
-- cycles. `none` stands for a count that is taken below zero, which panics, and for a loop that
-- does not end within its fuel, the number of components.
pub mod Laws
use mathlib.Core.List.{foldl}
use central_core.Prelude.{
  ℕ, zero, suc, ◌-◌, Bool, Option, none, some, List, [], ◌∷◌, ◌++◌, length, retain, keys, Text,
  TextMap, get, insert, unwrap_or, is_some, not, ltb, ◌==◌, if◌then◌else◌,
}
use central_core.Errors.{Error, ProviderError, Result, ok, err, ◌>>=◌, ◌>>◌, reject, Run, run_bind}
use central_core.Providers.Model.{ProviderComponent}

abbrev pub ById : Type 0 → Type 0
ById Url = TextMap (ProviderComponent Url)

pub record Edges : Type 0 where
  pub dependency_count : TextMap ℕ
  pub dependents : TextMap (List Text)

module _ {Url : Type 0} where
  -- `components.iter().map(...).collect::<BTreeMap<_, _>>()`
  unfoldable pub by_id_of : List (ProviderComponent Url) → ById Url
  by_id_of components = foldl (λ m c. insert c.id c m) [] components

  -- The inner loop over `component.requires`.
  unfoldable pub link_requires :
      ById Url → Text → List Text → TextMap (List Text) → Result (TextMap (List Text))
  link_requires by_id id [] dependents = ok dependents
  link_requires by_id id (d ∷ ds) dependents = do
    reject (not (is_some (get d by_id)))
        (Error.static_provider (ProviderError.invalid_component_reference id d))
    link_requires by_id id ds (insert d (unwrap_or (get d dependents) [] ++ (id ∷ [])) dependents)

  unfoldable pub link : ById Url → ById Url → Edges → Result Edges
  unfolding link_requires
  link by_id [] edges = ok edges
  link by_id ((id, c) ∷ rest) edges = do
    dependents ← link_requires by_id id c.requires edges.dependents
    link by_id rest (record {
      dependency_count = insert id (length c.requires) edges.dependency_count;
      dependents = dependents;
    })

-- The ids whose count is zero, and those whose count is not.
abbrev pub ready_ids : TextMap ℕ → List Text
ready_ids counts = keys (retain (λ e. e.1 == 0) counts)

abbrev pub blocked_ids : TextMap ℕ → List Text
blocked_ids counts = keys (retain (λ e. ltb 0 e.1) counts)

-- The loop over the dependents of one id that is ready.
unfoldable pub release : Text → List Text → TextMap ℕ → List Text → Run (TextMap ℕ × List Text)
release id [] counts ready = some (ok (counts, ready))
release id (d ∷ ds) counts ready = elim (get d counts) [
  | none ↦ some (err (Error.static_provider (ProviderError.invalid_component_reference d id)))
  | some n ↦ elim n [
    | zero ↦ none
    | suc left ↦
        release id ds (insert d left counts) (if left == 0 then ready ++ (d ∷ []) else ready)
  ]
]

-- `while let Some(id) = ready.pop_front()`
unfoldable pub drain : ℕ → TextMap (List Text) → TextMap ℕ → List Text → ℕ → Run (ℕ × TextMap ℕ)
unfolding release
drain fuel dependents counts [] resolved = some (ok (resolved, counts))
drain zero dependents counts (id ∷ ready) resolved = none
drain (suc fuel) dependents counts (id ∷ ready) resolved =
    run_bind (release id (unwrap_or (get id dependents) []) counts ready)
      (λ p. drain fuel dependents p.0 p.1 (suc resolved))

abbrev pub no_edges : Edges
no_edges = record { dependency_count = []; dependents = [] }

abbrev pub check_resolved : ℕ → ℕ × TextMap ℕ → Run (Unit {0})
check_resolved total (resolved, counts) =
    if resolved == total
    then some (ok tt)
    else some (
        err (Error.static_provider (ProviderError.component_dependency_cycle (blocked_ids counts))))

module _ {Url : Type 0} where
  unfoldable pub validate_dependency_graph : ById Url → Run (Unit {0})
  unfolding link drain
  validate_dependency_graph by_id = run_bind (some (link by_id by_id no_edges)) (λ edges.
      run_bind
        (drain (length by_id) edges.dependents edges.dependency_count
          (ready_ids edges.dependency_count) 0)
        (check_resolved (length by_id)))
