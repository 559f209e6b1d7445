-- ===== src/Providers/Components/Closure/Total.antt =====
-- The loop that enables requirements ends within its fuel and never looks up an unknown id.
use central_core.Prelude.{
  ℕ, zero, suc, ◌+◌, ◌≤◌, ◌≡◌, inl, inr, refl, true, some, List, [], ◌∷◌, arith, All, length,
  length-append, Text, text_eq_iff, get, keys, contains, contains-keys, All-contains, missing,
  missing-insert_set-le, missing-insert_set-lt, Option-cases, Bool-cases,
}
use central_core.Providers.Model.{ProviderComponent}
use central_core.Providers.Components.Graph.{ById}
use central_core.Providers.Components.Closure.{Marks, mark, queue, visit, propagate}
use central_core.Providers.Components.Closure.Laws.{contains-visit_pending}

queue-measure :
    (ks : List Text) (id d : Text) (m : Marks) (pending : List Text)
    → contains d ks ≡ true
    → missing ks (mark id d m).enabled + length (queue d m pending)
      ≤ missing ks m.enabled + length pending
unfolding mark queue
queue-measure ks id d m pending known = ground (
  arith,
  missing-insert_set-le ks d m.enabled,
  missing-insert_set-lt ks d m.enabled,
  length-append pending (d ∷ []),
)

-- What is still to be enabled and what waits do not grow together.
visit-measure :
    (ks : List Text) (id : Text) (ds : List Text) (m : Marks) (pending : List Text)
    → All (λ d. contains d ks ≡ true) ds
    → missing ks (visit id ds m pending).0.enabled + length (visit id ds m pending).1
      ≤ missing ks m.enabled + length pending
unfolding visit
visit-measure ks id [] m pending h = omega arith
visit-measure ks id (d ∷ ds) m pending h = omega (
  arith,
  queue-measure ks id d m pending h.0,
  visit-measure ks id ds (mark id d m) (queue d m pending) h.1,
)

module _ {Url : Type 0} (by_id : ById Url) where
  -- Every reference is to a component that is there.
  abbrev pub HasKnownRequires : Type 0
  HasKnownRequires =
      (id : Text) (c : ProviderComponent Url)
      → get id by_id ≡ some c
      → All (λ d. contains d (keys by_id) ≡ true) c.requires

  module _ (known : HasKnownRequires) where
    visit-known :
        (id : Text) (c : ProviderComponent Url) (m : Marks) (pending : List Text)
        → get id by_id ≡ some c
        → ((j : Text) → contains j pending ≡ true → contains j (keys by_id) ≡ true)
        → (j : Text) → contains j (visit id c.requires m pending).1 ≡ true
        → contains j (keys by_id) ≡ true
    visit-known id c m pending found h j e = elim (Bool-cases (contains j pending)) [
      | inl old ↦ h j old
      | inr fresh ↦
          All-contains (λ d. contains d (keys by_id) ≡ true) j c.requires (known id c found)
            (ground (arith, contains-visit_pending j id c.requires m pending))
    ]

    pub propagate-total :
        (fuel : ℕ) (m : Marks) (pending : List Text)
        → ((j : Text) → contains j pending ≡ true → contains j (keys by_id) ≡ true)
        → missing (keys by_id) m.enabled + length pending ≤ fuel
        → (m' : Marks) × (propagate fuel by_id m pending ≡ some m')
    unfolding propagate
    propagate-total zero m [] h le = (m, refl)
    propagate-total (suc fuel) m [] h le = (m, refl)
    propagate-total zero m (id ∷ pending) h le = absurd (omega arith)
    propagate-total (suc fuel) m (id ∷ pending) h le = elim (Option-cases (get id by_id)) [
      | inl gone ↦
          absurd
            (unfold contains in ground (arith, h id, contains-keys id by_id, text_eq_iff id id))
      | inr (c, found) ↦
          let (m', e) =
            propagate-total fuel (visit id c.requires m pending).0 (visit id c.requires m pending).1
              (visit-known id c m pending found (λ j w. h j (unfold contains in ground arith)))
              (omega
                (arith, visit-measure (keys by_id) id c.requires m pending (known id c found))) in
          (m', rw (found, propagate) e)
    ]
