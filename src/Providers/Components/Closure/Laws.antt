-- ===== src/Providers/Components/Closure/Laws.antt =====
-- What the enabled set is when the loop ends: closed under requirements, and no larger than any
-- closed set that holds what was enabled at the start.
use central_core.Prelude.{
  ℕ, zero, suc, ◌≡◌, ◌⊎◌, inl, inr, true, ◌&&◌, ◌||◌, not, none, some, List, [], ◌∷◌, arith, Text,
  text_eq, text_eq_iff, get, contains, contains-insert_set, contains-append, Option-cases,
  Bool-cases,
}
use central_core.Providers.Model.{ProviderComponent}
use central_core.Providers.Components.Graph.{ById}
use central_core.Providers.Components.Closure.{Marks, mark, queue, visit, propagate}

pub contains-visit :
    (j id : Text) (ds : List Text) (m : Marks) (pending : List Text)
    → contains j (visit id ds m pending).0.enabled ≡ (contains j m.enabled || contains j ds)
unfolding visit contains
contains-visit j id [] m pending = ground arith
contains-visit j id (d ∷ ds) m pending = ground (
  arith,
  contains-visit j id ds (mark id d m) (queue d m pending),
  contains-insert_set d j m.enabled,
)

pub contains-visit_pending :
    (j id : Text) (ds : List Text) (m : Marks) (pending : List Text)
    → contains j (visit id ds m pending).1
      ≡ (contains j pending || (contains j ds && not (contains j m.enabled)))
unfolding visit contains
contains-visit_pending j id [] m pending = ground arith
contains-visit_pending j id (d ∷ ds) m pending = ground (
  arith,
  contains-visit_pending j id ds (mark id d m) (queue d m pending),
  contains-insert_set d j m.enabled,
  contains-append j pending (d ∷ []),
  text_eq_iff d j,
)

none-ne-some {ℓ} : {A : Type ℓ} (a : A) → none ≡ some a → ⊥
none-ne-some a e = cc

module _ {Url : Type 0} (by_id : ById Url) where
  -- Whatever is enabled waits in the queue or has all of its requirements enabled.
  abbrev pub Settled : List Text → List Text → Type 0
  Settled pending enabled =
      (id : Text) (c : ProviderComponent Url)
      → get id by_id ≡ some c
      → contains id enabled ≡ true
      → (contains id pending ≡ true)
        ⊎ ((d : Text) → contains d c.requires ≡ true → contains d enabled ≡ true)

  Settled-visit :
      (id : Text) (c : ProviderComponent Url) (m : Marks) (pending : List Text)
      → get id by_id ≡ some c
      → Settled (id ∷ pending) m.enabled
      → Settled (visit id c.requires m pending).1 (visit id c.requires m pending).0.enabled
  Settled-visit id c m pending found h j e je on = elim (Bool-cases (contains j m.enabled)) [
    | inl old ↦ elim (h j e je old) [
      | inl waits ↦ elim (Bool-cases (text_eq id j)) [
        | inl same ↦ inr (λ d r.
            let same' = (text_eq_iff id j).0 same in
            ground (arith, contains-visit d id c.requires m pending))
        | inr other ↦
            inl
              (unfold contains in ground (arith, contains-visit_pending j id c.requires m pending))
      ]
      | inr closed ↦ inr (λ d r.
          let old_d = closed d r in ground (arith, contains-visit d id c.requires m pending))
    ]
    | inr fresh ↦ inl (
        ground (
          arith,
          contains-visit_pending j id c.requires m pending,
          contains-visit j id c.requires m pending,
        ))
  ]

  -- One round of the loop.
  pub propagate-eq-some :
      (fuel : ℕ) (id : Text) (m m' : Marks) (pending : List Text)
      → propagate (suc fuel) by_id m (id ∷ pending) ≡ some m'
      → (c : ProviderComponent Url) × (get id by_id ≡ some c)
        × (propagate fuel by_id (visit id c.requires m pending).0 (visit id c.requires m pending).1
            ≡ some m')
  unfolding propagate
  propagate-eq-some fuel id m m' pending e = elim (Option-cases (get id by_id)) [
    | inl gone ↦ absurd (none-ne-some m' (rw (gone, propagate) at e))
    | inr (c, found) ↦ (c, found, rw (found, propagate) at e)
  ]

  propagate-nil : (fuel : ℕ) (m m' : Marks) → propagate fuel by_id m [] ≡ some m' → m ≡ m'
  unfolding propagate
  propagate-nil zero m m' e = ground arith
  propagate-nil (suc fuel) m m' e = ground arith

  -- At the end every enabled component has all of its requirements enabled.
  pub propagate-closed :
      (fuel : ℕ) (m m' : Marks) (pending : List Text)
      → Settled pending m.enabled
      → propagate fuel by_id m pending ≡ some m'
      → Settled [] m'.enabled
  propagate-closed fuel m m' [] h e = rw (← propagate-nil fuel m m' e) h
  propagate-closed zero m m' (id ∷ pending) h e = unfold propagate in cc
  propagate-closed (suc fuel) m m' (id ∷ pending) h e =
      let (c, found, e') = propagate-eq-some fuel id m m' pending e in
      propagate-closed fuel (visit id c.requires m pending).0 m' (visit id c.requires m pending).1
        (Settled-visit id c m pending found h) e'

  -- What is enabled stays enabled.
  pub propagate-keeps :
      (fuel : ℕ) (m m' : Marks) (pending : List Text) (j : Text)
      → propagate fuel by_id m pending ≡ some m'
      → contains j m.enabled ≡ true
      → contains j m'.enabled ≡ true
  propagate-keeps fuel m m' [] j e h = rw (← propagate-nil fuel m m' e) h
  propagate-keeps zero m m' (id ∷ pending) j e h = unfold propagate in cc
  propagate-keeps (suc fuel) m m' (id ∷ pending) j e h =
      let (c, found, e') = propagate-eq-some fuel id m m' pending e in
      propagate-keeps fuel (visit id c.requires m pending).0 m' (visit id c.requires m pending).1 j
        e' (ground (arith, contains-visit j id c.requires m pending))

  module _ (P : Text → Type 0)
      (closed : (id d : Text) (c : ProviderComponent Url)
        → P id
        → get id by_id ≡ some c
        → contains d c.requires ≡ true
        → P d) where
    visit-All :
        (id : Text) (c : ProviderComponent Url) (m : Marks) (pending : List Text)
        → get id by_id ≡ some c
        → P id
        → ((j : Text) → contains j m.enabled ≡ true → P j)
        → (j : Text) → contains j (visit id c.requires m pending).0.enabled ≡ true
        → P j
    visit-All id c m pending found p h j e = elim (Bool-cases (contains j m.enabled)) [
      | inl old ↦ h j old
      | inr fresh ↦ closed id j c p found (ground (arith, contains-visit j id c.requires m pending))
    ]

    visit-All_pending :
        (id : Text) (c : ProviderComponent Url) (m : Marks) (pending : List Text)
        → get id by_id ≡ some c
        → P id
        → ((j : Text) → contains j pending ≡ true → P j)
        → (j : Text) → contains j (visit id c.requires m pending).1 ≡ true
        → P j
    visit-All_pending id c m pending found p h j e = elim (Bool-cases (contains j pending)) [
      | inl old ↦ h j old
      | inr fresh ↦
          closed id j c p found (ground (arith, contains-visit_pending j id c.requires m pending))
    ]

    -- A property that requirements inherit holds of all that the loop enables.
    pub propagate-All :
        (fuel : ℕ) (m m' : Marks) (pending : List Text)
        → ((j : Text) → contains j m.enabled ≡ true → P j)
        → ((j : Text) → contains j pending ≡ true → P j)
        → propagate fuel by_id m pending ≡ some m'
        → (j : Text) → contains j m'.enabled ≡ true
        → P j
    propagate-All fuel m m' [] h k e = rw (← propagate-nil fuel m m' e) h
    propagate-All zero m m' (id ∷ pending) h k e = absurd (unfold propagate in cc)
    propagate-All (suc fuel) m m' (id ∷ pending) h k e =
        let (c, found, e') = propagate-eq-some fuel id m m' pending e in
        let p = k id (unfold contains in ground (arith, text_eq_iff id id)) in
        propagate-All fuel (visit id c.requires m pending).0 m' (visit id c.requires m pending).1
          (visit-All id c m pending found p h)
          (visit-All_pending id c m pending found p (λ j w. k j (unfold contains in ground arith)))
          e'
