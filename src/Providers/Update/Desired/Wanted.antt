-- ===== src/Providers/Update/Desired/Wanted.antt =====
-- What the map of the wanted files has at a path, told by the definition.
use mathlib.Core.List.Memᴰ
use mathlib.Core.List.{Memᴰ}
use central_core.Prelude.{
  ◌≡◌, ◌⊎◌, inl, inr, refl, sym, ap, subst, Bool, true, false, none, some, List, [], ◌∷◌, ◌++◌, map,
  arith, Text, TextMap, text, text_eq_iff, get, get-insert, contains, is_some, if◌then◌else◌,
}
use central_core.Providers.Model.{ProviderFile, ProviderComponent}
use central_core.Providers.Manifest.{ProviderInstanceDefinition}
use central_core.Providers.Components.Resolve.{ResolvedComponentSet, is_enabled}
use central_core.Providers.Update.Desired.{
  DesiredProviderFile, component_files, enabled_files, desired_provider_files, desired_paths,
  instance_path,
}
use central_core.Providers.Update.Desired.Owned.{get-insert-cases}

-- A file that a definition wants: one of its own, or one of an enabled component.
pub data Wanted {Url : Type 0} (definition : ProviderInstanceDefinition Url)
    (resolved : ResolvedComponentSet) (f : ProviderFile Url) : Type 0 where
  of_definition : Memᴰ f definition.files → Wanted definition resolved f
  of_component :
      (c : ProviderComponent Url)
      → Memᴰ c definition.components
      → contains c.id resolved.enabled ≡ true
      → Memᴰ f c.files
      → Wanted definition resolved f

abbrev pub WantedAt :
    {Url : Type 0}
    → ProviderInstanceDefinition Url
    → ResolvedComponentSet
    → Text
    → ProviderFile Url
    → Type 0
WantedAt definition resolved q f =
    Wanted definition resolved f × (text ".minecraft/" ++ f.path.value ≡ q)

map-cases {ℓ κ} :
    {A : Type ℓ} {B : Type κ} (f : A → B) (b : B) (xs : List A)
    → Memᴰ b (map f xs)
    → (a : A) × Memᴰ a xs × (b ≡ f a)
map-cases f b [] there = absurd (Memᴰ.not-nil there)
map-cases f b (x ∷ xs) (Memᴰ.head same) = (x, Memᴰ.head refl, same)
map-cases f b (x ∷ xs) (Memᴰ.tail there) =
    let (a, rest, same) = map-cases f b xs there in (a, Memᴰ.tail rest, same)

module _ {Url : Type 0} where
  if-cases :
      (b : Bool) (d : DesiredProviderFile Url) (xs ys : List (DesiredProviderFile Url))
      → Memᴰ d (if b then xs ++ ys else ys)
      → ((b ≡ true) × Memᴰ d xs) ⊎ Memᴰ d ys
  if-cases true d xs ys there = elim (Memᴰ.append_cases xs there) [
    | inl here ↦ inl (refl, here)
    | inr later ↦ inr later
  ]
  if-cases false d xs ys there = inr there

  if-first :
      (b : Bool) (d : DesiredProviderFile Url) (xs ys : List (DesiredProviderFile Url))
      → b ≡ true
      → Memᴰ d xs
      → Memᴰ d (if b then xs ++ ys else ys)
  if-first true d xs ys on there = Memᴰ.append_left ys there
  if-first false d xs ys on there = absurd (cc on)

  if-rest :
      (b : Bool) (d : DesiredProviderFile Url) (xs ys : List (DesiredProviderFile Url))
      → Memᴰ d ys
      → Memᴰ d (if b then xs ++ ys else ys)
  if-rest true d xs ys there = Memᴰ.append_right xs there
  if-rest false d xs ys there = there

  enabled_files-cases :
      (resolved : ResolvedComponentSet) (d : DesiredProviderFile Url)
      (cs : List (ProviderComponent Url))
      → Memᴰ d (enabled_files resolved cs)
      → (c : ProviderComponent Url) × Memᴰ c cs
        × (contains c.id resolved.enabled ≡ true)
        × Memᴰ d.wanted c.files
  unfolding enabled_files is_enabled component_files
  enabled_files-cases resolved d [] there = absurd (Memᴰ.not-nil there)
  enabled_files-cases resolved d (c ∷ cs) there =
      elim (if-cases (contains c.id resolved.enabled) d (component_files c)
        (enabled_files resolved cs) there) [
          | inl (on, here) ↦
              let (f, within, same) = map-cases _ d c.files here in
              (
                c,
                Memᴰ.head refl,
                on,
                subst (λ (y : ProviderFile Url). Memᴰ y c.files)
                    (sym (ap (λ (y : DesiredProviderFile Url). y.wanted) same)) within,
              )
          | inr later ↦
              let (x, listed, on, within) = enabled_files-cases resolved d cs later in
              (x, Memᴰ.tail listed, on, within)
        ]

  enabled_files-there :
      (resolved : ResolvedComponentSet) (f : ProviderFile Url) (c : ProviderComponent Url)
      (cs : List (ProviderComponent Url))
      → Memᴰ c cs
      → contains c.id resolved.enabled ≡ true
      → Memᴰ f c.files
      → Memᴰ (record { wanted = f; component_id = some c.id }) (enabled_files resolved cs)
  unfolding enabled_files is_enabled component_files
  enabled_files-there resolved f c [] there on within = absurd (Memᴰ.not-nil there)
  enabled_files-there resolved f c (x ∷ cs) (Memᴰ.head same) on within =
      if-first (contains x.id resolved.enabled) _ (component_files x) (enabled_files resolved cs)
        (subst (λ (y : ProviderComponent Url). contains y.id resolved.enabled ≡ true) same on)
        (subst
          (λ (y : ProviderComponent Url).
            Memᴰ (record { wanted = f; component_id = some c.id }) (component_files y))
          same
          (Memᴰ.map (λ (y : ProviderFile Url). record { wanted = y; component_id = some c.id })
            within))
  enabled_files-there resolved f c (x ∷ cs) (Memᴰ.tail there) on within =
      if-rest (contains x.id resolved.enabled) _ (component_files x) (enabled_files resolved cs)
        (enabled_files-there resolved f c cs there on within)

  pub desired_provider_files-Wanted :
      (definition : ProviderInstanceDefinition Url) (resolved : ResolvedComponentSet)
      (d : DesiredProviderFile Url)
      → Memᴰ d (desired_provider_files definition resolved)
      → Wanted definition resolved d.wanted
  unfolding desired_provider_files
  desired_provider_files-Wanted definition resolved d there =
      elim (Memᴰ.append_cases (map _ definition.files) there) [
        | inl here ↦
            let (f, within, same) = map-cases _ d definition.files here in
            of_definition (
              subst (λ (y : ProviderFile Url). Memᴰ y definition.files)
                (sym (ap (λ (y : DesiredProviderFile Url). y.wanted) same)) within)
        | inr later ↦
            let (c, listed, on, within) =
              enabled_files-cases resolved d definition.components later in
            of_component c listed on within
      ]

  pub Wanted-desired_provider_files :
      (definition : ProviderInstanceDefinition Url) (resolved : ResolvedComponentSet)
      (f : ProviderFile Url)
      → Wanted definition resolved f
      → (d : DesiredProviderFile Url) × Memᴰ d (desired_provider_files definition resolved)
        × (d.wanted ≡ f)
  unfolding desired_provider_files
  Wanted-desired_provider_files definition resolved f (of_definition within) = (
    record { wanted = f; component_id = none },
    Memᴰ.append_left _
        (Memᴰ.map (λ (y : ProviderFile Url). record { wanted = y; component_id = none }) within),
    refl,
  )
  Wanted-desired_provider_files definition resolved f (of_component c listed on within) = (
    record { wanted = f; component_id = some c.id },
    Memᴰ.append_right _ (enabled_files-there resolved f c definition.components listed on within),
    refl,
  )

  pub get-desired_paths :
      (q : Text) (ds : List (DesiredProviderFile Url)) (m : TextMap (DesiredProviderFile Url))
      (d : DesiredProviderFile Url)
      → get q (desired_paths ds m) ≡ some d
      → (Memᴰ d ds × (instance_path d ≡ q)) ⊎ (get q m ≡ some d)
  unfolding desired_paths
  get-desired_paths q [] m d h = inr h
  get-desired_paths q (x ∷ ds) m d h = elim (get-desired_paths q ds _ d h) [
    | inl (there, path) ↦ inl (Memᴰ.tail there, path)
    | inr old ↦ elim (get-insert-cases (instance_path x) q x d m old) [
      | inl (path, same) ↦ inl (
        Memᴰ.head (sym same),
        subst (λ (y : DesiredProviderFile Url). instance_path y ≡ q) same path,
      )
      | inr older ↦ inr older
    ]
  ]

  desired_paths-keeps :
      (q : Text) (ds : List (DesiredProviderFile Url)) (m : TextMap (DesiredProviderFile Url))
      → is_some (get q m) ≡ true
      → is_some (get q (desired_paths ds m)) ≡ true
  unfolding desired_paths
  desired_paths-keeps q [] m h = h
  desired_paths-keeps q (x ∷ ds) m h =
      desired_paths-keeps q ds _ (ground (arith, get-insert (instance_path x) q x m, h))

  pub desired_paths-there :
      (q : Text) (ds : List (DesiredProviderFile Url)) (m : TextMap (DesiredProviderFile Url))
      (d : DesiredProviderFile Url)
      → Memᴰ d ds
      → instance_path d ≡ q
      → is_some (get q (desired_paths ds m)) ≡ true
  unfolding desired_paths
  desired_paths-there q [] m d there path = absurd (Memᴰ.not-nil there)
  desired_paths-there q (x ∷ ds) m d (Memᴰ.head same) path =
      let here : instance_path x ≡ q =
        subst (λ (y : DesiredProviderFile Url). instance_path y ≡ q) same path in
      desired_paths-keeps q ds _ (
        ground
          (arith, get-insert (instance_path x) q x m, (text_eq_iff (instance_path x) q).1 here))
  desired_paths-there q (x ∷ ds) m d (Memᴰ.tail there) path =
      desired_paths-there q ds _ d there path
