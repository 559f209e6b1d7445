-- ===== src/Providers/Manifest/Declarations.antt =====
-- What the loop over the components and the check of their references establish.
use central_core.Prelude.{
  ℕ, ◌≡◌, ◌≢◌, refl, subst, Bool, true, false, ◌||◌, not, Option, some, List, [], ◌∷◌, ◌++◌, arith,
  All, Text, text_eq, text_eq_iff, contains, contains-append, contains-insert_set, insert_set,
  IsDistinct, IsDistinct-append, is_empty, trim, len, ltb, if◌then◌else◌,
}
use central_core.Errors.{Result, ok, >>=-eq-ok, reject-eq-ok}
use central_core.Providers.Ids.{component_id}
use central_core.Providers.Model.{
  ProviderResource, ProviderFile, ProviderComponent, ComponentRequirement,
}
use central_core.Providers.Components.Selection.{is_required}
use central_core.Providers.Manifest.{
  RawProviderComponent, validate_components, component_ids, check_references, check_components,
  component,
}
use central_core.Providers.Manifest.Files.{validate_files}
use central_core.Providers.Manifest.Files.Laws.{
  IsValidFile, paths_of, Listed, Listed-validate_files,
}

-- A reference to another component of the list.
abbrev pub IsReference : Text → List Text → Text → Type 0
IsReference id ids d = (d ≢ id) × (contains d ids ≡ true)

check_references-ok :
    (id : Text) (ids ds : List Text)
    → check_references id ids ds ≡ ok tt
    → All (IsReference id ids) ds
unfolding check_references
check_references-ok id ids [] e = tt
check_references-ok id ids (d ∷ ds) e =
    let (good, e1) = reject-eq-ok (text_eq d id || not (contains d ids)) _ _ e in
    ((ground (arith, text_eq_iff d id), ground arith), check_references-ok id ids ds e1)

module _ {Url : Type 0} where
  abbrev pub ids_of : List (ProviderComponent Url) → List Text
  ids_of [] = []
  ids_of (c ∷ cs) = c.id ∷ ids_of cs

  abbrev pub component_paths : List (ProviderComponent Url) → List Text
  component_paths [] = []
  component_paths (c ∷ cs) = paths_of c.files ++ component_paths cs

  -- The files of a component are valid, and required exactly if the component is.
  pub record IsValidComponent (max_file_size : ℕ) (c : ProviderComponent Url) : Type 0 where
    pub files : All (IsValidFile (some (is_required c.requirement)) max_file_size) c.files
    pub required_by_default : is_required c.requirement ≡ true → c.default_enabled ≡ true

  pub record Declared (max_file_size : ℕ) (paths ids after : List Text)
      (cs : List (ProviderComponent Url)) : Type 0 where
    pub members : (j : Text) → contains j after ≡ (contains j (ids_of cs) || contains j ids)
    pub fresh_ids : (j : Text) → contains j (ids_of cs) ≡ true → contains j ids ≡ false
    pub distinct_ids : IsDistinct (ids_of cs)
    pub fresh_paths : (j : Text) → contains j (component_paths cs) ≡ true → contains j paths ≡ false
    pub distinct_paths : IsDistinct (component_paths cs)
    pub valid : All (IsValidComponent max_file_size) cs

  Declared-nil :
      (max_file_size : ℕ) (paths ids : List Text) → Declared max_file_size paths ids ids []
  unfolding contains
  Declared-nil max_file_size paths ids = record {
    members = λ j. refl;
    fresh_ids = λ j h. absurd (cc);
    distinct_ids = tt;
    fresh_paths = λ j h. absurd (cc);
    distinct_paths = tt;
    valid = tt;
  }

  Declared-cons :
      (scope : Option Bool) (max_file_size : ℕ) (paths ids seen after : List Text)
      (c : ProviderComponent Url) (cs : List (ProviderComponent Url))
      → contains c.id ids ≡ false
      → Listed scope max_file_size paths seen c.files
      → IsValidComponent max_file_size c
      → Declared max_file_size seen (insert_set c.id ids) after cs
      → Declared max_file_size paths ids after (c ∷ cs)
  unfolding contains
  Declared-cons scope max_file_size paths ids seen after c cs new listed valid rest = record {
    members = λ j. ground (arith, rest.members j, contains-insert_set c.id j ids);
    fresh_ids =
        λ j e. ground (arith, rest.fresh_ids j, text_eq_iff c.id j, contains-insert_set c.id j ids);
    distinct_ids = (
      ground (arith, rest.fresh_ids c.id, contains-insert_set c.id c.id ids, text_eq_iff c.id c.id),
      rest.distinct_ids,
    );
    fresh_paths = λ j e. ground (
      arith,
      rest.fresh_paths j,
      listed.members j,
      listed.fresh j,
      contains-append j (paths_of c.files) (component_paths cs),
    );
    distinct_paths =
        IsDistinct-append (paths_of c.files) (component_paths cs) listed.distinct
          rest.distinct_paths (λ j e. ground (arith, rest.fresh_paths j, listed.members j));
    valid = (valid, rest.valid);
  }

  pub check_components-ok :
      (ids : List Text) (cs : List (ProviderComponent Url))
      → check_components ids cs ≡ ok tt
      → All (λ c. All (IsReference c.id ids) (c.requires ++ c.conflicts)) cs
  unfolding check_components
  check_components-ok ids [] e = tt
  check_components-ok ids (c ∷ cs) e =
      let (u, good, e1) = >>=-eq-ok (check_references c.id ids (c.requires ++ c.conflicts)) _ e in
      (check_references-ok c.id ids _ good, check_components-ok ids cs e1)

  pair-ok :
      (a a' : List Text) (b b' : List (ProviderComponent Url))
      → ◌≡◌ {A = Result (List Text × List (ProviderComponent Url))} (ok (a, b)) (ok (a', b'))
      → (a ≡ a') × (b ≡ b')
  pair-ok a a' b b' h = ground arith

  module _ (resolve : Text → Result (ProviderResource Url)) (max_file_size : ℕ) where
    requirement :
        (b : Bool)
        → b
          ≡ is_required (if b then ComponentRequirement.required else ComponentRequirement.optional)
    requirement true = refl
    requirement false = refl

    IsValidComponent-component :
        (paths seen : List Text) (id : Text) (raw : RawProviderComponent)
        (requires conflicts : List Text) (files : List (ProviderFile Url))
        → Listed (some raw.required) max_file_size paths seen files
        → IsValidComponent max_file_size
            (component resolve max_file_size id raw requires conflicts files)
    IsValidComponent-component paths seen id raw requires conflicts files listed = record {
      files =
          subst (λ b. All (IsValidFile (some b) max_file_size) files) (requirement raw.required)
            listed.valid;
      required_by_default = λ e. ground arith;
    }

    pub Declared-validate_components :
        (paths ids after : List Text) (raws : List RawProviderComponent)
        (cs : List (ProviderComponent Url))
        → validate_components resolve max_file_size paths ids raws ≡ ok (after, cs)
        → Declared max_file_size paths ids after cs
    unfolding validate_components
    Declared-validate_components paths ids after [] cs e =
        let (same, nothing) = pair-ok _ _ _ _ e in
        subst (λ a. Declared max_file_size paths ids a cs) same
          (subst (λ x. Declared max_file_size paths ids ids x) nothing
            (Declared-nil max_file_size paths ids))
    Declared-validate_components paths ids after (raw ∷ raws) cs e =
        let (id, e_id, e1) = >>=-eq-ok (component_id raw.id) _ e in
        let (new, e2) = reject-eq-ok (contains id ids) _ _ e1 in
        let (named, e3) =
          reject-eq-ok (is_empty (trim raw.name) || ltb 128 (len raw.name)) _ _ e2 in
        let (some_files, e4) = reject-eq-ok (is_empty raw.files) _ _ e3 in
        let (requires, e_requires, e5) = >>=-eq-ok (component_ids raw.requires) _ e4 in
        let (conflicts, e_conflicts, e6) = >>=-eq-ok (component_ids raw.conflicts) _ e5 in
        let (seen, e_seen, e7) =
          >>=-eq-ok (validate_files resolve max_file_size (some raw.required) 0 paths [] raw.files)
            _ e6 in
        let (rest, e_rest, e8) =
          >>=-eq-ok (validate_components resolve max_file_size seen.0 (insert_set id ids) raws) _
            e7 in
        let (same, cs_same) = pair-ok _ _ _ _ e8 in
        let listed =
          Listed-validate_files resolve max_file_size (some raw.required) 0 paths [] seen.0
            raw.files seen.1 e_seen in
        subst (λ a. Declared max_file_size paths ids a cs) same
          (subst (λ x. Declared max_file_size paths ids rest.0 x) cs_same
            (Declared-cons (some raw.required) max_file_size paths ids seen.0 rest.0 _ rest.1 new
              listed
              (IsValidComponent-component paths seen.0 id raw requires conflicts seen.1 listed)
              (Declared-validate_components seen.0 (insert_set id ids) rest.0 raws rest.1 e_rest)))
