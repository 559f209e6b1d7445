-- ===== src/Providers/Update/Desired/Owned.antt =====
-- What the map of the provider's files has at a path, told by the list of the index.
use mathlib.Core.List.Memᴰ
use mathlib.Core.List.{Memᴰ}
use central_core.Prelude.{
  ℕ, ◌≡◌, ◌↔◌, ◌⊎◌, inl, inr, refl, sym, ap, subst, true, ◌&&◌, Option, none, some, List, [], ◌∷◌,
  ◌++◌, arith, Text, TextMap, text, text_eq, text_eq_iff, get, insert, get-insert, is_some,
  starts_with, ◌==◌, ==_iff, and_iff, Bool-cases,
}
use central_core.Files.Hash.{FileHash, HashAlgorithm}
use central_core.Cache.{ManagedFile, ManagedFileOrigin, ManagedFileLocation}
use central_core.Providers.Ids.{ProviderInstanceId}
use central_core.Providers.Model.{ProviderFile}
use central_core.Providers.Update.Desired.{
  DesiredProviderFile, contains_text, is_provider_origin, is_in_instance, is_provider_owned,
  current_files, is_same, same_hash, same_option, same_algorithm,
}

-- A text lies in another one.
abbrev pub IsIn : Text → Text → Type 0
IsIn part s = (before : Text) × (after : Text) × (s ≡ before ++ (part ++ after))

starts_with_iff :
    (s part : Text) → (starts_with s part ≡ true) ↔ ((after : Text) × (s ≡ part ++ after))
unfolding starts_with
starts_with_iff s [] = (λ h. (s, refl), λ h. refl)
starts_with_iff [] (p ∷ ps) = (λ h. absurd (cc h), λ h. absurd (cc (h.1)))
starts_with_iff (c ∷ s) (p ∷ ps) = (
  λ h.
      let e = (and_iff (c == p) (starts_with s ps)).0 h in
      let (after, rest) = (starts_with_iff s ps).0 e.1 in (after, cc ((==_iff c p).0 e.0, rest)),
  λ h.
      (and_iff (c == p) (starts_with s ps)).1
        ((==_iff c p).1 (cc (h.1)), (starts_with_iff s ps).1 (h.0, cc (h.1))),
)

contains_text_of :
    (s before part after : Text) → s ≡ before ++ (part ++ after) → contains_text s part ≡ true
unfolding contains_text
contains_text_of [] [] part after h = (starts_with_iff [] part).1 (after, h)
contains_text_of [] (b ∷ before) part after h = absurd (cc h)
contains_text_of (c ∷ s) [] part after h =
    ground (arith, (starts_with_iff (c ∷ s) part).1 (after, h))
contains_text_of (c ∷ s) (b ∷ before) part after h =
    ground (arith, contains_text_of s before part after (cc h))

contains_text-IsIn : (s part : Text) → contains_text s part ≡ true → IsIn part s
unfolding contains_text
contains_text-IsIn [] part h = let (after, e) = (starts_with_iff [] part).0 h in ([], after, e)
contains_text-IsIn (c ∷ s) part h = elim (Bool-cases (starts_with (c ∷ s) part)) [
  | inl here ↦ let (after, e) = (starts_with_iff (c ∷ s) part).0 here in ([], after, e)
  | inr other ↦
      let (before, after, e) = contains_text-IsIn s part (ground arith) in
      (c ∷ before, after, ap (λ (t : Text). c ∷ t) e)
]

-- A file of the index that a provider owns in the instance at a path: its origin is the provider or
-- one of its components, and its id has the provider's and the instance's id in it.
abbrev pub owner_part : ProviderInstanceId → Text
owner_part key = text ":" ++ key.provider_id ++ text ":" ++ key.instance_id ++ text ":"

pub record OwnedAt {Url : Type 0} (key : ProviderInstanceId) (q : Text) (e : ManagedFile Url)
    : Type 0 where
  pub location : e.location ≡ ManagedFileLocation.instance_root
  pub path : e.path.value ≡ q
  pub origin :
      (e.origin ≡ ManagedFileOrigin.provider)
      ⊎ ((id : Text) × (e.origin ≡ ManagedFileOrigin.component id))
  pub named : IsIn (owner_part key) e.id

-- The index tells the size and the digest of the wanted file.
abbrev pub Matches : {Url : Type 0} → ManagedFile Url → ProviderFile Url → Type 0
Matches e f = (e.expected_size ≡ some f.size) × (e.expected_hash ≡ some f.sha256)

origin_iff :
    (o : ManagedFileOrigin)
    → (is_provider_origin o ≡ true)
      ↔ ((o ≡ ManagedFileOrigin.provider) ⊎ ((id : Text) × (o ≡ ManagedFileOrigin.component id)))
origin_iff (ManagedFileOrigin.component id) = (λ h. inr (id, refl), λ h. refl)
origin_iff ManagedFileOrigin.provider = (λ h. inl refl, λ h. refl)
origin_iff ManagedFileOrigin.minecraft =
    (λ h. cc, λ h. elim h [ inl e ↦ cc e | inr (id, e) ↦ cc e ])
origin_iff ManagedFileOrigin.loader = (λ h. cc, λ h. elim h [ inl e ↦ cc e | inr (id, e) ↦ cc e ])
origin_iff ManagedFileOrigin.user_optional =
    (λ h. cc, λ h. elim h [ inl e ↦ cc e | inr (id, e) ↦ cc e ])

location_iff :
    (l : ManagedFileLocation) → (is_in_instance l ≡ true) ↔ (l ≡ ManagedFileLocation.instance_root)
location_iff ManagedFileLocation.instance_root = (λ h. refl, λ h. refl)
location_iff ManagedFileLocation.cache = (λ h. cc, λ h. cc)

same_algorithm_iff : (a b : HashAlgorithm) → (same_algorithm a b ≡ true) ↔ (a ≡ b)
same_algorithm_iff HashAlgorithm.sha1 HashAlgorithm.sha1 = (λ h. refl, λ h. refl)
same_algorithm_iff HashAlgorithm.sha1 HashAlgorithm.sha256 = (λ h. cc, λ h. cc)
same_algorithm_iff HashAlgorithm.sha256 HashAlgorithm.sha1 = (λ h. cc, λ h. cc)
same_algorithm_iff HashAlgorithm.sha256 HashAlgorithm.sha256 = (λ h. refl, λ h. refl)

same_hash_iff : (a b : FileHash) → (same_hash a b ≡ true) ↔ (a ≡ b)
same_hash_iff a b = (
  λ h.
      let (x, y) = (and_iff (same_algorithm a.algorithm b.algorithm) _).0 h in
      cc ((same_algorithm_iff a.algorithm b.algorithm).0 x, (text_eq_iff a.value b.value).0 y),
  λ h. (and_iff (same_algorithm a.algorithm b.algorithm) _).1 (
    (same_algorithm_iff a.algorithm b.algorithm).1 (ap (λ (x : FileHash). x.algorithm) h),
    (text_eq_iff a.value b.value).1 (ap (λ (x : FileHash). x.value) h),
  ),
)

same_size_iff : (o : Option ℕ) (n : ℕ) → (same_option ◌==◌ o (some n) ≡ true) ↔ (o ≡ some n)
same_size_iff none n = (λ h. cc, λ h. cc)
same_size_iff (some m) n = (λ h. cc ((==_iff m n).0 h), λ h. (==_iff m n).1 (cc h))

same_digest_iff :
    (o : Option FileHash) (x : FileHash) → (same_option same_hash o (some x) ≡ true) ↔ (o ≡ some x)
same_digest_iff none x = (λ h. cc, λ h. cc)
same_digest_iff (some y) x = (λ h. cc ((same_hash_iff y x).0 h), λ h. (same_hash_iff y x).1 (cc h))

pub get-insert-cases {ℓ} :
    {V : Type ℓ} (k q : Text) (v w : V) (m : TextMap V)
    → get q (insert k v m) ≡ some w
    → ((k ≡ q) × (v ≡ w)) ⊎ (get q m ≡ some w)
get-insert-cases k q v w m h = elim (Bool-cases (text_eq k q)) [
  | inl e ↦ inl ((text_eq_iff k q).0 e, ground (arith, get-insert k q v m))
  | inr e ↦ inr (ground (arith, get-insert k q v m))
]

module _ {Url : Type 0} where
  owned_iff :
      (key : ProviderInstanceId) (q : Text) (e : ManagedFile Url)
      → (((is_in_instance e.location && is_provider_owned e key) ≡ true) × (e.path.value ≡ q))
        ↔ OwnedAt key q e
  unfolding is_provider_owned
  owned_iff key q e = (
    λ h.
        let (place, owned) = (and_iff _ _).0 h.0 in
        let (origin, named) = (and_iff _ _).0 owned in
        record {
          location = (location_iff e.location).0 place;
          path = h.1;
          origin = (origin_iff e.origin).0 origin;
          named = contains_text-IsIn e.id (owner_part key) named;
        },
    λ o. (
      (and_iff _ _).1 (
        (location_iff e.location).1 o.location,
        (and_iff _ _).1 (
          (origin_iff e.origin).1 o.origin,
          contains_text_of e.id (o.named).0 (owner_part key) (o.named).1 (o.named).2,
        ),
      ),
      o.path,
    ),
  )

  pub is_same_iff :
      (e : ManagedFile Url) (d : DesiredProviderFile Url)
      → (is_same e d ≡ true) ↔ Matches e d.wanted
  is_same_iff e d = (
    λ h.
        let (size, hash) =
          (and_iff (same_option ◌==◌ e.expected_size (some d.wanted.size)) _).0 h in
        (
          (same_size_iff e.expected_size d.wanted.size).0 size,
          (same_digest_iff e.expected_hash d.wanted.sha256).0 hash,
        ),
    λ h. (and_iff (same_option ◌==◌ e.expected_size (some d.wanted.size)) _).1 (
      (same_size_iff e.expected_size d.wanted.size).1 h.0,
      (same_digest_iff e.expected_hash d.wanted.sha256).1 h.1,
    ),
  )

  pub get-current_files :
      (key : ProviderInstanceId) (q : Text) (files : List (ManagedFile Url))
      (m : TextMap (ManagedFile Url)) (e : ManagedFile Url)
      → get q (current_files key files m) ≡ some e
      → (Memᴰ e files × OwnedAt key q e) ⊎ (get q m ≡ some e)
  unfolding current_files
  get-current_files key q [] m e h = inr h
  get-current_files key q (x ∷ files) m e h = elim (get-current_files key q files _ e h) [
    | inl (there, o) ↦ inl (Memᴰ.tail there, o)
    | inr old ↦ elim (Bool-cases (is_in_instance x.location && is_provider_owned x key)) [
      | inl owned ↦ elim (get-insert-cases x.path.value q x e m (ground arith)) [
        | inl (path, same) ↦
            inl (
              Memᴰ.head (sym same),
              subst (OwnedAt key q) same ((owned_iff key q x).0 (owned, path)),
            )
        | inr older ↦ inr older
      ]
      | inr other ↦ inr (ground arith)
    ]
  ]

  current_files-keeps :
      (key : ProviderInstanceId) (q : Text) (files : List (ManagedFile Url))
      (m : TextMap (ManagedFile Url))
      → is_some (get q m) ≡ true
      → is_some (get q (current_files key files m)) ≡ true
  unfolding current_files
  current_files-keeps key q [] m h = h
  current_files-keeps key q (x ∷ files) m h =
      current_files-keeps key q files _ (ground (arith, get-insert x.path.value q x m, h))

  pub current_files-there :
      (key : ProviderInstanceId) (q : Text) (files : List (ManagedFile Url))
      (m : TextMap (ManagedFile Url)) (e : ManagedFile Url)
      → Memᴰ e files
      → OwnedAt key q e
      → is_some (get q (current_files key files m)) ≡ true
  unfolding current_files
  current_files-there key q [] m e there o = absurd (Memᴰ.not-nil there)
  current_files-there key q (x ∷ files) m e (Memᴰ.head same) o =
      let (owned, path) = (owned_iff key q x).1 (subst (OwnedAt key q) same o) in
      current_files-keeps key q files _
        (ground (arith, get-insert x.path.value q x m, (text_eq_iff x.path.value q).1 path))
  current_files-there key q (x ∷ files) m e (Memᴰ.tail there) o =
      current_files-there key q files _ e there o
