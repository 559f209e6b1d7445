-- ===== src/Files/Path/Laws.antt =====
-- Which paths `SafeRelativePath::new` accepts, and where an accepted path leads.
use central_core.Prelude.{
  ℕ, ◌≤◌, ◌<◌, ◌≡◌, ◌≢◌, ◌↔◌, ◌⊎◌, inl, inr, refl, ◌∙◌, Bool, false, ◌||◌, List, [], ◌∷◌, arith,
  any, All, Text, text, text_eq_iff, contains, starts_with, contains_char, ends_with_char, split,
  before, is_control, to_ascii_uppercase, ◌==◌, is_empty, any-split, Bool-cases,
}
use central_core.Errors.{ok}
use central_core.Files.Path.{
  SafeRelativePath, is_non_portable, reserved_names, validate_component, validate_components,
  validate_relative_path, new,
}

-- Printable, and not one of \ < > : " | ? *
pub record IsPortableChar (c : ℕ) : Type 0 where
  pub printable : (0x20 ≤ c) × ((c < 0x7f) ⊎ (0x9f < c))
  pub not_backslash : c ≢ 0x5c
  pub not_angle : (c ≢ 0x3c) × (c ≢ 0x3e)
  pub not_colon : c ≢ 0x3a
  pub not_quote : c ≢ 0x22
  pub not_bar : c ≢ 0x7c
  pub not_wildcard : (c ≢ 0x3f) × (c ≢ 0x2a)

-- A name that every host accepts, and that names an entry of the directory itself.
pub record IsPortable (c : Text) : Type 0 where
  pub nonempty : c ≢ []
  pub not_current : c ≢ text "."
  pub not_parent : c ≢ text ".."
  pub characters : All IsPortableChar c
  pub suffix : (ends_with_char 0x2e c ≡ false) × (ends_with_char 0x20 c ≡ false)
  pub not_device : All (λ name. to_ascii_uppercase (before 0x2e c) ≢ name) reserved_names

abbrev bad : ℕ → Bool
bad c = is_non_portable c || c == 0x5c

IsPortableChar-iff : (c : ℕ) → (bad c ≡ false) ↔ IsPortableChar c
unfolding is_non_portable is_control
IsPortableChar-iff c = ground arith

All-IsPortableChar-iff :
    (c : Text)
    → ((any is_non_portable c ≡ false) × (contains_char 0x5c c ≡ false)) ↔ All IsPortableChar c
unfolding contains_char
All-IsPortableChar-iff [] = ((λ _. tt), (λ _. (refl, refl)))
All-IsPortableChar-iff (d ∷ c) = ground (arith, IsPortableChar-iff d, All-IsPortableChar-iff c)

not-contains_iff :
    (t : Text) (names : List Text) → (contains t names ≡ false) ↔ All (λ name. t ≢ name) names
unfolding contains
not-contains_iff t [] = ((λ _. tt), (λ _. refl))
not-contains_iff t (n ∷ names) = ground (arith, not-contains_iff t names, text_eq_iff n t)

is_empty_iff : (c : Text) → (is_empty c ≡ false) ↔ (c ≢ [])
is_empty_iff [] = ground arith
is_empty_iff (d ∷ c) = ground arith

-- The checks on one component, together with the absence of a backslash.
validate_component_iff :
    (path c : Text)
    → ((validate_component path c ≡ ok tt) × (contains_char 0x5c c ≡ false)) ↔ IsPortable c
unfolding validate_component
validate_component_iff path c = ground (
  arith,
  is_empty_iff c,
  text_eq_iff c (text "."),
  text_eq_iff c (text ".."),
  All-IsPortableChar-iff c,
  not-contains_iff (to_ascii_uppercase (before 0x2e c)) reserved_names,
)

validate_components_iff :
    (path : Text) (cs : List Text)
    → ((validate_components path cs ≡ ok tt) × (any (contains_char 0x5c) cs ≡ false))
      ↔ All IsPortable cs
unfolding validate_components
validate_components_iff path [] = ground arith
validate_components_iff path (c ∷ cs) =
    ground (arith, validate_component_iff path c, validate_components_iff path cs)

-- What a portable first component says of the whole text.
starts_with_sep : (s : Text) → All IsPortable (split 0x2f s) → starts_with s (text "/") ≡ false
unfolding starts_with split
starts_with_sep [] h = refl
starts_with_sep (c ∷ s) h = elim (Bool-cases (c == 0x2f)) [
  | inl e ↦ absurd ((rw (e, split) at h).0.nonempty refl)
  | inr e ↦ ground arith
]

starts_with_backslash :
    (s : Text) → contains_char 0x5c s ≡ false → starts_with s (0x5c ∷ []) ≡ false
unfolding starts_with contains_char
starts_with_backslash [] h = refl
starts_with_backslash (c ∷ s) h = ground arith

not-control : (d : ℕ) → IsPortableChar d → (d == 0) ≡ false
not-control d h = ground arith

no_nul : (c : Text) → All IsPortableChar c → contains_char 0 c ≡ false
unfolding contains_char
no_nul [] h = refl
no_nul (d ∷ c) h = ground (arith, not-control d, no_nul c)

no_nul_components : (cs : List Text) → All IsPortable cs → any (contains_char 0) cs ≡ false
no_nul_components [] h = refl
no_nul_components (c ∷ cs) h = ground (arith, no_nul c h.0.characters, no_nul_components cs h.1)

any_char-split :
    (c : ℕ) (s : Text)
    → (0x2f == c) ≡ false
    → any (contains_char c) (split 0x2f s) ≡ contains_char c s
unfolding contains_char
any_char-split c s h = any-split (λ d. d == c) 0x2f h s

split-empty : (s : Text) → All IsPortable (split 0x2f s) → is_empty s ≡ false
unfolding split
split-empty [] h = absurd (h.0.nonempty refl)
split-empty (c ∷ s) h = refl

validate_iff : (p : Text) → (validate_relative_path p ≡ ok tt) ↔ All IsPortable (split 0x2f p)
unfolding validate_relative_path
validate_iff p = (
  (λ h.
      (validate_components_iff p (split 0x2f p)).0
        (ground arith, any_char-split 0x5c p refl ∙ ground arith)),
  (λ h.
      let parts = (validate_components_iff p (split 0x2f p)).1 h in
      ground (
        arith,
        split-empty p h,
        starts_with_sep p h,
        starts_with_backslash p,
        any_char-split 0x5c p refl,
        any_char-split 0 p refl,
        no_nul_components (split 0x2f p) h,
      )),
)

-- `SafeRelativePath::new` accepts exactly the texts whose components between slashes are all
-- portable names, and an accepted path is the text that was given.
pub new_iff :
    (p : Text) (s : SafeRelativePath)
    → (new p ≡ ok s) ↔ (All IsPortable (split 0x2f p) × (s.value ≡ p))
unfolding new
new_iff p s = ground (arith, validate_iff p)
