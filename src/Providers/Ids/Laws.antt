-- ===== src/Providers/Ids/Laws.antt =====
-- Printing and parsing of provider instance references.
use central_core.Prelude.{
  ℕ, ◌≡◌, ◌↔◌, refl, sym, ap, inl, inr, true, false, Option, none, some, [], ◌∷◌, ◌++◌, arith, all,
  Text, split_once, split_once-append, cons_first, contains_char, is_ascii_lowercase,
  is_ascii_uppercase, is_ascii_digit, ◌==◌, ==_iff, Bool-cases,
}
use central_core.Errors.{ok}
use central_core.Providers.Ids.{
  is_lower_or_digit, is_provider_char, is_instance_char, provider_id, instance_id,
  ProviderInstanceId, display, parse_parts, from_str,
}

-- A key of two accepted identifiers.
pub record IsValid (key : ProviderInstanceId) : Type 0 where
  pub provider : provider_id key.provider_id ≡ ok key.provider_id
  pub instance_part : instance_id key.instance_id ≡ ok key.instance_id

not_colon : (c : ℕ) → is_instance_char c ≡ true → (c == 0x3a) ≡ false
unfolding is_instance_char is_ascii_lowercase is_ascii_uppercase is_ascii_digit
not_colon c h = ground arith

provider_not_colon : (c : ℕ) → is_provider_char c ≡ true → (c == 0x3a) ≡ false
unfolding is_provider_char is_lower_or_digit is_ascii_lowercase is_ascii_digit
provider_not_colon c h = ground arith

all-no_colon : (s : Text) → all is_instance_char s ≡ true → contains_char 0x3a s ≡ false
unfolding contains_char
all-no_colon [] h = refl
all-no_colon (c ∷ s) h = ground (arith, not_colon c, all-no_colon s)

all-provider_no_colon : (s : Text) → all is_provider_char s ≡ true → contains_char 0x3a s ≡ false
unfolding contains_char
all-provider_no_colon [] h = refl
all-provider_no_colon (c ∷ s) h = ground (arith, provider_not_colon c, all-provider_no_colon s)

provider_id-no_colon : (s : Text) → provider_id s ≡ ok s → contains_char 0x3a s ≡ false
unfolding provider_id
provider_id-no_colon [] h = unfold contains_char in refl
provider_id-no_colon (c ∷ s) h =
    all-provider_no_colon (c ∷ s) (unfold is_provider_char is_lower_or_digit in ground arith)

instance_id-no_colon : (s : Text) → instance_id s ≡ ok s → contains_char 0x3a s ≡ false
unfolding instance_id
instance_id-no_colon s h = all-no_colon s (ground arith)

provider_id-value : (s t : Text) → provider_id s ≡ ok t → s ≡ t
unfolding provider_id
provider_id-value s t h = ground arith

instance_id-value : (s t : Text) → instance_id s ≡ ok t → s ≡ t
unfolding instance_id
instance_id-value s t h = ground arith

cons_first-eq-some :
    (c : ℕ) (o : Option (Text × Text)) (a b : Text)
    → cons_first c o ≡ some (a, b)
    → (x : Text) × (o ≡ some (x, b)) × (a ≡ c ∷ x)
cons_first-eq-some c none a b h = cc
cons_first-eq-some c (some (x, y)) a b h = (x, ground arith, ground arith)

split_here :
    (c : ℕ) (s a b : Text)
    → ◌≡◌ {A = Option (Text × Text)} (some ([], s)) (some (a, b))
    → ([] ≡ a) × (s ≡ b)
split_here c s a b h = ground arith

split_once-eq-some : (sep : ℕ) (s a b : Text) → split_once sep s ≡ some (a, b) → s ≡ a ++ (sep ∷ b)
unfolding split_once
split_once-eq-some sep [] a b h = cc
split_once-eq-some sep (c ∷ s) a b h = elim (Bool-cases (c == sep)) [
  | inl e ↦
      let same = (==_iff c sep).0 e in
      let parts = split_here c s a b (rw (e, split_once) at h) in cc (parts.0, parts.1)
  | inr e ↦
      let h' : cons_first c (split_once sep s) ≡ some (a, b) = rw e at h in
      let (x, found, same) = cons_first-eq-some c (split_once sep s) a b h' in
      rw same (ap (λ r. c ∷ r) (split_once-eq-some sep s x b found))
]

parse_parts-eq-ok :
    (value : Text) (o : Option (Text × Text)) (key : ProviderInstanceId)
    → parse_parts value o ≡ ok key
    → (o ≡ some (key.provider_id, key.instance_id)) × IsValid key
unfolding parse_parts
parse_parts-eq-ok value none key h = cc
parse_parts-eq-ok value (some (a, b)) key h =
    let valid : provider_id a ≡ ok key.provider_id = ground arith in
    let valid_i : instance_id b ≡ ok key.instance_id = ground arith in
    let same = provider_id-value a key.provider_id valid in
    let same_i = instance_id-value b key.instance_id valid_i in
    (cc, record { provider = cc; instance_part = cc })

-- A reference parses to a key exactly when it is the key's printed form and both of the key's
-- identifiers are accepted.
pub from_str_iff :
    (t : Text) (key : ProviderInstanceId)
    → (from_str t ≡ ok key) ↔ ((display key ≡ t) × IsValid key)
unfolding from_str display
from_str_iff t key = (
  (λ h.
      let (found, valid) = parse_parts-eq-ok t (split_once 0x3a t) key h in
      (sym (split_once-eq-some 0x3a t key.provider_id key.instance_id found), valid)),
  (λ h.
      let found =
        split_once-append 0x3a key.provider_id key.instance_id
          (provider_id-no_colon key.provider_id h.1.provider) in
      let colon = instance_id-no_colon key.instance_id h.1.instance_part in
      rw (← h.0, found, parse_parts, colon, h.1.provider, h.1.instance_part) refl),
)
