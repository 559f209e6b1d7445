-- ===== src/Providers/Ids.antt =====
-- Identifiers: `ComponentId`, `ProviderId` and `ProviderInstanceId` of providers/manifest.rs, and
-- `InstanceId` of instance/mod.rs. A validated identifier is its text. The tests on bytes are made
-- on characters: none accepts a byte of a character that is not ASCII.
pub mod Laws
mod Tests
use central_core.Prelude.{
  ℕ, ◌&&◌, ◌||◌, Bool, false, true, not, Option, none, some, List, [], ◌∷◌, ◌++◌, all, Text, len,
  split_once, contains_char, is_empty, is_ascii_lowercase, is_ascii_uppercase, is_ascii_digit, ltb,
  ◌==◌, if◌then◌else◌,
}
use central_core.Errors.{Error, ProviderError, Result, ok, err, ◌>>=◌, ◌>>◌, reject}

-- `bytes().enumerate().all(...)`: the first character, then the others.
abbrev pub enumerate_all : (ℕ → Bool) → (ℕ → Bool) → Text → Bool
enumerate_all first rest [] = true
enumerate_all first rest (c ∷ s) = first c && all rest s

pub is_lower_or_digit : ℕ → Bool
is_lower_or_digit c = is_ascii_lowercase c || is_ascii_digit c

pub is_component_char : ℕ → Bool
is_component_char c = is_lower_or_digit c || c == 0x2d || c == 0x5f || c == 0x2e

pub is_provider_char : ℕ → Bool
is_provider_char c = is_lower_or_digit c || c == 0x2d || c == 0x5f

pub is_instance_char : ℕ → Bool
is_instance_char c =
    is_ascii_lowercase c || is_ascii_uppercase c || is_ascii_digit c || c == 0x2d || c == 0x5f

-- `ComponentId::new`
unfoldable pub component_id : Text → Result Text
unfolding is_component_char is_lower_or_digit
component_id value =
    if is_empty value
      || ltb 64 (len value)
      || not (enumerate_all is_lower_or_digit is_component_char value)
    then err (Error.static_provider (ProviderError.invalid_component_id value))
    else ok value

-- `ProviderId::new`
unfoldable pub provider_id : Text → Result Text
unfolding is_provider_char is_lower_or_digit
provider_id value =
    if is_empty value
      || ltb 64 (len value)
      || not (enumerate_all is_lower_or_digit is_provider_char value)
    then err (Error.static_provider (ProviderError.invalid_id value))
    else ok value

-- `InstanceId::new`
unfoldable pub instance_id : Text → Result Text
unfolding is_instance_char
instance_id id = do
  reject (is_empty id) (Error.invalid_instance_id id "identifier is empty")
  reject (ltb 64 (len id)) (Error.invalid_instance_id id "identifier exceeds 64 bytes")
  reject (not (all is_instance_char id)) (
      Error.invalid_instance_id id
        "only ASCII letters, digits, hyphens, and underscores are allowed")
  ok id

pub record ProviderInstanceId : Type 0 where
  pub provider_id : Text
  pub instance_id : Text

-- `Display for ProviderInstanceId`
unfoldable pub display : ProviderInstanceId → Text
display key = key.provider_id ++ (0x3a ∷ key.instance_id)

parse_parts : Text → Option (Text × Text) → Result ProviderInstanceId
parse_parts value none = err (Error.static_provider (ProviderError.invalid_reference value))
parse_parts value (some (provider, instance_text)) = do
  reject (contains_char 0x3a instance_text)
      (Error.static_provider (ProviderError.invalid_reference value))
  p ← provider_id provider
  i ← instance_id instance_text
  ok (record { provider_id = p; instance_id = i })

-- `FromStr for ProviderInstanceId`
unfoldable pub from_str : Text → Result ProviderInstanceId
unfolding parse_parts provider_id instance_id
from_str value = parse_parts value (split_once 0x3a value)
