-- ===== src/Instances.antt =====
-- crates/centralcore/src/instance/mod.rs, `ServerConfig` and `InstanceAuthPolicy`.
use central_core.Prelude.{
  ℕ, ◌&&◌, ◌||◌, Bool, not, List, [], ◌∷◌, Text, text_eq, len, any, ltb, is_empty, length,
  is_ascii_lowercase, is_ascii_uppercase, is_ascii_digit, contains, insert_set, ◌==◌,
}
use central_core.Errors.{Error, Result, ok, ◌>>◌, reject}
use central_core.Providers.Ids.{enumerate_all}

pub record ServerConfig : Type 0 where
  pub host : Text
  pub port : ℕ

pub record InstanceAuthPolicy : Type 0 where
  pub required : Bool
  pub providers : List Text

is_alphanumeric : ℕ → Bool
is_alphanumeric c = is_ascii_lowercase c || is_ascii_uppercase c || is_ascii_digit c

is_auth_char : ℕ → Bool
is_auth_char c = is_alphanumeric c || c == 0x2d || c == 0x5f || c == 0x2e || c == 0x3a

-- The loop over the ids, with the set of those seen so far.
unfoldable pub validate_auth_providers : List Text → List Text → Result (Unit {0})
unfolding is_auth_char is_alphanumeric
validate_auth_providers unique [] = ok tt
validate_auth_providers unique (id ∷ ids) = do
  reject
      (is_empty id
        || ltb 64 (len id)
        || not (enumerate_all is_alphanumeric is_auth_char id)
        || contains id unique)
      Error.invalid_config
  validate_auth_providers (insert_set id unique) ids

-- `InstanceAuthPolicy::validate`
unfoldable pub validate_policy : InstanceAuthPolicy → Result (Unit {0})
unfolding validate_auth_providers
validate_policy policy = do
  reject (policy.required && is_empty policy.providers) Error.invalid_config
  reject (ltb 32 (length policy.providers)) Error.invalid_config
  validate_auth_providers [] policy.providers

-- `InstanceAuthPolicy::allows`
unfoldable pub allows : InstanceAuthPolicy → Text → Bool
allows policy provider_id =
    is_empty policy.providers || any (λ id. text_eq id provider_id) policy.providers
