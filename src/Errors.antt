-- ===== src/Errors.antt =====
-- crates/centralcore/src/errors/mod.rs and the error enums that it wraps: the variants that the
-- modelled code raises, with their identifiers and numbers. Of a variant whose only payload is a
-- formatted message the message is left out; a fixed `reason` is kept.
use central_core.Prelude.{Option, none, some, ℕ, String, Text, List, Bool, true, false, ◌≡◌, refl}

pub data ProviderError : Type 0 where
  invalid_id invalid_component_id invalid_reference : Text → ProviderError
  unsupported_instance_format : ℕ → ProviderError
  invalid_manifest : ProviderError
  duplicate_file duplicate_file_id duplicate_component : Text → ProviderError
  instance_identity : (expected actual : Text) → ProviderError
  invalid_component_reference : (component referenced : Text) → ProviderError
  invalid_file_size : Text → ℕ → ProviderError
  optional_files_unsupported unsupported_loader : Text → ProviderError
  managed_path_conflict : (path : Text) → ProviderError
  component_conflict : (left right : Text) → ProviderError
  instance_running : Text → ProviderError
  stale_update_plan : (planned available : ℕ) → ProviderError
  stale_installed_revision : (planned installed : ℕ) → ProviderError
  stale_component_selections : ProviderError
  url_policy local_path_escape : Text → ProviderError
  component_dependency_cycle : List Text → ProviderError

pub data TrustError : Type 0 where
  signature_invalid : TrustError
  unsupported_signature_algorithm : Text → TrustError
  unsupported_signature_version unsupported_key_format : ℕ → TrustError
  untrusted_signing_key : Text → TrustError
  signing_key_mismatch : (expected actual : Text) → TrustError
  manifest_rollback_detected : (subject : Text) (received highest : ℕ) → TrustError
  invalid_key_transition : TrustError
  invalid_public_key : TrustError
  key_id_mismatch : TrustError
  canonicalization : TrustError
  signature_missing trust_store_error : TrustError

pub data MinecraftError : Type 0 where
  library_resolution : Text → MinecraftError
  native_extraction : Text → MinecraftError

pub data LoaderError : Type 0 where
  unsupported_kind invalid_version : Text → LoaderError

pub data Error : Type 0 where
  loader_plan : LoaderError → Error
  invalid_instance_id : Text → String → Error
  invalid_relative_path : Text → String → Error
  invalid_config : Error
  unsupported_format : String → ℕ → Error
  static_provider : ProviderError → Error
  trust : TrustError → Error
  minecraft : MinecraftError → Error
  unsafe_filesystem_entry : Text → Error
  final_verification : Error
  io : Error
  cancelled : Error
  not_found already_exists : (kind : String) (id : Text) → Error

-- `crate::Result`
pub data Result {μ} (T : Type μ) : Type μ where
  err : Error → Result T
  ok : T → Result T

-- `map_err` to a fixed error
abbrev pub ok_or {μ} : {T : Type μ} → Error → Result T → Result T
ok_or e (err raised) = err e
ok_or e (ok value) = ok value

-- `if test { return Err(e) }`
abbrev pub reject : Bool → Error → Result (Unit {0})
reject false e = ok tt
reject true e = err e

-- The operator `?`, with what follows it.
infixl 5 ◌>>=◌
abbrev pub ◌>>=◌ {μ ν} : {S : Type μ} {T : Type ν} → Result S → (S → Result T) → Result T
err raised >>= next = err raised
ok value >>= next = next value

infixl 5 ◌>>◌
abbrev pub ◌>>◌ {ν} : {T : Type ν} → Result (Unit {0}) → Result T → Result T
check >> next = check >>= (λ done. next)

-- A chain that succeeds has passed its checks and its first step.
pub reject-eq-ok {ν} :
    {T : Type ν} (test : Bool) (e : Error) (next : Result T) {value : T}
    → (reject test e >> next) ≡ ok value
    → (test ≡ false) × (next ≡ ok value)
reject-eq-ok false e next h = (refl, h)
reject-eq-ok true e next h = cc

pub >>=-eq-ok {μ ν} :
    {S : Type μ} {T : Type ν} (first : Result S) (next : S → Result T) {value : T}
    → (first >>= next) ≡ ok value
    → (x : S) × (first ≡ ok x) × (next x ≡ ok value)
>>=-eq-ok (err raised) next h = cc
>>=-eq-ok (ok x) next h = (x, refl, h)

-- A computation that may panic, or whose loop may use up its fuel: then it is `none`.
abbrev pub Run {ℓ} : Type ℓ → Type ℓ
Run A = Option (Result A)

abbrev pub run_bind {ℓ κ} : {A : Type ℓ} {B : Type κ} → Run A → (A → Run B) → Run B
run_bind none f = none
run_bind (some (err e)) f = some (err e)
run_bind (some (ok a)) f = f a

pub run_bind-eq-ok {ℓ κ} :
    {A : Type ℓ} {B : Type κ} (m : Run A) (f : A → Run B) {b : B}
    → run_bind m f ≡ some (ok b)
    → (a : A) × (m ≡ some (ok a)) × (f a ≡ some (ok b))
run_bind-eq-ok none f h = cc
run_bind-eq-ok (some (err e)) f h = cc
run_bind-eq-ok (some (ok a)) f h = (a, refl, h)
