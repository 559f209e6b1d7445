-- ===== src/Providers/Verification.antt =====
-- providers/service.rs, `verify_provider_index`: the signature of a provider's index, by the policy of
-- its registration. The document of the signature as it was fetched, the parser of envelopes, the
-- digest, base64 and the clock are parameters; the events are left out.
pub mod Laws
mod Tests
use central_core.Prelude.{ℕ, Bool, true, false, Option, none, some, Text, ◌==◌}
use central_core.Errors.{Error, ProviderError, TrustError, Result, ok, err, ◌>>=◌, ◌>>◌, reject}
use central_core.Trust.Keys.{Crypto, SignatureEnvelope}
use central_core.Trust.Store.{Store}
use central_core.Trust.Verifier.{verify_provider}

pub data SignaturePolicy : Type 0 where
  required optional disabled : SignaturePolicy

pub data SignatureStatus : Type 0 where
  verified unsigned disabled : SignatureStatus

-- What `fetch_document` of the signature gave; `not_found` is what `signature_not_found` tells.
pub data SignatureFetch : Type 0 where
  modified : (bytes : Text) → SignatureFetch
  not_modified not_found : SignatureFetch
  failed : Error → SignatureFetch

-- The evidence kept with a snapshot; the algorithm is that of an envelope, always "ed25519".
pub record ProviderVerification : Type 0 where
  pub signature_status : SignatureStatus
  pub key_id : Option Text
  pub signature : Option Text
  pub content_sha256 : Text
  pub verified_unix_seconds : Option ℕ
  pub revision : Option ℕ
  pub document_base64 : Text
  pub envelope : Option SignatureEnvelope

-- Crates and the clock
pub record Services : Type 0 where
  pub parse_envelope : Text → Option SignatureEnvelope
  pub sha256 : Text → Text
  pub base64 : Text → Text
  pub unix_seconds : ℕ

abbrev key_id_of : Option SignatureEnvelope → Option Text
key_id_of none = none
key_id_of (some envelope) = some envelope.key_id

abbrev signature_of : Option SignatureEnvelope → Option Text
signature_of none = none
signature_of (some envelope) = some envelope.signature

module _ (crypto : Crypto) (services : Services) where
  abbrev verified_at : SignatureStatus → Option ℕ
  verified_at SignatureStatus.verified = some services.unix_seconds
  verified_at SignatureStatus.unsigned = none
  verified_at SignatureStatus.disabled = none

  unfoldable pub provider_verification :
      SignatureStatus
      → Option ℕ
      → (content_sha256 document : Text) → Option SignatureEnvelope
      → ProviderVerification
  provider_verification status revision content_sha256 document envelope = record {
    signature_status = status;
    key_id = key_id_of envelope;
    signature = signature_of envelope;
    content_sha256 = content_sha256;
    verified_unix_seconds = verified_at status;
    revision = revision;
    document_base64 = services.base64 document;
    envelope = envelope;
  }

  -- `ok_or`
  abbrev pub present {ℓ} : {A : Type ℓ} → Option A → Error → Result A
  present none e = err e
  present (some a) e = ok a

  abbrev canonicalize : Text → Result Text
  canonicalize bytes =
      present (crypto.canonicalize_json bytes) (Error.trust TrustError.canonicalization)

  module _ (id : Text) (trusted_key_id : Option Text) (revision : Option ℕ) (bytes : Text)
      (store : Store) where
    -- The block that parses and verifies an envelope.
    unfoldable pub verify_envelope : Text → Text → Result ProviderVerification
    unfolding provider_verification verify_provider
    verify_envelope content_sha256 envelope_bytes = do
      envelope ←
          present (services.parse_envelope envelope_bytes)
            (Error.trust TrustError.signature_invalid)
      expected ←
          present trusted_key_id (Error.trust (TrustError.untrusted_signing_key envelope.key_id))
      actual ← present revision (Error.static_provider ProviderError.invalid_manifest)
      reject (actual == 0) (Error.static_provider ProviderError.invalid_manifest)
      verify_provider crypto bytes envelope expected id actual store
      ok (
          provider_verification SignatureStatus.verified (some actual) content_sha256 bytes
            (some envelope))

    -- No signature is there.
    abbrev pub without_envelope : SignaturePolicy → Text → Result ProviderVerification
    without_envelope SignaturePolicy.required content_sha256 =
        err (Error.trust TrustError.signature_missing)
    without_envelope SignaturePolicy.optional content_sha256 =
        ok (provider_verification SignatureStatus.unsigned revision content_sha256 bytes none)
    without_envelope SignaturePolicy.disabled content_sha256 =
        ok (provider_verification SignatureStatus.unsigned revision content_sha256 bytes none)

    abbrev pub with_fetched : SignaturePolicy → Text → SignatureFetch → Result ProviderVerification
    with_fetched policy content_sha256 (modified envelope_bytes) =
        verify_envelope content_sha256 envelope_bytes
    with_fetched policy content_sha256 not_modified = without_envelope policy content_sha256
    with_fetched policy content_sha256 not_found = without_envelope policy content_sha256
    with_fetched policy content_sha256 (failed e) = err e

    abbrev pub by_policy : SignaturePolicy → Text → SignatureFetch → Result ProviderVerification
    by_policy SignaturePolicy.disabled content_sha256 fetched =
        ok (provider_verification SignatureStatus.disabled revision content_sha256 bytes none)
    by_policy SignaturePolicy.required content_sha256 fetched =
        with_fetched SignaturePolicy.required content_sha256 fetched
    by_policy SignaturePolicy.optional content_sha256 fetched =
        with_fetched SignaturePolicy.optional content_sha256 fetched

    unfoldable pub verify_provider_index :
        SignaturePolicy → SignatureFetch → Result ProviderVerification
    unfolding verify_envelope provider_verification
    verify_provider_index policy fetched = do
      canonical ← canonicalize bytes
      by_policy policy (services.sha256 canonical) fetched
