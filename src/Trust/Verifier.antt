-- ===== src/Trust/Verifier.antt =====
-- trust/mod.rs, `SignatureVerifier::verify_provider`.
pub mod Laws
use central_core.Prelude.{ℕ, Text}
use central_core.Errors.{Result, ok, err, ◌>>=◌, ◌>>◌}
use central_core.Trust.Keys.{
  SignatureEnvelope, Crypto, validate_envelope, provider_signing_payload, verify_signature,
}
use central_core.Trust.Store.{Store, authorize}

module _ (crypto : Crypto) where
  unfoldable pub verify_provider :
      (document : Text)
      → SignatureEnvelope
      → (expected_key provider_id : Text) → ℕ
      → Store
      → Result (Unit {0})
  unfolding validate_envelope authorize provider_signing_payload verify_signature
  verify_provider document envelope expected_key provider_id revision s = do
    validate_envelope envelope
    key ← authorize expected_key envelope.key_id provider_id revision s
    message ← provider_signing_payload crypto document
    verify_signature crypto key.public_key message envelope.signature
