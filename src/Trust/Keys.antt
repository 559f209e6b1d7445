-- ===== src/Trust/Keys.antt =====
-- trust/mod.rs: key ids, key files, transitions, and the cryptography as an interface.
pub mod Laws
use central_core.Prelude.{
  ℕ, ◌||◌, Bool, true, false, not, Option, none, some, List, [], ◌∷◌, ◌++◌, all, Text, text,
  text_eq, len, starts_with, is_ascii_hexdigit, is_ascii_uppercase, ◌&&◌, ◌==◌, if◌then◌else◌,
}
use central_core.Errors.{Error, TrustError, Result, ok, err, ◌>>=◌, ◌>>◌, reject}

pub data SignatureAlgorithm : Type 0 where
  ed25519 : SignatureAlgorithm

-- `PublicKeyFile`; the public key is its bytes.
pub record PublicKeyFile : Type 0 where
  pub key_format_version : ℕ
  pub algorithm : SignatureAlgorithm
  pub public_key : Text
  pub key_id : Text
  pub label : Option Text

pub record TrustedKey : Type 0 where
  pub id : Text
  pub algorithm : SignatureAlgorithm
  pub public_key : Text
  pub label : Option Text
  pub revoked : Bool
  pub added_unix_seconds : ℕ

pub record SignatureEnvelope : Type 0 where
  pub signature_version : ℕ
  pub algorithm : Text
  pub key_id : Text
  pub signature : Text

pub record KeyTransitionPayload : Type 0 where
  pub transition_version : ℕ
  pub provider_id : Text
  pub from_key_id : Text
  pub to_key : PublicKeyFile
  pub valid_from_revision : ℕ

pub record KeyTransition : Type 0 where
  pub payload : KeyTransitionPayload
  pub signature : Text

-- The crates sha2, base64, ed25519-dalek and serde_jcs.
pub record Crypto : Type 0 where
  -- "sha256:" and the hexadecimal digest of the key's bytes: `PublicKey::key_id`
  pub fingerprint : Text → Text
  -- `BASE64.decode` and `DalekSignature::from_slice`
  pub decode_signature : Text → Option Text
  -- `VerifyingKey::from_bytes` succeeds
  pub is_point : Text → Bool
  -- `verify` of a key, a message and a signature
  pub verifies : Text → Text → Text → Bool
  -- the canonical form of a document, `none` if it is no JSON
  pub canonicalize_json : Text → Option Text
  -- the canonical form of a transition's payload
  pub canonical_payload : KeyTransitionPayload → Option Text

strip_prefix : Text → Text → Option Text
strip_prefix [] s = some s
strip_prefix (p ∷ ps) [] = none
strip_prefix (p ∷ ps) (c ∷ s) = let rest = strip_prefix ps s in if p == c then rest else none

abbrev key_digest : Text → Option Text → Result Text
key_digest value none = err (Error.trust TrustError.invalid_public_key)
key_digest value (some digest) =
    if not (len digest == 64)
      || not (all (λ c. is_ascii_hexdigit c && not (is_ascii_uppercase c)) digest)
    then err (Error.trust TrustError.invalid_public_key)
    else ok value

-- `KeyId::parse`; a validated key id is its text.
unfoldable pub parse_key_id : Text → Result Text
unfolding strip_prefix
parse_key_id value = key_digest value (strip_prefix (text "sha256:") value)

abbrev pub signature_version_v1 : ℕ
signature_version_v1 = 1

abbrev pub key_file_format_version : ℕ
key_file_format_version = 1

abbrev pub key_transition_version : ℕ
key_transition_version = 1

abbrev pub provider_domain : Text
provider_domain = text "centralcore-provider-signature-v1" ++ (0 ∷ [])

abbrev pub transition_domain : Text
transition_domain = text "centralcore-key-transition-v1" ++ (0 ∷ [])

module _ (crypto : Crypto) where
  -- `PublicKeyFile::validate`
  unfoldable pub validate_key_file : PublicKeyFile → Result (Unit {0})
  validate_key_file file = do
    reject (not (file.key_format_version == key_file_format_version))
        (Error.trust (TrustError.unsupported_key_format file.key_format_version))
    reject (not (text_eq file.key_id (crypto.fingerprint file.public_key)))
        (Error.trust TrustError.key_id_mismatch)

  abbrev with_domain : Text → Option Text → Result Text
  with_domain domain none = err (Error.trust TrustError.canonicalization)
  with_domain domain (some canonical) = ok (domain ++ canonical)

  unfoldable pub provider_signing_payload : Text → Result Text
  provider_signing_payload document =
      with_domain provider_domain (crypto.canonicalize_json document)

  unfoldable pub transition_signing_payload : KeyTransitionPayload → Result Text
  transition_signing_payload payload =
      with_domain transition_domain (crypto.canonical_payload payload)

  abbrev verify_decoded : Text → Text → Option Text → Result (Unit {0})
  verify_decoded public_key message none = err (Error.trust TrustError.signature_invalid)
  verify_decoded public_key message (some signature) = do
    reject (not (crypto.is_point public_key)) (Error.trust TrustError.invalid_public_key)
    reject (not (crypto.verifies public_key message signature))
        (Error.trust TrustError.signature_invalid)

  unfoldable pub verify_signature : Text → Text → Text → Result (Unit {0})
  verify_signature public_key message encoded_signature =
      verify_decoded public_key message (crypto.decode_signature encoded_signature)

-- `validate_envelope`
unfoldable pub validate_envelope : SignatureEnvelope → Result (Unit {0})
validate_envelope envelope = do
  reject (not (envelope.signature_version == signature_version_v1))
      (Error.trust (TrustError.unsupported_signature_version envelope.signature_version))
  reject (not (text_eq envelope.algorithm (text "ed25519")))
      (Error.trust (TrustError.unsupported_signature_algorithm envelope.algorithm))
