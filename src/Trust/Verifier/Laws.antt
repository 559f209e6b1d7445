-- ===== src/Trust/Verifier/Laws.antt =====
-- What an accepted signature establishes.
use central_core.Prelude.{
  ℕ, ◌≡◌, ◌↔◌, true, some, ◌++◌, arith, Text, text, text_eq_iff, Option-cases, inl, inr,
}
use central_core.Errors.{ok, >>=-eq-ok}
use central_core.Trust.Keys.{
  TrustedKey, SignatureEnvelope, Crypto, provider_domain, validate_envelope,
  provider_signing_payload, verify_signature,
}
use central_core.Trust.Store.{Store, authorize}
use central_core.Trust.Verifier.{verify_provider}

module _ (crypto : Crypto) where
  -- The evidence: a version 1 Ed25519 envelope, a key that the store authorises, and a signature of
  -- that key on the domain and the canonical form of the document.
  pub record IsVerified (document : Text) (envelope : SignatureEnvelope)
      (expected provider_id : Text) (revision : ℕ) (s : Store) : Type 0 where
    pub version : envelope.signature_version ≡ 1
    pub algorithm : envelope.algorithm ≡ text "ed25519"
    pub key : TrustedKey
    pub authorized : authorize expected envelope.key_id provider_id revision s ≡ ok key
    pub canonical : Text
    pub canonicalized : crypto.canonicalize_json document ≡ some canonical
    pub signature : Text
    pub decoded : crypto.decode_signature envelope.signature ≡ some signature
    pub point : crypto.is_point key.public_key ≡ true
    pub verified : crypto.verifies key.public_key (provider_domain ++ canonical) signature ≡ true

  envelope_iff :
      (envelope : SignatureEnvelope)
      → (validate_envelope envelope ≡ ok tt)
        ↔ ((envelope.signature_version ≡ 1) × (envelope.algorithm ≡ text "ed25519"))
  unfolding validate_envelope
  envelope_iff envelope = ground (arith, text_eq_iff envelope.algorithm (text "ed25519"))

  payload-eq-ok :
      (document message : Text)
      → provider_signing_payload crypto document ≡ ok message
      → (canonical : Text) × (crypto.canonicalize_json document ≡ some canonical)
        × (provider_domain ++ canonical ≡ message)
  unfolding provider_signing_payload
  payload-eq-ok document message h = elim (Option-cases (crypto.canonicalize_json document)) [
    | inl gone ↦ absurd (ground arith)
    | inr (canonical, found) ↦ (canonical, found, ground arith)
  ]

  signature-eq-ok :
      (public_key message encoded : Text)
      → verify_signature crypto public_key message encoded ≡ ok tt
      → (signature : Text) × (crypto.decode_signature encoded ≡ some signature)
        × (crypto.is_point public_key ≡ true)
        × (crypto.verifies public_key message signature ≡ true)
  unfolding verify_signature
  signature-eq-ok public_key message encoded h =
      elim (Option-cases (crypto.decode_signature encoded)) [
        | inl gone ↦ absurd (ground arith)
        | inr (signature, found) ↦ (signature, found, ground arith, ground arith)
      ]

  IsVerified-verify_provider :
      (document : Text) (envelope : SignatureEnvelope) (expected provider_id : Text) (revision : ℕ)
      (s : Store)
      → verify_provider crypto document envelope expected provider_id revision s ≡ ok tt
      → IsVerified document envelope expected provider_id revision s
  unfolding verify_provider
  IsVerified-verify_provider document envelope expected provider_id revision s h =
      let (u, valid, h1) = >>=-eq-ok (validate_envelope envelope) _ h in
      let (key, authorized, h2) =
        >>=-eq-ok (authorize expected envelope.key_id provider_id revision s) _ h1 in
      let (message, payload, h3) = >>=-eq-ok (provider_signing_payload crypto document) _ h2 in
      let (canonical, canonicalized, same) = payload-eq-ok document message payload in
      let (signature, decoded, point, verified) =
        signature-eq-ok key.public_key message envelope.signature h3 in
      let (version, algorithm) = (envelope_iff envelope).0 valid in
      record {
        version = version;
        algorithm = algorithm;
        key = key;
        authorized = authorized;
        canonical = canonical;
        canonicalized = canonicalized;
        signature = signature;
        decoded = decoded;
        point = point;
        verified = rw same verified;
      }

  verify_provider_of_IsVerified :
      (document : Text) (envelope : SignatureEnvelope) (expected provider_id : Text) (revision : ℕ)
      (s : Store)
      → IsVerified document envelope expected provider_id revision s
      → verify_provider crypto document envelope expected provider_id revision s ≡ ok tt
  unfolding verify_provider
  verify_provider_of_IsVerified document envelope expected provider_id revision s v =
      rw ((envelope_iff envelope).1 (v.version, v.algorithm), v.authorized)
        (unfold provider_signing_payload verify_signature in
          ground (arith, v.canonicalized, v.decoded, v.point, v.verified))

  -- A provider document is accepted exactly with this evidence: a version 1 envelope for
  -- "ed25519", a key that the store authorises for the expected key, the provider and the
  -- revision, and a signature, decoded from the envelope, that verifies with that key on the
  -- provider domain followed by the canonical form of the document.
  pub verify_provider_iff :
      (document : Text) (envelope : SignatureEnvelope) (expected provider_id : Text) (revision : ℕ)
      (s : Store)
      → (verify_provider crypto document envelope expected provider_id revision s ≡ ok tt)
        ↔ IsVerified document envelope expected provider_id revision s
  verify_provider_iff document envelope expected provider_id revision s = (
    IsVerified-verify_provider document envelope expected provider_id revision s,
    verify_provider_of_IsVerified document envelope expected provider_id revision s,
  )
