-- ===== src/Providers/Verification/Laws.antt =====
-- What an accepted index has been checked for.
use central_core.Prelude.{ℕ, ◌≡◌, ◌≢◌, ◌⊎◌, inl, inr, refl, Option, none, some, Text, arith, ◌==◌}
use central_core.Errors.{Error, ok, >>=-eq-ok, reject-eq-ok}
use central_core.Trust.Keys.{Crypto, SignatureEnvelope}
use central_core.Trust.Store.{Store}
use central_core.Trust.Verifier.{verify_provider}
use central_core.Trust.Verifier.Laws.{IsVerified, verify_provider_iff}
use central_core.Providers.Verification.{
  SignaturePolicy, SignatureStatus, SignatureFetch, modified, not_modified, not_found, failed,
  ProviderVerification, Services, provider_verification, present, verify_envelope, by_policy,
  verify_provider_index,
}

module _ (crypto : Crypto) (services : Services) (id : Text) (trusted_key_id : Option Text)
    (revision : Option ℕ) (bytes : Text) (store : Store) where
  -- A signature that was fetched, and that verifies the index for its revision.
  pub record IsSigned (fetched : SignatureFetch) (v : ProviderVerification) : Type 0 where
    pub envelope_bytes : Text
    pub envelope : SignatureEnvelope
    pub expected : Text
    pub actual : ℕ
    pub there : fetched ≡ modified envelope_bytes
    pub parsed : services.parse_envelope envelope_bytes ≡ some envelope
    pub trusted : trusted_key_id ≡ some expected
    pub revision_of : revision ≡ some actual
    pub positive : actual ≢ 0
    pub evidence : IsVerified crypto bytes envelope expected id actual store
    pub kept : v.envelope ≡ some envelope
    pub status : v.signature_status ≡ SignatureStatus.verified

  present-eq-ok {ℓ} :
      {A : Type ℓ} (o : Option A) (e : Error) {a : A}
      → present crypto services o e ≡ ok a
      → o ≡ some a
  present-eq-ok none e h = absurd (cc h)
  present-eq-ok (some b) e h = cc h

  IsSigned-verify_envelope :
      (content_sha256 envelope_bytes : Text) (v : ProviderVerification)
      → verify_envelope crypto services id trusted_key_id revision bytes store content_sha256
          envelope_bytes
        ≡ ok v
      → IsSigned (modified envelope_bytes) v
  unfolding verify_envelope provider_verification
  IsSigned-verify_envelope content_sha256 envelope_bytes v h =
      let (envelope, parsed, h1) =
        >>=-eq-ok (present crypto services (services.parse_envelope envelope_bytes) _) _ h in
      let (expected, trusted, h2) = >>=-eq-ok (present crypto services trusted_key_id _) _ h1 in
      let (actual, numbered, h3) = >>=-eq-ok (present crypto services revision _) _ h2 in
      let (positive, h4) = reject-eq-ok (actual == 0) _ _ h3 in
      let (u, accepted, made) =
        >>=-eq-ok (verify_provider crypto bytes envelope expected id actual store) _ h4 in
      record {
        envelope_bytes = envelope_bytes;
        envelope = envelope;
        expected = expected;
        actual = actual;
        there = refl;
        parsed = present-eq-ok (services.parse_envelope envelope_bytes) _ parsed;
        trusted = present-eq-ok trusted_key_id _ trusted;
        revision_of = present-eq-ok revision _ numbered;
        positive = ground arith;
        evidence = (verify_provider_iff crypto bytes envelope expected id actual store).0 accepted;
        kept = cc made;
        status = cc made;
      }

  -- What an accepted index has, by the policy.
  abbrev pub IsChecked : SignaturePolicy → SignatureFetch → ProviderVerification → Type 0
  IsChecked SignaturePolicy.required fetched v = IsSigned fetched v
  IsChecked SignaturePolicy.optional fetched v =
      IsSigned fetched v
      ⊎ (((fetched ≡ not_found) ⊎ (fetched ≡ not_modified))
          × (v.signature_status ≡ SignatureStatus.unsigned)
          × (v.envelope ≡ none))
  IsChecked SignaturePolicy.disabled fetched v =
      (v.signature_status ≡ SignatureStatus.disabled) × (v.envelope ≡ none)

  IsChecked-by_policy :
      (policy : SignaturePolicy) (content_sha256 : Text) (fetched : SignatureFetch)
      (v : ProviderVerification)
      → by_policy crypto services id trusted_key_id revision bytes store policy content_sha256
          fetched
        ≡ ok v
      → IsChecked policy fetched v
  unfolding provider_verification
  IsChecked-by_policy SignaturePolicy.disabled content_sha256 fetched v h = (cc h, cc h)
  IsChecked-by_policy SignaturePolicy.required content_sha256 (modified envelope_bytes) v h =
      IsSigned-verify_envelope content_sha256 envelope_bytes v h
  IsChecked-by_policy SignaturePolicy.required content_sha256 not_modified v h = absurd (cc h)
  IsChecked-by_policy SignaturePolicy.required content_sha256 not_found v h = absurd (cc h)
  IsChecked-by_policy SignaturePolicy.required content_sha256 (failed e) v h = absurd (cc h)
  IsChecked-by_policy SignaturePolicy.optional content_sha256 (modified envelope_bytes) v h =
      inl (IsSigned-verify_envelope content_sha256 envelope_bytes v h)
  IsChecked-by_policy SignaturePolicy.optional content_sha256 not_modified v h =
      inr (inr refl, cc h, cc h)
  IsChecked-by_policy SignaturePolicy.optional content_sha256 not_found v h =
      inr (inl refl, cc h, cc h)
  IsChecked-by_policy SignaturePolicy.optional content_sha256 (failed e) v h = absurd (cc h)

  -- Where signatures are required, an accepted index has a signature that was fetched, of a trusted key
  -- for the index, its provider and its revision, which is not zero. Where they are optional it has
  -- one, or none was there to fetch and it is kept as unsigned: a signature that is there must verify.
  -- Where they are disabled it is kept as such, without an envelope.
  pub verify_provider_index-IsChecked :
      (policy : SignaturePolicy) (fetched : SignatureFetch) (v : ProviderVerification)
      → verify_provider_index crypto services id trusted_key_id revision bytes store policy fetched
        ≡ ok v
      → IsChecked policy fetched v
  unfolding verify_provider_index
  verify_provider_index-IsChecked policy fetched v h =
      let (canonical, known, h1) =
        >>=-eq-ok (present crypto services (crypto.canonicalize_json bytes) _) _ h in
      IsChecked-by_policy policy (services.sha256 canonical) fetched v h1
