-- ===== src/Providers/Verification/Tests.antt =====
-- A signed index, and one without its signature.
use central_core.Prelude.{
  ◌≡◌, refl, true, false, none, some, [], ◌∷◌, ◌++◌, text, text_eq, strings, maps,
}
use central_core.Errors.{Error, TrustError, ok, err}
use central_core.Trust.Keys.{Crypto, SignatureAlgorithm, SignatureEnvelope, provider_domain}
use central_core.Trust.Store.{Store}
use central_core.Providers.Verification.{
  SignaturePolicy, SignatureStatus, modified, not_found, ProviderVerification, Services,
  verify_provider_index,
}
use central_core.Providers.Verification.Laws.{IsChecked, verify_provider_index-IsChecked}

-- A signature is the key and the message.
abbrev joined : Crypto
joined = record {
  fingerprint = λ key. key;
  decode_signature = λ s. some s;
  is_point = λ key. true;
  verifies = λ key message signature. text_eq signature (key ++ message);
  canonicalize_json = λ document. some document;
  canonical_payload = λ payload. none;
}

abbrev envelope : SignatureEnvelope
envelope = record {
  signature_version = 1;
  algorithm = text "ed25519";
  key_id = text "k";
  signature = text "k" ++ (provider_domain ++ text "{}");
}

-- Every document of a signature parses to the same envelope.
abbrev services : Services
services = record {
  parse_envelope = λ bytes. some envelope;
  sha256 = λ bytes. bytes;
  base64 = λ bytes. bytes;
  unix_seconds = 7;
}

abbrev store : Store
store = record {
  document = some (record {
    format_version = 1;
    keys =
        (
          text "k",
          record {
            id = text "k";
            algorithm = SignatureAlgorithm.ed25519;
            public_key = text "k";
            label = none;
            revoked = false;
            added_unix_seconds = 1;
          },
        )
        ∷ [];
    transitions = [];
  });
  events = [];
}

abbrev evidence : ProviderVerification
evidence = record {
  signature_status = SignatureStatus.verified;
  key_id = some (text "k");
  signature = some envelope.signature;
  content_sha256 = text "{}";
  verified_unix_seconds = some 7;
  revision = some 4;
  document_base64 = text "{}";
  envelope = some envelope;
}

accepts :
    verify_provider_index joined services
      (text "p")
      (some (text "k"))
      (some 4)
      (text "{}")
      store
      SignaturePolicy.required
      (modified (text "s"))
    ≡ ok evidence
unfolding verify_provider_index strings maps
accepts = refl

refuses :
    verify_provider_index joined services
      (text "p")
      (some (text "k"))
      (some 4)
      (text "{}")
      store
      SignaturePolicy.required
      not_found
    ≡ err (Error.trust TrustError.signature_missing)
unfolding verify_provider_index
refuses = refl

verify_provider_index-IsChecked_example :
    IsChecked joined services
      (text "p")
      (some (text "k"))
      (some 4)
      (text "{}")
      store
      SignaturePolicy.required
      (modified (text "s"))
      evidence
verify_provider_index-IsChecked_example =
    verify_provider_index-IsChecked joined services (text "p") (some (text "k")) (some 4)
      (text "{}") store SignaturePolicy.required (modified (text "s")) evidence accepts
