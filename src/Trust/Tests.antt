-- ===== src/Trust/Tests.antt =====
-- A signature scheme for tests, a rotation under it, and the theorems at them.
use central_core.Prelude.{
  ℕ, ◌≡◌, ◌⊎◌, ◌↔◌, refl, arith, Bool, true, false, none, some, [], ◌∷◌, ◌++◌, Any, Text, text,
  text_eq, strings, maps, get,
}
use central_core.Errors.{ok, err}
use central_core.Trust.Keys.{
  SignatureAlgorithm, TrustedKey, SignatureEnvelope, KeyTransitionPayload, KeyTransition, Crypto,
  provider_domain, parse_key_id,
}
use central_core.Trust.Keys.Laws.{IsKeyId, parse_key_id_iff}
use central_core.Trust.Store.{
  TrustDocument, Store, empty_store, load, remove, authorize, add_key, apply_transition, untrusted,
  TrustEvent,
}
use central_core.Trust.Store.Authorize.{
  Covers, authorize_iff, authorize-remove, authorize-apply_transition, apply_transition-revives,
}
use central_core.Trust.Store.Provenance.{
  Reach, here, next, add, rotate, IsProven, authorize-IsProven,
}
use central_core.Trust.Verifier.{verify_provider}
use central_core.Trust.Verifier.Laws.{IsVerified, verify_provider_iff}

-- A key is its own fingerprint, and a signature is the key and the message.
abbrev plain_crypto : Crypto
plain_crypto = record {
  fingerprint = λ key. key;
  decode_signature = λ s. some s;
  is_point = λ key. true;
  verifies = λ key message signature. text_eq signature (key ++ message);
  canonicalize_json = λ document. some document;
  canonical_payload = λ payload. some (payload.provider_id ++ payload.to_key.key_id);
}

abbrev key_of : Text → ℕ → Bool → TrustedKey
key_of id now revoked = record {
  id = id;
  algorithm = SignatureAlgorithm.ed25519;
  public_key = id;
  label = none;
  revoked = revoked;
  added_unix_seconds = now;
}

-- The store with the old key and, revoked, the new one.
abbrev both : TrustDocument
both = record {
  format_version = 1;
  keys = (text "new", key_of (text "new") 1 true) ∷ (text "old", key_of (text "old") 1 false) ∷ [];
  transitions = [];
}

abbrev start : Store
start = record { document = some both; events = [] }

abbrev payload : KeyTransitionPayload
payload = record {
  transition_version = 1;
  provider_id = text "p";
  from_key_id = text "old";
  to_key = record {
    key_format_version = 1;
    algorithm = SignatureAlgorithm.ed25519;
    public_key = text "new";
    key_id = text "new";
    label = none;
  };
  valid_from_revision = 4;
}

abbrev rotation : KeyTransition
rotation = record {
  payload = payload;
  signature = text "oldcentralcore-key-transition-v1" ++ (0 ∷ text "pnew");
}

abbrev rotated_document : TrustDocument
rotated_document = record {
  format_version = 1;
  keys = (text "new", key_of (text "new") 9 false) ∷ (text "old", key_of (text "old") 1 false) ∷ [];
  transitions =
      record {
        provider_id = text "p";
        from_key_id = text "old";
        to_key_id = text "new";
        valid_from_revision = 4;
      }
      ∷ [];
}

abbrev rotated : Store
rotated = record {
  document = some rotated_document;
  events = TrustEvent.signing_key_rotated (text "p") (text "old") (text "new") ∷ [];
}

rotates : apply_transition plain_crypto 9 rotation start ≡ ok (key_of (text "new") 9 false, rotated)
unfolding apply_transition strings maps
rotates = refl

loads_start : load start ≡ ok both
unfolding load
loads_start = refl

loads_rotated : load rotated ≡ ok rotated_document
unfolding load
loads_rotated = refl

listed_new : get (text "new") both.keys ≡ some (key_of (text "new") 1 true)
unfolding strings maps
listed_new = refl

abbrev zero_key : Text
zero_key = text "sha256:0000000000000000000000000000000000000000000000000000000000000000"

parses_zero : parse_key_id zero_key ≡ ok zero_key
unfolding parse_key_id strings
parses_zero = refl

parse_key_id_iff_example : (parse_key_id zero_key ≡ ok zero_key) ↔ IsKeyId zero_key
parse_key_id_iff_example = parse_key_id_iff zero_key

authorize_iff_example :
    (authorize (text "old") (text "new") (text "p") 5 rotated ≡ ok (key_of (text "new") 9 false))
    ↔ ((get (text "new") rotated_document.keys ≡ some (key_of (text "new") 9 false))
        × (false ≡ false)
        × ((text "new" ≡ text "old")
            ⊎ Any (Covers (text "old") (text "new") (text "p") 5) rotated_document.transitions))
authorize_iff_example =
    authorize_iff (text "old") (text "new") (text "p") 5 rotated rotated_document
      (key_of (text "new") 9 false) loads_rotated

authorize-apply_transition_example :
    authorize (text "old") (text "new") (text "p") 6 rotated ≡ ok (key_of (text "new") 9 false)
authorize-apply_transition_example =
    authorize-apply_transition plain_crypto 9 rotation start rotated (key_of (text "new") 9 false) 6
      rotates (omega arith)

abbrev removed : Store
removed = record {
  document = some (record {
    format_version = 1;
    keys = (text "new", key_of (text "new") 1 true) ∷ (text "old", key_of (text "old") 1 true) ∷ [];
    transitions = [];
  });
  events = TrustEvent.signing_key_removed (text "old") ∷ [];
}

removes : remove (text "old") start ≡ ok (key_of (text "old") 1 true, removed)
unfolding remove strings maps
removes = refl

authorize-remove_example :
    authorize (text "old") (text "old") (text "p") 3 removed ≡ err (untrusted (text "old"))
authorize-remove_example =
    authorize-remove (text "old") start removed (key_of (text "old") 1 true) removes (text "old")
      (text "p") 3

apply_transition-revives_example :
    ((expected provider_id : Text) (revision : ℕ)
      → authorize expected (text "new") provider_id revision start ≡ err (untrusted (text "new")))
    × (authorize (text "old") (text "new") (text "p") 4 rotated ≡ ok (key_of (text "new") 9 false))
apply_transition-revives_example =
    apply_transition-revives plain_crypto 9 rotation start rotated both (key_of (text "new") 1 true)
      (key_of (text "new") 9 false) loads_start listed_new refl rotates

abbrev only_old : Store
only_old = record {
  document = some (record {
    format_version = 1;
    keys = (text "old", key_of (text "old") 1 false) ∷ [];
    transitions = [];
  });
  events = TrustEvent.signing_key_trusted (text "old") ∷ [];
}

adds :
    add_key plain_crypto 1 (text "old") none empty_store
    ≡ ok (key_of (text "old") 1 false, only_old)
unfolding add_key strings maps
adds = refl

abbrev reached : Store
reached = record {
  document = some rotated_document;
  events =
      TrustEvent.signing_key_trusted (text "old")
      ∷ TrustEvent.signing_key_rotated (text "p") (text "old") (text "new")
      ∷ [];
}

rotates_next :
    apply_transition plain_crypto 9 rotation only_old ≡ ok (key_of (text "new") 9 false, reached)
unfolding apply_transition strings maps
rotates_next = refl

loads_reached : load reached ≡ ok rotated_document
unfolding load
loads_reached = refl

authorizes_reached :
    authorize (text "old") (text "new") (text "p") 4 reached ≡ ok (key_of (text "new") 9 false)
unfolding authorize strings maps
authorizes_reached = refl

history : Reach plain_crypto empty_store reached
history =
    next
      (next here (add empty_store only_old 1 (text "old") none (key_of (text "old") 1 false) adds))
      (rotate only_old reached 9 rotation (key_of (text "new") 9 false) rotates_next)

authorize-IsProven_example :
    (text "new" ≡ text "new")
    × ((text "new" ≡ text "old")
        ⊎ Any
            (λ t. Covers (text "old") (text "new") (text "p") 4 t × IsProven plain_crypto t)
            rotated_document.transitions)
authorize-IsProven_example =
    authorize-IsProven plain_crypto reached (text "old") (text "new") (text "p") 4 rotated_document
      (key_of (text "new") 9 false) history loads_reached authorizes_reached

abbrev envelope : SignatureEnvelope
envelope = record {
  signature_version = 1;
  algorithm = text "ed25519";
  key_id = text "new";
  signature = text "new" ++ (provider_domain ++ text "{}");
}

verifies_index :
    verify_provider plain_crypto (text "{}") envelope (text "old") (text "p") 4 rotated ≡ ok tt
unfolding verify_provider strings maps
verifies_index = refl

verify_provider_iff_example :
    (verify_provider plain_crypto (text "{}") envelope (text "old") (text "p") 4 rotated ≡ ok tt)
    ↔ IsVerified plain_crypto (text "{}") envelope (text "old") (text "p") 4 rotated
verify_provider_iff_example =
    verify_provider_iff plain_crypto (text "{}") envelope (text "old") (text "p") 4 rotated
