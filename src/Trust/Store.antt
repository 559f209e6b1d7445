-- ===== src/Trust/Store.antt =====
-- trust/mod.rs, `TrustStore`: the persistent document of keys and transitions. The state is the
-- document on disk, if there is one, and the events emitted so far. An operation that fails leaves
-- both as they were. Failures to read or write the file are not modelled; the clock is an argument.
pub mod Laws
pub mod Authorize
pub mod Provenance
use central_core.Prelude.{
  ℕ, zero, ◌≤◌, ◌||◌, ◌&&◌, Bool, true, false, not, Option, none, some, List, [], ◌∷◌, ◌++◌, any,
  Text, TextMap, text_eq, is_empty, get, insert, values, leb, ◌==◌, if◌then◌else◌,
}
use central_core.Errors.{Error, TrustError, Result, ok, err, ◌>>=◌, ◌>>◌, reject}
use central_core.Trust.Keys.{
  SignatureAlgorithm, PublicKeyFile, TrustedKey, KeyTransitionPayload, KeyTransition, Crypto,
  validate_key_file, transition_signing_payload, verify_signature, key_transition_version,
}

pub record StoredTransition : Type 0 where
  pub provider_id : Text
  pub from_key_id : Text
  pub to_key_id : Text
  pub valid_from_revision : ℕ

pub record TrustDocument : Type 0 where
  pub format_version : ℕ
  pub keys : TextMap TrustedKey
  pub transitions : List StoredTransition

-- The events of events/mod.rs that the trust store emits.
pub data TrustEvent : Type 0 where
  signing_key_trusted signing_key_removed : Text → TrustEvent
  signing_key_rotated : (provider_id old_key_id new_key_id : Text) → TrustEvent

pub record Store : Type 0 where
  pub document : Option TrustDocument
  pub events : List TrustEvent

abbrev pub trust_store_format_version : ℕ
trust_store_format_version = 1

abbrev pub default_document : TrustDocument
default_document = record {
  format_version = trust_store_format_version;
  keys = [];
  transitions = [];
}

-- The state before the first operation.
abbrev pub empty_store : Store
empty_store = record { document = none; events = [] }

abbrev check_version : TrustDocument → Result TrustDocument
check_version document = do
  reject (not (document.format_version == trust_store_format_version))
      (Error.unsupported_format "trust store" document.format_version)
  ok document

abbrev load_document : Option TrustDocument → Result TrustDocument
load_document none = ok default_document
load_document (some document) = check_version document

-- `load`
unfoldable pub load : Store → Result TrustDocument
load s = load_document s.document

-- `save` and the event that follows it
unfoldable pub save : TrustDocument → TrustEvent → Store → Store
save document event s = record { document = some document; events = s.events ++ (event ∷ []) }

abbrev pub untrusted : Text → Error
untrusted id = Error.trust (TrustError.untrusted_signing_key id)

abbrev pub found {ℓ} : {A : Type ℓ} → Error → Option A → Result A
found e none = err e
found e (some a) = ok a

-- `filter(|key| !key.revoked)`
abbrev pub unrevoked : Option TrustedKey → Option TrustedKey
unrevoked none = none
unrevoked (some key) = if key.revoked then none else some key

unfoldable pub same_transition : StoredTransition → StoredTransition → Bool
same_transition a b =
    text_eq a.provider_id b.provider_id
    && text_eq a.from_key_id b.from_key_id
    && text_eq a.to_key_id b.to_key_id
    && a.valid_from_revision == b.valid_from_revision

-- `TrustStore::list`
unfoldable pub list : Store → Result (List TrustedKey)
unfolding load
list s = do document ← load s; ok (values document.keys)

-- `TrustStore::show`
unfoldable pub show : Text → Store → Result TrustedKey
unfolding load
show id s = do document ← load s; found (untrusted id) (get id document.keys)

-- `TrustStore::get`
unfoldable pub get_key : Text → Store → Result TrustedKey
unfolding load
get_key id s = do
  document ← load s
  key ← found (untrusted id) (get id document.keys)
  reject key.revoked (untrusted id)
  ok key

-- `TrustStore::remove`
unfoldable pub remove : Text → Store → Result (TrustedKey × Store)
unfolding load save
remove id s = do
  document ← load s
  key ← found (untrusted id) (get id document.keys)
  let removed = record key { revoked = true }
  ok (
    removed,
    save (record document { keys = insert id removed document.keys })
        (TrustEvent.signing_key_removed id) s,
  )

unfoldable pub authorizes : Text → Text → Text → ℕ → StoredTransition → Bool
authorizes expected actual provider_id revision t =
    text_eq t.provider_id provider_id
    && text_eq t.from_key_id expected
    && text_eq t.to_key_id actual
    && leb t.valid_from_revision revision

-- `TrustStore::authorize`
unfoldable pub authorize : (expected actual provider_id : Text) → ℕ → Store → Result TrustedKey
unfolding load authorizes
authorize expected actual provider_id revision s = do
  document ← load s
  key ← found (untrusted actual) (unrevoked (get actual document.keys))
  if text_eq actual expected then ok key else do
    reject (not (any (authorizes expected actual provider_id revision) document.transitions))
        (Error.trust (TrustError.signing_key_mismatch expected actual))
    ok key

-- The record of a key that is trusted at the time `now`.
abbrev pub trusted_key : Text → SignatureAlgorithm → Text → Option Text → ℕ → TrustedKey
trusted_key id algorithm public_key label now = record {
  id = id;
  algorithm = algorithm;
  public_key = public_key;
  label = label;
  revoked = false;
  added_unix_seconds = now;
}

-- `verify_signature(..).map_err(|_| InvalidKeyTransition)`
abbrev pub as_invalid_transition : Result (Unit {0}) → Result (Unit {0})
as_invalid_transition (ok u) = ok u
as_invalid_transition (err e) = err (Error.trust TrustError.invalid_key_transition)

abbrev pub stored_transition : KeyTransitionPayload → StoredTransition
stored_transition payload = record {
  provider_id = payload.provider_id;
  from_key_id = payload.from_key_id;
  to_key_id = payload.to_key.key_id;
  valid_from_revision = payload.valid_from_revision;
}

-- `if !document.transitions.contains(&stored) { push }`
unfoldable pub push_transition : StoredTransition → List StoredTransition → List StoredTransition
unfolding same_transition
push_transition t ts = if any (λ u. same_transition u t) ts then ts else ts ++ (t ∷ [])

module _ (crypto : Crypto) where
  unfoldable pub validate_transition : TrustDocument → KeyTransition → Result (Unit {0})
  unfolding validate_key_file transition_signing_payload verify_signature
  validate_transition document transition = do
    reject (not (transition.payload.transition_version == key_transition_version))
        (Error.trust TrustError.invalid_key_transition)
    reject (is_empty transition.payload.provider_id || transition.payload.valid_from_revision == 0)
        (Error.trust TrustError.invalid_key_transition)
    validate_key_file crypto transition.payload.to_key
    reject (text_eq transition.payload.from_key_id transition.payload.to_key.key_id)
        (Error.trust TrustError.invalid_key_transition)
    old ←
        found (untrusted transition.payload.from_key_id)
          (unrevoked (get transition.payload.from_key_id document.keys))
    message ← transition_signing_payload crypto transition.payload
    as_invalid_transition (verify_signature crypto old.public_key message transition.signature)

module _ (crypto : Crypto) (now : ℕ) where
  -- `TrustStore::add_key`
  unfoldable pub add_key : Text → Option Text → Store → Result (TrustedKey × Store)
  unfolding load save
  add_key public_key label s = do
    document ← load s
    let id = crypto.fingerprint public_key
    let key = trusted_key id SignatureAlgorithm.ed25519 public_key label now
    ok (
      key,
      save (record document { keys = insert id key document.keys })
          (TrustEvent.signing_key_trusted id) s,
    )

  -- `TrustStore::add_key_file`
  unfoldable pub add_key_file : PublicKeyFile → Store → Result (TrustedKey × Store)
  unfolding add_key validate_key_file
  add_key_file file s = do validate_key_file crypto file; add_key file.public_key file.label s

  -- `TrustStore::apply_transition`
  unfoldable pub apply_transition : KeyTransition → Store → Result (TrustedKey × Store)
  unfolding load save validate_transition push_transition
  apply_transition transition s = do
    document ← load s
    validate_transition crypto document transition
    let to = transition.payload.to_key
    let key = trusted_key to.key_id to.algorithm to.public_key to.label now
    ok (
      key,
      save
          (record document {
            keys = insert to.key_id key document.keys;
            transitions =
                push_transition (stored_transition transition.payload) document.transitions;
          })
          (TrustEvent.signing_key_rotated transition.payload.provider_id
            transition.payload.from_key_id to.key_id)
          s,
    )
