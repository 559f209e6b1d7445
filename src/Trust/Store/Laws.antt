-- ===== src/Trust/Store/Laws.antt =====
-- Loading, saving, and what a successful operation of the store has done.
use central_core.Prelude.{
  ℕ, ◌≡◌, ◌≢◌, refl, sym, subst, true, false, ◌||◌, not, Option, none, some, [], ◌∷◌, ◌++◌, arith,
  Text, text_eq, text_eq_iff, get, insert, is_empty, ◌==◌,
}
use central_core.Errors.{Error, Result, ok, err, >>=-eq-ok, reject-eq-ok}
use central_core.Trust.Keys.{
  SignatureAlgorithm, TrustedKey, KeyTransition, Crypto, validate_key_file,
  transition_signing_payload, verify_signature, key_transition_version,
}
use central_core.Trust.Store.{
  TrustDocument, TrustEvent, Store, load, save, remove, found, untrusted, unrevoked, trusted_key,
  stored_transition, push_transition, validate_transition, add_key, apply_transition,
  as_invalid_transition,
}

pub load-version : (s : Store) (d : TrustDocument) → load s ≡ ok d → d.format_version ≡ 1
unfolding load
load-version s d h = ground arith

pub load-save :
    (d : TrustDocument) (event : TrustEvent) (s : Store)
    → d.format_version ≡ 1
    → load (save d event s) ≡ ok d
unfolding load save
load-save d event s h = ground arith

load-saved :
    (d : TrustDocument) (event : TrustEvent) (s s' : Store)
    → save d event s ≡ s'
    → d.format_version ≡ 1
    → load s' ≡ ok d
load-saved d event s s' e h = subst (λ u. load u ≡ ok d) e (load-save d event s h)

events-saved :
    (d : TrustDocument) (event : TrustEvent) (s s' : Store)
    → save d event s ≡ s'
    → s'.events ≡ s.events ++ (event ∷ [])
events-saved d event s s' e =
    subst (λ u. u.events ≡ s.events ++ (event ∷ [])) e (unfold save in refl)

found-eq-ok {ℓ} : {A : Type ℓ} (e : Error) (o : Option A) (a : A) → found e o ≡ ok a → o ≡ some a
found-eq-ok e none a h = cc
found-eq-ok e (some b) a h = ground arith

-- What a successful `remove` has done.
pub record Removed (id : Text) (s s' : Store) (key : TrustedKey) : Type 0 where
  pub document : TrustDocument
  pub loaded : load s ≡ ok document
  pub old : TrustedKey
  pub listed : get id document.keys ≡ some old
  pub result : key ≡ record old { revoked = true }
  pub loaded' :
      load s'
      ≡ ok (record document { keys = insert id (record old { revoked = true }) document.keys })
  pub events : s'.events ≡ s.events ++ (TrustEvent.signing_key_removed id ∷ [])

pair-eq-ok :
    {A B : Type 0} (a a' : A) (b b' : B)
    → ◌≡◌ {A = Result (A × B)} (ok (a, b)) (ok (a', b'))
    → (a ≡ a') × (b ≡ b')
pair-eq-ok a a' b b' h = ground arith

pub Removed-remove :
    (id : Text) (s s' : Store) (key : TrustedKey) → remove id s ≡ ok (key, s') → Removed id s s' key
unfolding remove
Removed-remove id s s' key h =
    let (d, loaded, h1) = >>=-eq-ok (load s) _ h in
    let (old, there, h2) = >>=-eq-ok (found (untrusted id) (get id d.keys)) _ h1 in
    let (same_key, same_store) = pair-eq-ok _ _ _ _ h2 in
    record {
      document = d;
      loaded = loaded;
      old = old;
      listed = found-eq-ok _ _ old there;
      result = sym same_key;
      loaded' = load-saved _ _ s s' same_store (load-version s d loaded);
      events = events-saved _ _ s s' same_store;
    }

-- What a successful `add_key` has done.
pub record Added (crypto : Crypto) (now : ℕ) (public_key : Text) (label : Option Text)
    (s s' : Store) (key : TrustedKey) : Type 0 where
  pub document : TrustDocument
  pub loaded : load s ≡ ok document
  pub result :
      key
      ≡ trusted_key (crypto.fingerprint public_key) SignatureAlgorithm.ed25519 public_key label now
  pub loaded' :
      load s'
      ≡ ok (record document {
        keys =
            insert
              (crypto.fingerprint public_key)
              (trusted_key
                (crypto.fingerprint public_key)
                SignatureAlgorithm.ed25519
                public_key
                label
                now)
              document.keys;
      })
  pub events :
      s'.events ≡ s.events ++ (TrustEvent.signing_key_trusted (crypto.fingerprint public_key) ∷ [])

pub Added-add_key :
    (crypto : Crypto) (now : ℕ) (public_key : Text) (label : Option Text) (s s' : Store)
    (key : TrustedKey)
    → add_key crypto now public_key label s ≡ ok (key, s')
    → Added crypto now public_key label s s' key
unfolding add_key
Added-add_key crypto now public_key label s s' key h =
    let (d, loaded, h1) = >>=-eq-ok (load s) _ h in
    let (same_key, same_store) = pair-eq-ok _ _ _ _ h1 in
    record {
      document = d;
      loaded = loaded;
      result = sym same_key;
      loaded' = load-saved _ _ s s' same_store (load-version s d loaded);
      events = events-saved _ _ s s' same_store;
    }

-- A transition that was accepted against a document: signed by a key of the document that is not
-- revoked, to a key whose id is its fingerprint.
pub record IsSigned (crypto : Crypto) (document : TrustDocument) (t : KeyTransition) : Type 0 where
  pub old : TrustedKey
  pub trusted : get t.payload.from_key_id document.keys ≡ some old
  pub unrevoked_old : old.revoked ≡ false
  pub message : Text
  pub canonical : transition_signing_payload crypto t.payload ≡ ok message
  pub signed : verify_signature crypto old.public_key message t.signature ≡ ok tt
  pub target : validate_key_file crypto t.payload.to_key ≡ ok tt
  pub other : t.payload.from_key_id ≢ t.payload.to_key.key_id
  pub scoped : (t.payload.provider_id ≢ []) × (t.payload.valid_from_revision ≢ 0)

unrevoked-eq-some :
    (o : Option TrustedKey) (k : TrustedKey)
    → unrevoked o ≡ some k
    → (o ≡ some k) × (k.revoked ≡ false)
unrevoked-eq-some none k h = cc
unrevoked-eq-some (some j) k h = ground arith

as_invalid_transition-eq-ok : (r : Result (Unit {0})) → as_invalid_transition r ≡ ok tt → r ≡ ok tt
as_invalid_transition-eq-ok (ok u) h = ground arith
as_invalid_transition-eq-ok (err e) h = cc

is_empty-false : (t : Text) → is_empty t ≡ false → t ≢ []
is_empty-false [] h = cc
is_empty-false (c ∷ t) h = cc

pub IsSigned-validate_transition :
    (crypto : Crypto) (document : TrustDocument) (t : KeyTransition)
    → validate_transition crypto document t ≡ ok tt
    → IsSigned crypto document t
unfolding validate_transition
IsSigned-validate_transition crypto document t h =
    let (version, h1) =
      reject-eq-ok (not (t.payload.transition_version == key_transition_version)) _ _ h in
    let (scoped, h2) =
      reject-eq-ok (is_empty t.payload.provider_id || t.payload.valid_from_revision == 0) _ _ h1 in
    let (u, target, h3) = >>=-eq-ok (validate_key_file crypto t.payload.to_key) _ h2 in
    let (other, h4) = reject-eq-ok (text_eq t.payload.from_key_id t.payload.to_key.key_id) _ _ h3 in
    let (old, there, h5) =
      >>=-eq-ok
        (found (untrusted t.payload.from_key_id)
          (unrevoked (get t.payload.from_key_id document.keys)))
        _ h4 in
    let (message, canonical, h6) = >>=-eq-ok (transition_signing_payload crypto t.payload) _ h5 in
    let facts =
      unrevoked-eq-some (get t.payload.from_key_id document.keys) old (found-eq-ok _ _ old there) in
    record {
      old = old;
      trusted = facts.0;
      unrevoked_old = facts.1;
      message = message;
      canonical = canonical;
      signed = as_invalid_transition-eq-ok _ h6;
      target = target;
      other = λ e. ground (arith, text_eq_iff t.payload.from_key_id t.payload.to_key.key_id);
      scoped = (is_empty-false t.payload.provider_id (ground arith), ground arith);
    }

-- What a successful `apply_transition` has done.
pub record Rotated (crypto : Crypto) (now : ℕ) (t : KeyTransition) (s s' : Store) (key : TrustedKey)
    : Type 0 where
  pub document : TrustDocument
  pub loaded : load s ≡ ok document
  pub accepted : IsSigned crypto document t
  pub result :
      key
      ≡ trusted_key t.payload.to_key.key_id t.payload.to_key.algorithm t.payload.to_key.public_key
          t.payload.to_key.label now
  pub loaded' :
      load s'
      ≡ ok (record document {
        keys =
            insert t.payload.to_key.key_id
              (trusted_key t.payload.to_key.key_id t.payload.to_key.algorithm
                t.payload.to_key.public_key t.payload.to_key.label now)
              document.keys;
        transitions = push_transition (stored_transition t.payload) document.transitions;
      })

pub Rotated-apply_transition :
    (crypto : Crypto) (now : ℕ) (t : KeyTransition) (s s' : Store) (key : TrustedKey)
    → apply_transition crypto now t s ≡ ok (key, s')
    → Rotated crypto now t s s' key
unfolding apply_transition
Rotated-apply_transition crypto now t s s' key h =
    let (d, loaded, h1) = >>=-eq-ok (load s) _ h in
    let (u, valid, h2) = >>=-eq-ok (validate_transition crypto d t) _ h1 in
    let (same_key, same_store) = pair-eq-ok _ _ _ _ h2 in
    record {
      document = d;
      loaded = loaded;
      accepted = IsSigned-validate_transition crypto d t valid;
      result = sym same_key;
      loaded' = load-saved _ _ s s' same_store (load-version s d loaded);
    }
