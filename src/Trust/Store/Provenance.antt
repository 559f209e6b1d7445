-- ===== src/Trust/Store/Provenance.antt =====
-- The chain of trust: whatever operations built the store, an authorised key is the expected one
-- or was introduced by a signature of the expected one.
use central_core.Prelude.{
  ℕ, ◌≡◌, ◌⊎◌, inl, inr, refl, sym, ◌∙◌, subst, Option, some, List, [], ◌∷◌, arith, All, All-append,
  Any, All-Any, any, Text, text_eq_iff, get, get-insert, insert, Bool-cases,
}
use central_core.Errors.{Result, ok}
use central_core.Trust.Keys.{
  PublicKeyFile, TrustedKey, KeyTransitionPayload, KeyTransition, Crypto, validate_key_file,
  transition_signing_payload, verify_signature,
}
use central_core.Trust.Store.{
  StoredTransition, TrustDocument, Store, empty_store, default_document, load, remove, authorize,
  stored_transition, push_transition, same_transition, add_key, apply_transition,
}
use central_core.Trust.Store.Laws.{Removed-remove, Added-add_key, Rotated-apply_transition}
use central_core.Trust.Store.Authorize.{Covers, authorize_iff}

module _ (crypto : Crypto) where
  -- A signature over the stored transition's payload, by the key whose fingerprint it names.
  pub record IsProven (t : StoredTransition) : Type 0 where
    pub payload : KeyTransitionPayload
    pub stored : stored_transition payload ≡ t
    pub public_key : Text
    pub signer : crypto.fingerprint public_key ≡ t.from_key_id
    pub message : Text
    pub canonical : transition_signing_payload crypto payload ≡ ok message
    pub signature : Text
    pub signed : verify_signature crypto public_key message signature ≡ ok tt

  pub record IsTrusty (d : TrustDocument) : Type 0 where
    pub fingerprints :
        (id : Text) (key : TrustedKey)
        → get id d.keys ≡ some key
        → crypto.fingerprint key.public_key ≡ id
    pub proven : All IsProven d.transitions

  -- One operation of the store.
  pub data Step : Store → Store → Type 0 where
    add :
        (s s' : Store) (now : ℕ) (public_key : Text) (label : Option Text) (key : TrustedKey)
        → add_key crypto now public_key label s ≡ ok (key, s')
        → Step s s'
    revoke : (s s' : Store) (id : Text) (key : TrustedKey) → remove id s ≡ ok (key, s') → Step s s'
    rotate :
        (s s' : Store) (now : ℕ) (t : KeyTransition) (key : TrustedKey)
        → apply_transition crypto now t s ≡ ok (key, s')
        → Step s s'

  pub data Reach (s : Store) : Store → Type 0 where
    here : Reach s s
    next : {t u : Store} → Reach s t → Step t u → Reach s u

  -- The store loads to a document in which every key has its fingerprint for its id and every
  -- transition is signed.
  abbrev pub Trusty : Store → Type 0
  Trusty s = (d : TrustDocument) → load s ≡ ok d → IsTrusty d

  ok-injective : (a b : TrustDocument) → ◌≡◌ {A = Result TrustDocument} (ok a) (ok b) → a ≡ b
  ok-injective a b h = ground arith

  same_document : (s : Store) (a b : TrustDocument) → load s ≡ ok a → load s ≡ ok b → a ≡ b
  same_document s a b p q = ok-injective a b (sym p ∙ q)

  fingerprints-insert :
      (d : TrustDocument) (id : Text) (new : TrustedKey)
      → ((j : Text) (key : TrustedKey)
          → get j d.keys ≡ some key
          → crypto.fingerprint key.public_key ≡ j)
      → crypto.fingerprint new.public_key ≡ id
      → (j : Text) (key : TrustedKey) → get j (insert id new d.keys) ≡ some key
      → crypto.fingerprint key.public_key ≡ j
  fingerprints-insert d id new h e j key found =
      ground (arith, get-insert id j new d.keys, text_eq_iff id j, h j key)

  target-fingerprint :
      (file : PublicKeyFile)
      → validate_key_file crypto file ≡ ok tt
      → crypto.fingerprint file.public_key ≡ file.key_id
  unfolding validate_key_file
  target-fingerprint file h =
      ground (arith, text_eq_iff file.key_id (crypto.fingerprint file.public_key))

  All-push_transition :
      (P : StoredTransition → Type 0) (t : StoredTransition) (ts : List StoredTransition)
      → All P ts
      → P t
      → All P (push_transition t ts)
  unfolding push_transition
  All-push_transition P t ts h p = elim (Bool-cases (any (λ u. same_transition u t) ts)) [
    | inl there ↦ rw there h
    | inr new ↦ rw new (All-append P ts (t ∷ []) h (p, tt))
  ]

  Step-Trusty : {s s' : Store} → Step s s' → Trusty s → Trusty s'
  Step-Trusty (add s s' now public_key label key e) h d loaded =
      let a = Added-add_key crypto now public_key label s s' key e in
      let before = h a.document a.loaded in
      subst IsTrusty (same_document s' _ d a.loaded' loaded) (record {
        fingerprints =
            fingerprints-insert a.document (crypto.fingerprint public_key) _ before.fingerprints
              refl;
        proven = before.proven;
      })
  Step-Trusty (revoke s s' id key e) h d loaded =
      let r = Removed-remove id s s' key e in
      let before = h r.document r.loaded in
      subst IsTrusty (same_document s' _ d r.loaded' loaded) (record {
        fingerprints =
            fingerprints-insert r.document id _ before.fingerprints
              (before.fingerprints id r.old r.listed);
        proven = before.proven;
      })
  Step-Trusty (rotate s s' now t key e) h d loaded =
      let r = Rotated-apply_transition crypto now t s s' key e in
      let before = h r.document r.loaded in
      subst IsTrusty (same_document s' _ d r.loaded' loaded) (record {
        fingerprints =
            fingerprints-insert r.document t.payload.to_key.key_id _ before.fingerprints
              (target-fingerprint t.payload.to_key r.accepted.target);
        proven =
            All-push_transition IsProven (stored_transition t.payload) r.document.transitions
              before.proven
              (record {
                payload = t.payload;
                stored = refl;
                public_key = r.accepted.old.public_key;
                signer =
                    before.fingerprints t.payload.from_key_id r.accepted.old r.accepted.trusted;
                message = r.accepted.message;
                canonical = r.accepted.canonical;
                signature = t.signature;
                signed = r.accepted.signed;
              });
      })

  Reach-Trusty : {s s' : Store} → Trusty s → Reach s s' → Trusty s'
  Reach-Trusty h here = h
  Reach-Trusty h (next r st) = Step-Trusty st (Reach-Trusty h r)

  Trusty-empty : Trusty empty_store
  unfolding load get
  Trusty-empty d loaded =
      subst IsTrusty (ok-injective default_document d loaded)
        (record { fingerprints = λ id key h. absurd (cc); proven = tt })

  -- In every store that operations build from nothing, an authorised key has the actual id for its
  -- fingerprint, and either that is the expected id or a transition to it, for this provider and
  -- from no later than this revision on, is signed by a key whose fingerprint is the expected id.
  pub authorize-IsProven :
      (s : Store) (expected actual provider_id : Text) (revision : ℕ) (document : TrustDocument)
      (key : TrustedKey)
      → Reach empty_store s
      → load s ≡ ok document
      → authorize expected actual provider_id revision s ≡ ok key
      → (crypto.fingerprint key.public_key ≡ actual)
        × ((actual ≡ expected)
            ⊎ Any
                (λ t. Covers expected actual provider_id revision t × IsProven t)
                document.transitions)
  authorize-IsProven s expected actual provider_id revision document key reach loaded e =
      let trusty = Reach-Trusty Trusty-empty reach document loaded in
      let (listed, fresh, way) =
        (authorize_iff expected actual provider_id revision s document key loaded).0 e in
      (
        trusty.fingerprints actual key listed,
        elim way [
          | inl same ↦ inl same
          | inr rotation ↦ inr (
              All-Any IsProven (Covers expected actual provider_id revision) _ document.transitions
                (λ t p c. (c, p)) trusty.proven rotation)
        ],
      )
