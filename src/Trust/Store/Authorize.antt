-- ===== src/Trust/Store/Authorize.antt =====
-- Which keys `authorize` accepts, and how revocation and rotation change that.
use central_core.Prelude.{
  ℕ, ◌≤◌, ◌≡◌, ◌↔◌, ◌⊎◌, inl, inr, refl, true, false, none, some, List, [], ◌∷◌, arith, any, Any,
  any_iff, Any-of_any, Any-append_right, Text, text_eq_iff, get, get-insert_self, Bool-cases,
}
use central_core.Errors.{ok, err}
use central_core.Trust.Keys.{TrustedKey, KeyTransition, Crypto}
use central_core.Trust.Store.{
  StoredTransition, TrustDocument, Store, load, remove, authorize, authorizes, unrevoked, untrusted,
  apply_transition, push_transition, same_transition, stored_transition,
}
use central_core.Trust.Store.Laws.{Removed-remove, Rotated-apply_transition}

-- A rotation recorded for the provider, from the expected key to the actual one, that covers the
-- revision.
pub record Covers (expected actual provider_id : Text) (revision : ℕ) (t : StoredTransition)
    : Type 0 where
  pub provider : t.provider_id ≡ provider_id
  pub from : t.from_key_id ≡ expected
  pub to : t.to_key_id ≡ actual
  pub revision_from : t.valid_from_revision ≤ revision

authorizes_iff :
    (expected actual provider_id : Text) (revision : ℕ) (t : StoredTransition)
    → (authorizes expected actual provider_id revision t ≡ true)
      ↔ Covers expected actual provider_id revision t
unfolding authorizes
authorizes_iff expected actual provider_id revision t = ground (
  arith,
  text_eq_iff t.provider_id provider_id,
  text_eq_iff t.from_key_id expected,
  text_eq_iff t.to_key_id actual,
)

-- When the store loads, a key is authorised exactly when it is in the store and not revoked, and
-- it is the expected key or a recorded rotation of this provider leads to it from the expected
-- key, from a revision on that the document has reached.
pub authorize_iff :
    (expected actual provider_id : Text) (revision : ℕ) (s : Store) (document : TrustDocument)
    (key : TrustedKey)
    → load s ≡ ok document
    → (authorize expected actual provider_id revision s ≡ ok key) ↔ (
        (get actual document.keys ≡ some key)
        × (key.revoked ≡ false)
        × ((actual ≡ expected)
            ⊎ Any (Covers expected actual provider_id revision) document.transitions))
unfolding authorize
authorize_iff expected actual provider_id revision s document key loaded = ground (
  arith,
  text_eq_iff actual expected,
  any_iff (authorizes expected actual provider_id revision)
      (Covers expected actual provider_id revision)
      (authorizes_iff expected actual provider_id revision) document.transitions,
)

authorize_of_load :
    (expected actual provider_id : Text) (revision : ℕ) (s : Store) (d : TrustDocument)
    → load s ≡ ok d
    → (unrevoked (get actual d.keys) ≡ none)
    → authorize expected actual provider_id revision s ≡ err (untrusted actual)
unfolding authorize
authorize_of_load expected actual provider_id revision s d loaded gone = ground arith

-- After `remove` of a key has succeeded no provider is authorised to use it, whatever key is
-- expected and at any revision.
pub authorize-remove :
    (id : Text) (s s' : Store) (key : TrustedKey)
    → remove id s ≡ ok (key, s')
    → (expected provider_id : Text) (revision : ℕ)
    → authorize expected id provider_id revision s' ≡ err (untrusted id)
authorize-remove id s s' key e expected provider_id revision =
    let r = Removed-remove id s s' key e in
    authorize_of_load expected id provider_id revision s' _ r.loaded' (rw get-insert_self refl)

push_transition-Any :
    (P : StoredTransition → Type 0) (t : StoredTransition) (ts : List StoredTransition)
    → P t
    → ((u : StoredTransition) → same_transition u t ≡ true → P u)
    → Any P (push_transition t ts)
unfolding push_transition
push_transition-Any P t ts h same = elim (Bool-cases (any (λ u. same_transition u t) ts)) [
  | inl there ↦ rw there (Any-of_any (λ u. same_transition u t) P ts same there)
  | inr new ↦ rw new (Any-append_right P ts (t ∷ []) (inl h))
]

same_transition-Covers :
    (expected actual provider_id : Text) (revision : ℕ) (t u : StoredTransition)
    → Covers expected actual provider_id revision t
    → same_transition u t ≡ true
    → Covers expected actual provider_id revision u
unfolding same_transition
same_transition-Covers expected actual provider_id revision t u c e = ground (
  arith,
  text_eq_iff u.provider_id t.provider_id,
  text_eq_iff u.from_key_id t.from_key_id,
  text_eq_iff u.to_key_id t.to_key_id,
)

-- Once a transition is applied, the provider that trusts the old key is authorised to use the new
-- one from the transition's revision on, whatever the store said of the new key before.
pub authorize-apply_transition :
    (crypto : Crypto) (now : ℕ) (t : KeyTransition) (s s' : Store) (key : TrustedKey) (revision : ℕ)
    → apply_transition crypto now t s ≡ ok (key, s')
    → t.payload.valid_from_revision ≤ revision
    → authorize t.payload.from_key_id t.payload.to_key.key_id t.payload.provider_id revision s'
      ≡ ok key
authorize-apply_transition crypto now t s s' key revision e le =
    let r = Rotated-apply_transition crypto now t s s' key e in
    (authorize_iff t.payload.from_key_id t.payload.to_key.key_id t.payload.provider_id revision s' _
        key r.loaded').1
      (
        rw (r.result, get-insert_self) refl,
        rw r.result refl,
        inr (
            push_transition-Any
              (Covers t.payload.from_key_id t.payload.to_key.key_id t.payload.provider_id revision)
              (stored_transition t.payload) r.document.transitions
              (record { provider = refl; from = refl; to = refl; revision_from = le })
              (λ u.
                same_transition-Covers _ _ _ revision (stored_transition t.payload) u
                  (record { provider = refl; from = refl; to = refl; revision_from = le }))),
      )

-- When the store lists a key as revoked, so that no provider may use it, and a transition to that
-- key is applied, then the provider of the transition may use it from the transition's revision
-- on: revocation does not outlast a rotation signed by another trusted key.
pub apply_transition-revives :
    (crypto : Crypto) (now : ℕ) (t : KeyTransition) (s s' : Store) (document : TrustDocument)
    (old key : TrustedKey)
    → load s ≡ ok document
    → get t.payload.to_key.key_id document.keys ≡ some old
    → old.revoked ≡ true
    → apply_transition crypto now t s ≡ ok (key, s')
    → ((expected provider_id : Text) (revision : ℕ)
        → authorize expected t.payload.to_key.key_id provider_id revision s
          ≡ err (untrusted t.payload.to_key.key_id))
      × (authorize t.payload.from_key_id t.payload.to_key.key_id t.payload.provider_id
            t.payload.valid_from_revision s'
          ≡ ok key)
apply_transition-revives crypto now t s s' document old key loaded listed revoked e = (
  (λ expected provider_id revision.
      authorize_of_load expected t.payload.to_key.key_id provider_id revision s document loaded
        (rw listed (rw revoked refl))),
  authorize-apply_transition crypto now t s s' key t.payload.valid_from_revision e (omega arith),
)
