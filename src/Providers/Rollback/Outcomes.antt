-- ===== src/Providers/Rollback/Outcomes.antt =====
-- What a call does to the document, and what later calls keep of it.
use central_core.Prelude.{
  ℕ, ◌≡◌, ◌⊎◌, inl, inr, refl, ◌∙◌, subst, Bool, Option, none, some, arith, All, Text, get,
}
use central_core.Providers.Storage.{Write, written, not_written, written_but}
use central_core.Errors.{Error, Result, ok, err}
use central_core.Providers.Rollback.{
  ProviderHighWater, RollbackDocument, RollbackState, SnapshotRevisions, Check, passed, failed,
  load_rollback_state, record_revisions, enforce_and_record_revisions, with_document, after_check,
  keep_state, with_revision,
}
use central_core.Providers.Rollback.Marks.{
  ProviderAtLeast, InstanceAtLeast, EntryLe, EntryLe-trans, Recorded, record_revisions-Recorded,
}

-- The state loads to a document whose entry of the provider lies at or above an entry.
pub record LoadsAbove (o : Option ProviderHighWater) (id : Text) (s : RollbackState) : Type 0 where
  pub document : RollbackDocument
  pub loaded : load_rollback_state s ≡ ok document
  pub above : EntryLe o (get id document.providers)

-- One call, whatever comes out of it.
pub data Calls (s : RollbackState) : RollbackState → Type 0 where
  here : Calls s s
  next :
      {t : RollbackState} (write : Write) (id : Text) (snapshot : SnapshotRevisions)
      (allow_rollback : Bool)
      → Calls s t
      → Calls s (enforce_and_record_revisions write id snapshot allow_rollback t).1

load-version :
    (s : RollbackState) (d : RollbackDocument) → load_rollback_state s ≡ ok d → d.format_version ≡ 1
unfolding load_rollback_state
load-version s d h = ground arith

-- A call has recorded the snapshot, or the document is as it was.
pub data Outcome (write : Write) (id : Text) (snapshot : SnapshotRevisions) (s : RollbackState)
    : Result (Unit {0}) × RollbackState → Type 0 where
  recorded :
      (revision : ℕ) (d d' : RollbackDocument) (s' : RollbackState)
      → snapshot.provider_revision ≡ some revision
      → load_rollback_state s ≡ ok d
      → Recorded id revision snapshot d d'
      → load_rollback_state s' ≡ ok d'
      → Outcome write id snapshot s (ok tt, s')
  recorded_but :
      (e : Error) (revision : ℕ) (d d' : RollbackDocument) (s' : RollbackState)
      → write ≡ written_but e
      → snapshot.provider_revision ≡ some revision
      → load_rollback_state s ≡ ok d
      → Recorded id revision snapshot d d'
      → load_rollback_state s' ≡ ok d'
      → Outcome write id snapshot s (err e, s')
  refused :
      (e : Error) (s' : RollbackState)
      → s'.document ≡ s.document
      → Outcome write id snapshot s (err e, s')

Recorded-document :
    (id : Text) (revision : ℕ) (snapshot : SnapshotRevisions) (s : RollbackState)
    (d d' : RollbackDocument)
    → load_rollback_state s ≡ ok d
    → record_revisions id revision snapshot d ≡ ok d'
    → Recorded id revision snapshot d d'
      × (load_rollback_state (record s { document = some d' }) ≡ ok d')
Recorded-document id revision snapshot s d d' loaded done =
    let r = record_revisions-Recorded id revision snapshot d d' done in
    (r, unfold load_rollback_state in ground (arith, r.version, load-version s d loaded))

Outcome-keep :
    (write : Write) (id : Text) (revision : ℕ) (snapshot : SnapshotRevisions) (s : RollbackState)
    (d : RollbackDocument) (r : Result RollbackDocument)
    → snapshot.provider_revision ≡ some revision
    → load_rollback_state s ≡ ok d
    → record_revisions id revision snapshot d ≡ r
    → Outcome write id snapshot s (keep_state write s r)
Outcome-keep write id revision snapshot s d (err e) has loaded done = refused e s refl
Outcome-keep written id revision snapshot s d (ok d') has loaded done =
    let (r, reads) = Recorded-document id revision snapshot s d d' loaded done in
    Outcome.recorded revision d d' (record s { document = some d' }) has loaded r reads
Outcome-keep (not_written e) id revision snapshot s d (ok d') has loaded done = refused e s refl
Outcome-keep (written_but e) id revision snapshot s d (ok d') has loaded done =
    let (r, reads) = Recorded-document id revision snapshot s d d' loaded done in
    Outcome.recorded_but e revision d d' (record s { document = some d' }) refl has loaded r reads

Outcome-after_check :
    (write : Write) (id : Text) (revision : ℕ) (snapshot : SnapshotRevisions) (s : RollbackState)
    (d : RollbackDocument) (c : Check)
    → snapshot.provider_revision ≡ some revision
    → load_rollback_state s ≡ ok d
    → Outcome write id snapshot s (after_check write id revision snapshot s d c)
unfolding load_rollback_state
Outcome-after_check write id revision snapshot s d (failed event e) has loaded = refused e _ refl
Outcome-after_check write id revision snapshot s d passed has loaded =
    Outcome-keep write id revision snapshot s d _ has loaded refl

Outcome-with_document :
    (write : Write) (id : Text) (revision : ℕ) (snapshot : SnapshotRevisions)
    (allow_rollback : Bool) (s : RollbackState) (r : Result RollbackDocument)
    → snapshot.provider_revision ≡ some revision
    → load_rollback_state s ≡ r
    → Outcome write id snapshot s (with_document write id revision snapshot allow_rollback s r)
Outcome-with_document write id revision snapshot allow_rollback s (err e) has loaded =
    refused e s refl
Outcome-with_document write id revision snapshot allow_rollback s (ok d) has loaded =
    Outcome-after_check write id revision snapshot s d _ has loaded

Outcome-with_revision :
    (write : Write) (id : Text) (snapshot : SnapshotRevisions) (allow_rollback : Bool)
    (s : RollbackState) (o : Option ℕ)
    → snapshot.provider_revision ≡ o
    → Outcome write id snapshot s (with_revision write id snapshot allow_rollback s o)
Outcome-with_revision write id snapshot allow_rollback s none has = refused _ s refl
Outcome-with_revision write id snapshot allow_rollback s (some revision) has =
    Outcome-with_document write id revision snapshot allow_rollback s _ has refl

pub Outcome-enforce :
    (write : Write) (id : Text) (snapshot : SnapshotRevisions) (allow_rollback : Bool)
    (s : RollbackState)
    → Outcome write id snapshot s (enforce_and_record_revisions write id snapshot allow_rollback s)
unfolding enforce_and_record_revisions
Outcome-enforce write id snapshot allow_rollback s =
    Outcome-with_revision write id snapshot allow_rollback s _ refl

-- What an accepted snapshot leaves behind.
pub record Accepted (id : Text) (snapshot : SnapshotRevisions) (s' : RollbackState) : Type 0 where
  pub revision : ℕ
  pub has : snapshot.provider_revision ≡ some revision
  pub document : RollbackDocument
  pub loaded : load_rollback_state s' ≡ ok document
  pub provider : ProviderAtLeast revision (get id document.providers)
  pub instances :
      All (λ i. InstanceAtLeast i.id i.revision (get id document.providers)) snapshot.instances

pub Accepted-Outcome :
    (write : Write) (id : Text) (snapshot : SnapshotRevisions) (s : RollbackState)
    (out : Result (Unit {0}) × RollbackState)
    → Outcome write id snapshot s out
    → out.0 ≡ ok tt
    → Accepted id snapshot out.1
Accepted-Outcome write id snapshot s _ (recorded revision d d' s' has loaded r loaded') e = record {
  revision = revision;
  has = has;
  document = d';
  loaded = loaded';
  provider = r.provider;
  instances = r.instances;
}
Accepted-Outcome write id snapshot s _ (recorded_but x revision d d' s' w has loaded r loaded') e =
    cc
Accepted-Outcome write id snapshot s _ (refused x s' same) e = cc

document-ok : (a b : RollbackDocument) → ◌≡◌ {A = Result RollbackDocument} (ok a) (ok b) → a ≡ b
document-ok a b h = ground arith

same_document :
    (s s' : RollbackState)
    → s'.document ≡ s.document
    → load_rollback_state s' ≡ load_rollback_state s
unfolding load_rollback_state
same_document s s' same = rw same refl

LoadsAbove-Recorded :
    (o : Option ProviderHighWater) (j id : Text) (revision : ℕ) (snapshot : SnapshotRevisions)
    (s s' : RollbackState) (d d' : RollbackDocument)
    → LoadsAbove o j s
    → load_rollback_state s ≡ ok d
    → Recorded id revision snapshot d d'
    → load_rollback_state s' ≡ ok d'
    → LoadsAbove o j s'
LoadsAbove-Recorded o j id revision snapshot s s' d d' a loaded r loaded' =
    let same = document-ok a.document d (cc (a.loaded, loaded)) in
    record {
      document = d';
      loaded = loaded';
      above =
          EntryLe-trans _ _ _ (subst (λ x. EntryLe o (get j x.providers)) same a.above) (r.le j);
    }

LoadsAbove-Outcome :
    (o : Option ProviderHighWater) (write : Write) (j id : Text) (snapshot : SnapshotRevisions)
    (s : RollbackState) (out : Result (Unit {0}) × RollbackState)
    → LoadsAbove o j s
    → Outcome write id snapshot s out
    → LoadsAbove o j out.1
LoadsAbove-Outcome o write j id snapshot s _ a (recorded revision d d' s' has loaded r loaded') =
    LoadsAbove-Recorded o j id revision snapshot s s' d d' a loaded r loaded'
LoadsAbove-Outcome o write j id snapshot s _ a
      (recorded_but e revision d d' s' w has loaded r loaded') =
    LoadsAbove-Recorded o j id revision snapshot s s' d d' a loaded r loaded'
LoadsAbove-Outcome o write j id snapshot s _ a (refused e s' same) = record {
  document = a.document;
  loaded = same_document s s' same ∙ a.loaded;
  above = a.above;
}

pub Calls-LoadsAbove :
    (o : Option ProviderHighWater) (j : Text) (s : RollbackState) {t : RollbackState}
    → LoadsAbove o j s
    → Calls s t
    → LoadsAbove o j t
Calls-LoadsAbove o j s a here = a
Calls-LoadsAbove o j s a (next {t} write id snapshot allow_rollback calls) =
    LoadsAbove-Outcome o write j id snapshot t _ (Calls-LoadsAbove o j s a calls)
      (Outcome-enforce write id snapshot allow_rollback t)

-- The new document was committed before the write failed: it has the accepted revisions, and no mark
-- is lower than before.
pub record Committed (write : Write) (e : Error) (id : Text) (snapshot : SnapshotRevisions)
    (s s' : RollbackState) : Type 0 where
  pub write_failed : write ≡ written_but e
  pub before : RollbackDocument
  pub loaded : load_rollback_state s ≡ ok before
  pub accepted : Accepted id snapshot s'
  pub le : (j : Text) → EntryLe (get j before.providers) (get j accepted.document.providers)

Committed-Outcome :
    (write : Write) (id : Text) (snapshot : SnapshotRevisions) (s : RollbackState)
    (out : Result (Unit {0}) × RollbackState) (e : Error)
    → Outcome write id snapshot s out
    → out.0 ≡ err e
    → (out.1.document ≡ s.document) ⊎ Committed write e id snapshot s out.1
Committed-Outcome write id snapshot s _ e (recorded revision d d' s' has loaded r loaded') h = cc
Committed-Outcome write id snapshot s _ e (recorded_but x revision d d' s' w has loaded r loaded')
      h =
    inr (record {
      write_failed = cc (w, h);
      before = d;
      loaded = loaded;
      accepted = record {
        revision = revision;
        has = has;
        document = d';
        loaded = loaded';
        provider = r.provider;
        instances = r.instances;
      };
      le = r.le;
    })
Committed-Outcome write id snapshot s _ e (refused x s' same) h = inl same

-- A call that fails leaves the document on disk as it was, with one exception: where the write fails
-- after the new document is committed, the snapshot is recorded as if it were accepted, and no mark
-- is lower than before.
pub enforce_and_record_revisions-eq-err :
    (write : Write) (id : Text) (snapshot : SnapshotRevisions) (allow_rollback : Bool)
    (s : RollbackState) (e : Error)
    → (enforce_and_record_revisions write id snapshot allow_rollback s).0 ≡ err e
    → ((enforce_and_record_revisions write id snapshot allow_rollback s).1.document ≡ s.document)
      ⊎ Committed write e id snapshot s
          (enforce_and_record_revisions write id snapshot allow_rollback s).1
enforce_and_record_revisions-eq-err write id snapshot allow_rollback s e h =
    Committed-Outcome write id snapshot s _ e (Outcome-enforce write id snapshot allow_rollback s) h
