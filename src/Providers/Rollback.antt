-- ===== src/Providers/Rollback.antt =====
-- providers/service.rs, `enforce_and_record_revisions` and `load_rollback_state`: the high-water
-- marks of the revisions that were accepted. The state is rollback.json, if there is one, and the
-- events emitted. What becomes of the write of the new document at the end is an argument; a failure to
-- read the file is not modelled.
pub mod Laws
mod Marks
mod Outcomes
mod Tests
use central_core.Prelude.{
  ℕ, ◌&&◌, Bool, not, Option, none, some, List, [], ◌∷◌, ◌++◌, Text, TextMap, text_eq, get, insert,
  ltb, ◌==◌, if◌then◌else◌,
}
use central_core.Providers.Storage.{Write, outcome_of}
use central_core.Errors.{Error, ProviderError, TrustError, Result, ok, err, ◌>>=◌, ◌>>◌, reject}

pub record RevisionHighWater : Type 0 where
  pub revision : ℕ
  pub content_sha256 : Text

pub record ProviderHighWater : Type 0 where
  pub revision : ℕ
  pub content_sha256 : Text
  pub instances : TextMap RevisionHighWater

pub record RollbackDocument : Type 0 where
  pub format_version : ℕ
  pub providers : TextMap ProviderHighWater

-- What the function reads of a `ProviderSnapshot`: for each instance, the revision of its definition
-- and the hash of its cached manifest, if that is there.
pub record InstanceRevision : Type 0 where
  pub id : Text
  pub revision : ℕ
  pub content_sha256 : Option Text

pub record SnapshotRevisions : Type 0 where
  pub provider_revision : Option ℕ
  pub content_sha256 : Text
  pub instances : List InstanceRevision

-- The event `ProviderRollbackRejected`.
pub record RollbackRejected : Type 0 where
  pub provider_id : Text
  pub received : ℕ
  pub highest : ℕ

pub record RollbackState : Type 0 where
  pub document : Option RollbackDocument
  pub events : List RollbackRejected

abbrev pub rollback_format_version : ℕ
rollback_format_version = 1

abbrev checked_document : Option RollbackDocument → Result RollbackDocument
checked_document none = ok (record { format_version = rollback_format_version; providers = [] })
checked_document (some document) = do
  reject (not (document.format_version == rollback_format_version))
      (Error.unsupported_format "provider rollback state" document.format_version)
  ok document

unfoldable pub load_rollback_state : RollbackState → Result RollbackDocument
load_rollback_state s = checked_document s.document

-- A check that has failed, with the event that it emits before.
pub data Check : Type 0 where
  passed : Check
  failed : Option RollbackRejected → Error → Check

abbrev pub and_then : Check → Check → Check
and_then passed c = c
and_then (failed event e) c = failed event e

abbrev pub fail_if : Bool → Option RollbackRejected → Error → Check
fail_if t event e = if t then failed event e else passed

abbrev pub rollback : Text → Text → ℕ → ℕ → Bool → Check
rollback id subject received highest allow_rollback =
    fail_if (ltb received highest && not allow_rollback)
      (some (record { provider_id = id; received = received; highest = highest }))
      (Error.trust (TrustError.manifest_rollback_detected subject received highest))

abbrev pub same_content : ℕ → Text → ℕ → Text → Bool → Check
same_content revision content highest highest_content allow_rollback =
    fail_if (revision == highest && not (text_eq content highest_content) && not allow_rollback)
      none (Error.trust TrustError.signature_invalid)

abbrev pub or_default : Option Text → Text
or_default none = []
or_default (some t) = t

unfoldable pub check_instance : Text → Bool → InstanceRevision → Option RevisionHighWater → Check
check_instance id allow_rollback i none = passed
check_instance id allow_rollback i (some highest) =
    and_then (rollback id (id ++ (0x3a ∷ i.id)) i.revision highest.revision allow_rollback) (
      same_content i.revision (or_default i.content_sha256) highest.revision highest.content_sha256
        allow_rollback)

unfoldable pub check_instances :
    Text → Bool → List InstanceRevision → TextMap RevisionHighWater → Check
unfolding check_instance
check_instances id allow_rollback [] marks = passed
check_instances id allow_rollback (i ∷ is) marks =
    and_then (check_instance id allow_rollback i (get i.id marks))
      (check_instances id allow_rollback is marks)

-- `if let Some(highest) = document.providers.get(id)`
unfoldable pub check_provider :
    Text → ℕ → SnapshotRevisions → Bool → Option ProviderHighWater → Check
unfolding check_instances
check_provider id revision snapshot allow_rollback none = passed
check_provider id revision snapshot allow_rollback (some highest) =
    and_then (rollback id id revision highest.revision allow_rollback) (
      and_then
        (same_content revision snapshot.content_sha256 highest.revision highest.content_sha256
          allow_rollback)
        (check_instances id allow_rollback snapshot.instances highest.instances))

-- `entry(id).or_insert_with` and the update of the entry's own revision
unfoldable pub record_provider :
    ℕ → SnapshotRevisions → Option ProviderHighWater → ProviderHighWater
record_provider revision snapshot none = record {
  revision = revision;
  content_sha256 = snapshot.content_sha256;
  instances = [];
}
record_provider revision snapshot (some entry) =
    if ltb entry.revision revision
    then record entry { revision = revision; content_sha256 = snapshot.content_sha256 }
    else entry

-- `match entry.instances.get_mut(instance_id)`
unfoldable pub raise_mark :
    InstanceRevision
    → Text
    → Option RevisionHighWater
    → TextMap RevisionHighWater
    → TextMap RevisionHighWater
raise_mark i content none marks =
    insert i.id (record { revision = i.revision; content_sha256 = content }) marks
raise_mark i content (some highest) marks =
    if ltb highest.revision i.revision
    then insert i.id (record { revision = i.revision; content_sha256 = content }) marks
    else marks

abbrev missing_bytes : Option Text → Result Text
missing_bytes none = err (Error.static_provider ProviderError.invalid_manifest)
missing_bytes (some content) = ok content

unfoldable pub record_instances :
    List InstanceRevision → TextMap RevisionHighWater → Result (TextMap RevisionHighWater)
unfolding raise_mark
record_instances [] marks = ok marks
record_instances (i ∷ is) marks = do
  content ← missing_bytes i.content_sha256
  record_instances is (raise_mark i content (get i.id marks) marks)

-- The outcome with the state after it: a refusal keeps the file, but may have emitted an event.
abbrev pub keep_state :
    Write → RollbackState → Result RollbackDocument → Result (Unit {0}) × RollbackState
keep_state write s (err e) = (err e, s)
keep_state write s (ok document) = outcome_of write s (record s { document = some document })

abbrev emitted : Option RollbackRejected → List RollbackRejected
emitted none = []
emitted (some event) = event ∷ []

unfoldable pub record_revisions :
    Text → ℕ → SnapshotRevisions → RollbackDocument → Result RollbackDocument
unfolding record_provider record_instances
record_revisions id revision snapshot document =
    let entry = record_provider revision snapshot (get id document.providers) in
    do
      instances ← record_instances snapshot.instances entry.instances
      ok (record document {
        providers = insert id (record entry { instances = instances }) document.providers;
      })

abbrev pub after_check :
    Write
    → Text
    → ℕ
    → SnapshotRevisions
    → RollbackState
    → RollbackDocument
    → Check
    → Result (Unit {0}) × RollbackState
after_check write id revision snapshot s document (failed event e) =
    (err e, record s { events = s.events ++ emitted event })
after_check write id revision snapshot s document passed =
    keep_state write s (record_revisions id revision snapshot document)

abbrev pub with_document :
    Write
    → Text
    → ℕ
    → SnapshotRevisions
    → Bool
    → RollbackState
    → Result RollbackDocument
    → Result (Unit {0}) × RollbackState
with_document write id revision snapshot allow_rollback s (err e) = (err e, s)
with_document write id revision snapshot allow_rollback s (ok document) =
    after_check write id revision snapshot s document
      (check_provider id revision snapshot allow_rollback (get id document.providers))

abbrev pub with_revision :
    Write
    → Text
    → SnapshotRevisions
    → Bool
    → RollbackState
    → Option ℕ
    → Result (Unit {0}) × RollbackState
with_revision write id snapshot allow_rollback s none =
    (err (Error.static_provider ProviderError.invalid_manifest), s)
with_revision write id snapshot allow_rollback s (some revision) =
    with_document write id revision snapshot allow_rollback s (load_rollback_state s)

unfoldable pub enforce_and_record_revisions :
    Write → Text → SnapshotRevisions → Bool → RollbackState → Result (Unit {0}) × RollbackState
unfolding load_rollback_state check_provider record_revisions
enforce_and_record_revisions write id snapshot allow_rollback s =
    with_revision write id snapshot allow_rollback s snapshot.provider_revision
