-- ===== src/Providers/Rollback/Laws.antt =====
-- A revision below one that was accepted is refused from then on, whatever happened in between.
use central_core.Prelude.{
  ℕ, ◌≤◌, ◌<◌, ◌≡◌, inl, inr, refl, subst, Bool, false, Option, none, some, List, [], ◌∷◌, ◌++◌,
  arith, All, Any, Text, TextMap, get,
}
use central_core.Providers.Storage.{Write}
use central_core.Errors.{Error, TrustError, ok, err}
use central_core.Providers.Rollback.{
  RevisionHighWater, ProviderHighWater, RollbackDocument, RollbackState, InstanceRevision,
  SnapshotRevisions, Check, passed, failed, check_instance, check_instances, check_provider,
  load_rollback_state, and_then, rollback, same_content, enforce_and_record_revisions,
  with_document, after_check, with_revision,
}
use central_core.Providers.Rollback.Marks.{AtLeast, ProviderAtLeast, InstanceAtLeast}
use central_core.Providers.Rollback.Outcomes.{
  LoadsAbove, Calls, Accepted, Accepted-Outcome, Outcome-enforce, Calls-LoadsAbove,
}

-- The error of a check that fails.
abbrev error_of : Check → Option Error
error_of passed = none
error_of (failed event e) = some e

error-after_check :
    (write : Write) (id : Text) (revision : ℕ) (snapshot : SnapshotRevisions) (s : RollbackState)
    (d : RollbackDocument) (c : Check) (e : Error)
    → error_of c ≡ some e
    → (after_check write id revision snapshot s d c).0 ≡ err e
error-after_check write id revision snapshot s d passed e h = cc
error-after_check write id revision snapshot s d (failed event x) e h = ground arith

-- A call fails with the error of its check.
error-enforce :
    (write : Write) (id : Text) (q : ℕ) (snapshot : SnapshotRevisions) (s : RollbackState)
    (d : RollbackDocument) (e : Error)
    → snapshot.provider_revision ≡ some q
    → load_rollback_state s ≡ ok d
    → error_of (check_provider id q snapshot false (get id d.providers)) ≡ some e
    → (enforce_and_record_revisions write id snapshot false s).0 ≡ err e
unfolding enforce_and_record_revisions
error-enforce write id q snapshot s d e has loaded h =
    rw (has, with_revision, loaded, with_document) (error-after_check write id q snapshot s d _ e h)

check_provider-below :
    (id : Text) (r q : ℕ) (snapshot : SnapshotRevisions) (o : Option ProviderHighWater)
    → ProviderAtLeast r o
    → q < r
    → (highest : ℕ) × (r ≤ highest)
      × (error_of (check_provider id q snapshot false o)
          ≡ some (Error.trust (TrustError.manifest_rollback_detected id q highest)))
unfolding check_provider
check_provider-below id r q snapshot none h lt = absurd h
check_provider-below id r q snapshot (some entry) h lt = (entry.revision, h, ground arith)

-- Among the instances there is one below its mark.
abbrev pub IsBelow : Text → ℕ → InstanceRevision → Type 0
IsBelow j r i = (i.id ≡ j) × (i.revision < r)

check_instance-below :
    (id : Text) (r : ℕ) (i : InstanceRevision) (o : Option RevisionHighWater)
    → AtLeast r o
    → i.revision < r
    → (e : Error) × (error_of (check_instance id false i o) ≡ some e)
unfolding check_instance
check_instance-below id r i none h lt = absurd h
check_instance-below id r i (some m) h lt = (
  Error.trust (TrustError.manifest_rollback_detected (id ++ (0x3a ∷ i.id)) i.revision m.revision),
  ground arith,
)

error-and_then :
    (c k : Check)
    → (e : Error) × (error_of k ≡ some e)
    → (e : Error) × (error_of (and_then c k) ≡ some e)
error-and_then passed k h = h
error-and_then (failed event e) k h = (e, refl)

error-and_then_left :
    (c k : Check)
    → (e : Error) × (error_of c ≡ some e)
    → (e : Error) × (error_of (and_then c k) ≡ some e)
error-and_then_left passed k h = absurd (cc (h.1))
error-and_then_left (failed event e) k h = (e, refl)

check_instances-below :
    (id j : Text) (r : ℕ) (is : List InstanceRevision) (marks : TextMap RevisionHighWater)
    → AtLeast r (get j marks)
    → Any (IsBelow j r) is
    → (e : Error) × (error_of (check_instances id false is marks) ≡ some e)
unfolding check_instances
check_instances-below id j r [] marks h k = absurd k
check_instances-below id j r (i ∷ is) marks h (inl below) =
    error-and_then_left _ _ (check_instance-below id r i (get i.id marks) (rw below.0 h) below.1)
check_instances-below id j r (i ∷ is) marks h (inr k) =
    error-and_then _ _ (check_instances-below id j r is marks h k)

check_provider-below_instance :
    (id j : Text) (r q : ℕ) (snapshot : SnapshotRevisions) (o : Option ProviderHighWater)
    → InstanceAtLeast j r o
    → Any (IsBelow j r) snapshot.instances
    → (e : Error) × (error_of (check_provider id q snapshot false o) ≡ some e)
unfolding check_provider
check_provider-below_instance id j r q snapshot none h k = absurd h
check_provider-below_instance id j r q snapshot (some entry) h k =
    error-and_then (rollback id id q entry.revision false) _ (
      error-and_then
        (same_content q snapshot.content_sha256 entry.revision entry.content_sha256 false)
        (check_instances id false snapshot.instances entry.instances)
        (check_instances-below id j r snapshot.instances entry.instances h k))

-- What an accepted snapshot left behind still binds after any calls.
later_marks :
    (write : Write) (id : Text) (accepted : SnapshotRevisions) (allow_rollback : Bool)
    (s : RollbackState) {t : RollbackState}
    → (enforce_and_record_revisions write id accepted allow_rollback s).0 ≡ ok tt
    → Calls (enforce_and_record_revisions write id accepted allow_rollback s).1 t
    → (a : Accepted id accepted (enforce_and_record_revisions write id accepted allow_rollback s).1)
      × LoadsAbove (get id a.document.providers) id t
later_marks write id accepted allow_rollback s e calls =
    let a =
      Accepted-Outcome write id accepted s _ (Outcome-enforce write id accepted allow_rollback s)
        e in
    (
      a,
      Calls-LoadsAbove _ id _
          (record {
            document = a.document;
            loaded = a.loaded;
            above = record { provider = λ r h. h; instances = λ i r h. h };
          })
          calls,
    )

All_pick :
    (o : Option ProviderHighWater) (j : Text) (r : ℕ) (is : List InstanceRevision)
    → All (λ i. InstanceAtLeast i.id i.revision o) is
    → Any (λ i. (i.id ≡ j) × (i.revision ≡ r)) is
    → InstanceAtLeast j r o
All_pick o j r [] h k = absurd k
All_pick o j r (i ∷ is) h (inl same) =
    subst (λ n. InstanceAtLeast j n o) same.1
      (subst (λ k. InstanceAtLeast k i.revision o) same.0 h.0)
All_pick o j r (i ∷ is) h (inr k) = All_pick o j r is h.1 k

-- After a snapshot of a provider was accepted, and whatever calls were made since, a snapshot of
-- that provider with a lower revision is refused as a rollback, unless rollback is allowed; the
-- error names a highest revision that is no lower than the accepted one.
pub enforce_and_record_revisions-no_rollback :
    (write later_write : Write) (id : Text) (accepted later : SnapshotRevisions)
    (allow_rollback : Bool) (s t : RollbackState) (r q : ℕ)
    → (enforce_and_record_revisions write id accepted allow_rollback s).0 ≡ ok tt
    → accepted.provider_revision ≡ some r
    → Calls (enforce_and_record_revisions write id accepted allow_rollback s).1 t
    → later.provider_revision ≡ some q
    → q < r
    → (highest : ℕ) × (r ≤ highest)
      × ((enforce_and_record_revisions later_write id later false t).0
          ≡ err (Error.trust (TrustError.manifest_rollback_detected id q highest)))
enforce_and_record_revisions-no_rollback write later_write id accepted later allow_rollback s t r q
      e has calls has' lt =
    let (a, later_state) = later_marks write id accepted allow_rollback s e calls in
    let same : a.revision ≡ r = ground (arith, a.has) in
    let (highest, le, failing) =
      check_provider-below id r q later _
        (later_state.above.provider r
          (subst (λ n. ProviderAtLeast n (get id a.document.providers)) same a.provider))
        lt in
    (
      highest,
      le,
      error-enforce later_write id q later t later_state.document _ has' later_state.loaded failing,
    )

-- After a snapshot of a provider was accepted, and whatever calls were made since, a snapshot of
-- that provider that has a revision of its own, and in which an instance has a lower revision
-- than in the accepted one, is refused with an error, unless rollback is allowed.
pub enforce_and_record_revisions-no_instance_rollback :
    (write later_write : Write) (id j : Text) (accepted later : SnapshotRevisions)
    (allow_rollback : Bool) (s t : RollbackState) (r q : ℕ)
    → (enforce_and_record_revisions write id accepted allow_rollback s).0 ≡ ok tt
    → Any (λ i. (i.id ≡ j) × (i.revision ≡ r)) accepted.instances
    → Calls (enforce_and_record_revisions write id accepted allow_rollback s).1 t
    → later.provider_revision ≡ some q
    → Any (IsBelow j r) later.instances
    → (e : Error) × ((enforce_and_record_revisions later_write id later false t).0 ≡ err e)
enforce_and_record_revisions-no_instance_rollback write later_write id j accepted later
      allow_rollback s t r q e has calls has' below =
    let (a, later_state) = later_marks write id accepted allow_rollback s e calls in
    let mark = All_pick _ j r accepted.instances a.instances has in
    let (x, failing) =
      check_provider-below_instance id j r q later _ (later_state.above.instances j r mark) below in
    (
      x,
      error-enforce later_write id q later t later_state.document x has' later_state.loaded failing,
    )
