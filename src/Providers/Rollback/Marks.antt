-- ===== src/Providers/Rollback/Marks.antt =====
-- Marks only rise, and cover what was recorded.
use central_core.Prelude.{
  ℕ, ◌≤◌, ◌≡◌, refl, Option, none, some, List, [], ◌∷◌, arith, All, Text, TextMap, text_eq,
  text_eq_iff, get, get-insert, get-insert_self, insert, inl, inr, subst, Bool-cases,
}
use central_core.Errors.{Result, ok, >>=-eq-ok}
use central_core.Providers.Rollback.{
  RevisionHighWater, ProviderHighWater, RollbackDocument, InstanceRevision, SnapshotRevisions,
  raise_mark, record_instances, record_provider, record_revisions, missing_bytes,
}

-- There is a mark, at the revision or above.
abbrev pub AtLeast : ℕ → Option RevisionHighWater → Type 0
AtLeast r none = ⊥
AtLeast r (some m) = r ≤ m.revision

abbrev pub ProviderAtLeast : ℕ → Option ProviderHighWater → Type 0
ProviderAtLeast r none = ⊥
ProviderAtLeast r (some h) = r ≤ h.revision

abbrev pub InstanceAtLeast : Text → ℕ → Option ProviderHighWater → Type 0
InstanceAtLeast i r none = ⊥
InstanceAtLeast i r (some h) = AtLeast r (get i h.instances)

abbrev pub MarksLe : TextMap RevisionHighWater → TextMap RevisionHighWater → Type 0
MarksLe m n = (i : Text) (r : ℕ) → AtLeast r (get i m) → AtLeast r (get i n)

pub record EntryLe (o p : Option ProviderHighWater) : Type 0 where
  pub provider : (r : ℕ) → ProviderAtLeast r o → ProviderAtLeast r p
  pub instances : (i : Text) (r : ℕ) → InstanceAtLeast i r o → InstanceAtLeast i r p

raise_mark-le :
    (i : InstanceRevision) (content : Text) (m : TextMap RevisionHighWater)
    → MarksLe m (raise_mark i content (get i.id m) m)
unfolding raise_mark
raise_mark-le i content m j r h = ground (
  arith,
  get-insert i.id j (record { revision = i.revision; content_sha256 = content }) m,
  text_eq_iff i.id j,
)

raise_mark-covers :
    (i : InstanceRevision) (content : Text) (m : TextMap RevisionHighWater)
    → AtLeast i.revision (get i.id (raise_mark i content (get i.id m) m))
unfolding raise_mark
raise_mark-covers i content m = ground (
  arith,
  get-insert i.id i.id (record { revision = i.revision; content_sha256 = content }) m,
  text_eq_iff i.id i.id,
)

record_instances-le :
    (is : List InstanceRevision) (m n : TextMap RevisionHighWater)
    → record_instances is m ≡ ok n
    → MarksLe m n
unfolding record_instances
record_instances-le [] m n e j r h = ground arith
record_instances-le (i ∷ is) m n e j r h =
    let (content, there, e1) = >>=-eq-ok (missing_bytes i.content_sha256) _ e in
    record_instances-le is _ n e1 j r (raise_mark-le i content m j r h)

record_instances-covers :
    (is : List InstanceRevision) (m n : TextMap RevisionHighWater)
    → record_instances is m ≡ ok n
    → All (λ i. AtLeast i.revision (get i.id n)) is
unfolding record_instances
record_instances-covers [] m n e = tt
record_instances-covers (i ∷ is) m n e =
    let (content, there, e1) = >>=-eq-ok (missing_bytes i.content_sha256) _ e in
    (
      record_instances-le is _ n e1 i.id i.revision (raise_mark-covers i content m),
      record_instances-covers is _ n e1,
    )

record_provider-le :
    (r : ℕ) (snapshot : SnapshotRevisions) (o : Option ProviderHighWater)
    → EntryLe o (some (record_provider r snapshot o))
unfolding record_provider
record_provider-le r snapshot none = record {
  provider = λ q h. absurd h;
  instances = λ i q h. absurd h;
}
record_provider-le r snapshot (some entry) = record {
  provider = λ q h. ground arith;
  instances = λ i q h. ground arith;
}

record_provider-covers :
    (r : ℕ) (snapshot : SnapshotRevisions) (o : Option ProviderHighWater)
    → r ≤ (record_provider r snapshot o).revision
unfolding record_provider
record_provider-covers r snapshot none = omega arith
record_provider-covers r snapshot (some entry) = ground arith

-- What `record_revisions` has done.
pub record Recorded (id : Text) (revision : ℕ) (snapshot : SnapshotRevisions)
    (d d' : RollbackDocument) : Type 0 where
  pub version : d'.format_version ≡ d.format_version
  pub le : (j : Text) → EntryLe (get j d.providers) (get j d'.providers)
  pub provider : ProviderAtLeast revision (get id d'.providers)
  pub instances :
      All (λ i. InstanceAtLeast i.id i.revision (get id d'.providers)) snapshot.instances

EntryLe-refl : (o : Option ProviderHighWater) → EntryLe o o
EntryLe-refl o = record { provider = λ r h. h; instances = λ i r h. h }

pub EntryLe-trans : (o p q : Option ProviderHighWater) → EntryLe o p → EntryLe p q → EntryLe o q
EntryLe-trans o p q a b = record {
  provider = λ r h. b.provider r (a.provider r h);
  instances = λ i r h. b.instances i r (a.instances i r h);
}

EntryLe-instances :
    (entry : ProviderHighWater) (instances : TextMap RevisionHighWater)
    → MarksLe entry.instances instances
    → EntryLe (some entry) (some (record entry { instances = instances }))
EntryLe-instances entry instances h = record { provider = λ r k. k; instances = h }

EntryLe-insert :
    (id j : Text) (new : ProviderHighWater) (m : TextMap ProviderHighWater)
    → EntryLe (get id m) (some new)
    → EntryLe (get j m) (get j (insert id new m))
EntryLe-insert id j new m h = elim (Bool-cases (text_eq id j)) [
  | inl same ↦ rw (get-insert, same, ← (text_eq_iff id j).0 same) h
  | inr other ↦ rw (get-insert, other) (EntryLe-refl (get j m))
]

document-ok : (a b : RollbackDocument) → ◌≡◌ {A = Result RollbackDocument} (ok a) (ok b) → a ≡ b
document-ok a b h = ground arith

pub record_revisions-Recorded :
    (id : Text) (revision : ℕ) (snapshot : SnapshotRevisions) (d d' : RollbackDocument)
    → record_revisions id revision snapshot d ≡ ok d'
    → Recorded id revision snapshot d d'
unfolding record_revisions
record_revisions-Recorded id revision snapshot d d' e =
    let entry = record_provider revision snapshot (get id d.providers) in
    let (instances, recorded, e1) =
      >>=-eq-ok (record_instances snapshot.instances entry.instances) _ e in
    subst (Recorded id revision snapshot d) (document-ok _ d' e1) (record {
      version = refl;
      le = λ j. EntryLe-insert id j _ d.providers (
          EntryLe-trans _ (some entry) _ (record_provider-le revision snapshot (get id d.providers))
            (EntryLe-instances entry instances
              (record_instances-le snapshot.instances entry.instances instances recorded)));
      provider = rw get-insert_self (record_provider-covers revision snapshot (get id d.providers));
      instances =
          rw get-insert_self
            (record_instances-covers snapshot.instances entry.instances instances recorded);
    })
