-- ===== src/Providers/Rollback/Tests.antt =====
-- A provider whose index goes from revision 3 to 5, and is then replayed.
use central_core.Prelude.{
  ◌⊎◌, ℕ, ◌≤◌, ◌≡◌, refl, inl, arith, false, none, some, [], ◌∷◌, text, strings, maps,
}
use central_core.Providers.Storage.{written}
use central_core.Errors.{Error, TrustError, ok, err}
use central_core.Providers.Rollback.{SnapshotRevisions, RollbackState, enforce_and_record_revisions}
use central_core.Providers.Rollback.Outcomes.{
  Committed, here, next, enforce_and_record_revisions-eq-err,
}
use central_core.Providers.Rollback.Laws.{
  enforce_and_record_revisions-no_rollback, enforce_and_record_revisions-no_instance_rollback,
}

abbrev index : ℕ → ℕ → SnapshotRevisions
index provider instance_revision = record {
  provider_revision = some provider;
  content_sha256 = text "aa";
  instances =
      record {
        id = text "survival";
        revision = instance_revision;
        content_sha256 = some (text "bb");
      }
      ∷ [];
}

abbrev fresh : RollbackState
fresh = record { document = none; events = [] }

abbrev stored : ℕ → ℕ → RollbackState
stored provider instance_revision = record {
  document = some (record {
    format_version = 1;
    providers =
        (
          text "example",
          record {
            revision = provider;
            content_sha256 = text "aa";
            instances =
                (
                  text "survival",
                  record { revision = instance_revision; content_sha256 = text "bb" },
                )
                ∷ [];
          },
        )
        ∷ [];
  });
  events = [];
}

accepts :
    enforce_and_record_revisions written (text "example") (index 3 7) false fresh
    ≡ (ok tt, stored 3 7)
unfolding enforce_and_record_revisions strings maps
accepts = refl

advances :
    enforce_and_record_revisions written (text "example") (index 5 7) false (stored 3 7)
    ≡ (ok tt, stored 5 7)
unfolding enforce_and_record_revisions strings maps
advances = refl

accepted_first :
    (enforce_and_record_revisions written (text "example") (index 3 7) false fresh).0 ≡ ok tt
unfolding enforce_and_record_revisions strings maps
accepted_first = refl

enforce_and_record_revisions-no_rollback_example :
    (highest : ℕ) × (3 ≤ highest)
    × ((enforce_and_record_revisions written
          (text "example")
          (index 2 9)
          false
          (enforce_and_record_revisions written
            (text "example")
            (index 5 7)
            false
            (enforce_and_record_revisions written (text "example") (index 3 7) false fresh).1).1).0
        ≡ err (Error.trust (TrustError.manifest_rollback_detected (text "example") 2 highest)))
enforce_and_record_revisions-no_rollback_example =
    enforce_and_record_revisions-no_rollback written written (text "example") (index 3 7)
      (index 2 9) false fresh _ 3 2 accepted_first refl
      (next written (text "example") (index 5 7) false here) refl (omega arith)

enforce_and_record_revisions-no_instance_rollback_example :
    (e : Error) × ((enforce_and_record_revisions written
        (text "example")
        (index 9 6)
        false
        (enforce_and_record_revisions written (text "example") (index 3 7) false fresh).1).0
      ≡ err e)
enforce_and_record_revisions-no_instance_rollback_example =
    enforce_and_record_revisions-no_instance_rollback written written (text "example")
      (text "survival") (index 3 7) (index 9 6) false fresh _ 7 9 accepted_first (inl (refl, refl))
      here refl (inl (refl, omega arith))

abbrev replayed : RollbackState
replayed = record {
  document = (stored 5 7).document;
  events = record { provider_id = text "example"; received = 2; highest = 5 } ∷ [];
}

refuses :
    enforce_and_record_revisions written (text "example") (index 2 9) false (stored 5 7)
    ≡ (err (Error.trust (TrustError.manifest_rollback_detected (text "example") 2 5)), replayed)
unfolding enforce_and_record_revisions strings maps
refuses = refl

refused_first :
    (enforce_and_record_revisions written (text "example") (index 2 9) false (stored 5 7)).0
    ≡ err (Error.trust (TrustError.manifest_rollback_detected (text "example") 2 5))
unfolding enforce_and_record_revisions strings maps
refused_first = refl

enforce_and_record_revisions-eq-err_example :
    ((enforce_and_record_revisions written
        (text "example")
        (index 2 9)
        false
        (stored 5 7)).1.document
      ≡ (stored 5 7).document)
    ⊎ Committed written
        (Error.trust (TrustError.manifest_rollback_detected (text "example") 2 5))
        (text "example")
        (index 2 9)
        (stored 5 7)
        (enforce_and_record_revisions written (text "example") (index 2 9) false (stored 5 7)).1
enforce_and_record_revisions-eq-err_example =
    enforce_and_record_revisions-eq-err written (text "example") (index 2 9) false (stored 5 7)
      (Error.trust (TrustError.manifest_rollback_detected (text "example") 2 5)) refused_first
