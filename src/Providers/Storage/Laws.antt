-- ===== src/Providers/Storage/Laws.antt =====
-- A document is never lost while it is replaced.
use central_core.Prelude.{◌≡◌, ◌⊎◌, inl, inr, refl, Bool, List, [], ◌∷◌, All, Text, if_cases}
use central_core.Errors.{Result, ok}
use central_core.Providers.Storage.{
  Stored, absent, directory, document, Documents, Replacement, step, stop, remove_previous, commit,
  save_previous, replace_destination, atomic_json, read_with_previous,
}

-- A reader finds the old document or the new one.
abbrev pub IsReadable : Text → Text → Documents → Type 0
IsReadable old bytes s = (read_with_previous s ≡ ok old) ⊎ (read_with_previous s ≡ ok bytes)

abbrev pub last : Documents → List Documents → Documents
last s [] = s
last s (t ∷ states) = last t states

-- All states are readable; on success the last one has the new document, else the old one or the
-- new one.
pub record IsSafe (old bytes : Text) (start : Documents) (run : Replacement) : Type 0 where
  pub readable : All (IsReadable old bytes) run.states
  pub written : run.outcome ≡ ok tt → read_with_previous (last start run.states) ≡ ok bytes

IsSafe-step :
    (old bytes : Text) (start s : Documents) (run : Replacement)
    → IsReadable old bytes s
    → IsSafe old bytes s run
    → IsSafe old bytes start (step s run)
IsSafe-step old bytes start s run h r = record { readable = (h, r.readable); written = r.written }

IsSafe-stopped :
    (old bytes : Text) (start s : Documents) (r : Result (Unit {0}))
    → IsReadable old bytes s
    → (r ≡ ok tt → read_with_previous s ≡ ok bytes)
    → IsSafe old bytes start (stop s r)
IsSafe-stopped old bytes start s r h k = record { readable = (h, tt); written = k }

IsSafe-remove_previous :
    (old bytes : Text) (start s : Documents) (previous : Stored)
    → s.destination ≡ document bytes
    → IsSafe old bytes start (remove_previous s previous)
unfolding read_with_previous
IsSafe-remove_previous old bytes start s absent h =
    IsSafe-stopped old bytes start s _ (inr (rw h refl)) (λ e. rw h refl)
IsSafe-remove_previous old bytes start s directory h =
    IsSafe-stopped old bytes start s _ (inr (rw h refl)) (λ e. rw h refl)
IsSafe-remove_previous old bytes start s (document text) h =
    IsSafe-step old bytes start s _ (inr (rw h refl))
      (IsSafe-stopped old bytes s _ _ (inr (rw h refl)) (λ e. rw h refl))

-- The old document is the previous one.
IsSafe-commit :
    (is_failing : Bool) (old bytes : Text) (start : Documents) (temporary : Stored)
    → IsSafe old bytes start (
        commit is_failing bytes
          (record { destination = absent; temporary = temporary; previous = document old }))
unfolding commit read_with_previous
IsSafe-commit is_failing old bytes start temporary =
    if_cases (IsSafe old bytes start) is_failing
      (λ e.
        IsSafe-step old bytes start _ _ (inl refl)
          (IsSafe-stopped old bytes _ _ _ (inl refl) (λ h. absurd (cc h))))
      (λ e.
        IsSafe-step old bytes start _ _ (inl refl)
          (IsSafe-remove_previous old bytes _ _ (document old) refl))

IsSafe-save_previous :
    (is_failing : Bool) (path old bytes : Text) (start : Documents) (temporary previous : Stored)
    → IsSafe old bytes start (
        save_previous is_failing path bytes old
          (record { destination = document old; temporary = temporary; previous = previous })
          previous)
unfolding read_with_previous
IsSafe-save_previous is_failing path old bytes start temporary directory =
    IsSafe-stopped old bytes start _ _ (inl refl) (λ h. absurd (cc h))
IsSafe-save_previous is_failing path old bytes start temporary absent =
    IsSafe-step old bytes start _ _ (inl refl) (IsSafe-commit is_failing old bytes _ temporary)
IsSafe-save_previous is_failing path old bytes start temporary (document text) =
    IsSafe-step old bytes start _ _ (inl refl)
      (IsSafe-step old bytes _ _ _ (inl refl) (IsSafe-commit is_failing old bytes _ temporary))

-- What the destination and the previous name hold when a reader finds a document.
IsSafe-replace_destination :
    (is_failing : Bool) (path old bytes : Text) (start : Documents)
    (destination temporary previous : Stored)
    → read_with_previous
        (record { destination = destination; temporary = temporary; previous = previous })
      ≡ ok old
    → IsSafe old bytes start (
        replace_destination is_failing path bytes
          (record { destination = destination; temporary = temporary; previous = previous })
          destination)
unfolding read_with_previous
IsSafe-replace_destination is_failing path old bytes start absent temporary absent h = absurd (cc h)
IsSafe-replace_destination is_failing path old bytes start absent temporary directory h =
    absurd (cc h)
IsSafe-replace_destination is_failing path old bytes start absent temporary (document found) h =
    let same : found ≡ old = cc h in rw same (IsSafe-commit is_failing old bytes start temporary)
IsSafe-replace_destination is_failing path old bytes start directory temporary previous h =
    absurd (cc h)
IsSafe-replace_destination is_failing path old bytes start (document found) temporary previous h =
    let same : found ≡ old = cc h in
    rw same (IsSafe-save_previous is_failing path old bytes start temporary previous)

-- While a document is replaced, at whatever step the program stops, a reader finds the old document
-- or the new one; and once the replacement has succeeded, the new one.
pub atomic_json-IsSafe :
    (is_failing : Bool) (path old bytes : Text) (s : Documents)
    → read_with_previous s ≡ ok old
    → IsSafe old bytes s (atomic_json is_failing path bytes s)
unfolding atomic_json read_with_previous
atomic_json-IsSafe is_failing path old bytes s h = IsSafe-step old bytes s s _ (inl h) (
    IsSafe-replace_destination is_failing path old bytes s s.destination (document bytes) s.previous
      h)
