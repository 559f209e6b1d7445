-- ===== src/Providers/Update/Transaction/Moves.antt =====
-- What each move does to the files of the three trees.
use central_core.Prelude.{
  ◌≡◌, refl, sym, ap, ◌∙◌, true, false, Option, none, some, arith, Text, text_eq, text_eq_iff, get,
  Bool-cases, inl, inr, if◌then◌else◌, if_cases, is_some,
}
use central_core.Errors.{Error, Result, ok, err}
use central_core.Files.Path
use central_core.Files.Path.{SafeRelativePath}
use central_core.Files.Path.Laws.{new_iff}
use central_core.Providers.Update.Tree.{
  Entry, directory, file, symlink, Tree, content, file_at, exists, file_at-ensure_real_parents,
  file_at-insert, file_at-remove_key, HasNoLinks, HasNoLinks-insert, HasNoLinks-remove_key,
  HasNoLinks-link, HasNoLinks-ensure_real_parents,
}
use central_core.Providers.Update.Transaction.{
  Trees, Outcome, with_path, with_metadata, is_below_file, rename_to_backup, backup_entry,
  move_to_backup, rename_staged, staged_entry, move_staged_into_instance, remove_entry,
  remove_applied, rename_back, restore_entry, restore_backup, is_directory,
}

-- The first text that is there.
abbrev pub or_file : Option Text → Option Text → Option Text
or_file none o = o
or_file (some c) o = some c

-- No file of the instance or of the backups is different.
pub record SameFiles (s t : Trees) : Type 0 where
  pub instance_files : (q : Text) → file_at q t.instance_files ≡ file_at q s.instance_files
  pub backups : (q : Text) → file_at q t.backups ≡ file_at q s.backups
  pub staged : (q : Text) → file_at q t.staged ≡ file_at q s.staged
  pub links : HasNoLinks s.backups → HasNoLinks t.backups

pub SameFiles-refl : (s : Trees) → SameFiles s s
SameFiles-refl s = record {
  instance_files = λ q. refl;
  backups = λ q. refl;
  staged = λ q. refl;
  links = λ h. h;
}

-- The file at a path goes from one tree to another.
pub record IsBackedUp (p : Text) (s t : Trees) : Type 0 where
  pub instance_files :
      (q : Text)
      → file_at q t.instance_files ≡ (if text_eq p q then none else file_at q s.instance_files)
  pub backups :
      (q : Text)
      → file_at q t.backups ≡ (
          if text_eq p q
          then or_file (file_at q s.instance_files) (file_at q s.backups)
          else file_at q s.backups)
  pub staged : (q : Text) → file_at q t.staged ≡ file_at q s.staged
  pub links : HasNoLinks s.backups → HasNoLinks t.backups

pub record IsStaged (p : Text) (s t : Trees) : Type 0 where
  pub there : is_some (file_at p s.staged) ≡ true
  pub free : file_at p s.instance_files ≡ none
  pub instance_files :
      (q : Text)
      → file_at q t.instance_files
        ≡ (if text_eq p q then file_at q s.staged else file_at q s.instance_files)
  pub backups : (q : Text) → file_at q t.backups ≡ file_at q s.backups
  pub staged : (q : Text) → file_at q t.staged ≡ (if text_eq p q then none else file_at q s.staged)
  pub links : HasNoLinks s.backups → HasNoLinks t.backups

pub record IsRemoved (p : Text) (s t : Trees) : Type 0 where
  pub instance_files :
      (q : Text)
      → file_at q t.instance_files ≡ (if text_eq p q then none else file_at q s.instance_files)
  pub backups : (q : Text) → file_at q t.backups ≡ file_at q s.backups
  pub links : HasNoLinks s.backups → HasNoLinks t.backups

pub record IsRestored (p : Text) (s t : Trees) : Type 0 where
  pub instance_files :
      (q : Text)
      → file_at q t.instance_files ≡ (
          if text_eq p q
          then or_file (file_at q s.backups) (file_at q s.instance_files)
          else file_at q s.instance_files)
  pub backups :
      (q : Text) → file_at q t.backups ≡ (if text_eq p q then none else file_at q s.backups)
  pub links : HasNoLinks s.backups → HasNoLinks t.backups

-- An operation has done its work, or has failed and changed no file.
pub data Moved (Done : Trees → Type 0) (s : Trees) : Outcome → Type 0 where
  done : (t : Trees) → Done t → Moved Done s (ok tt, t)
  failed : (e : Error) (t : Trees) → SameFiles s t → Moved Done s (err e, t)

Moved-with_path :
    (Done : Text → Trees → Type 0) (p : Text) (s : Trees) (next : Text → Outcome)
    → Moved (Done p) s (next p)
    → Moved (Done p) s (with_path p s next)
Moved-with_path Done p s next h = go (Path.new p) refl
  where
    go :
        (r : Result SafeRelativePath)
        → Path.new p ≡ r
        → Moved (Done p) s (elim r [ err e ↦ (err e, s) | ok relative ↦ next relative.value ])
    go (err e) x = failed e s (SameFiles-refl s)
    go (ok relative) x = rw ((new_iff p relative).0 x).1 h

Moved-with_metadata :
    (Done : Trees → Type 0) (p : Text) (tree : Tree) (s : Trees) (next : Option Entry → Outcome)
    → Moved Done s (next (get p tree))
    → Moved Done s (with_metadata p tree s next)
Moved-with_metadata Done p tree s next h =
    if_cases (Moved Done s) (is_below_file p tree) (λ e. failed _ s (SameFiles-refl s)) (λ e. h)

Moved-rename_to_backup :
    (p c : Text) (s : Trees) (r : Result (Unit {0}) × Tree)
    → file_at p s.instance_files ≡ some c
    → ((q : Text) → file_at q r.1 ≡ file_at q s.backups)
    → (HasNoLinks s.backups → HasNoLinks r.1)
    → Moved (IsBackedUp p s) s (rename_to_backup p c r s)
unfolding rename_to_backup
Moved-rename_to_backup p c s (err e, backups) h same links =
    failed e _
      (record { instance_files = λ q. refl; backups = same; staged = λ q. refl; links = links })
Moved-rename_to_backup p c s (ok u, backups) h same links =
    elim (Bool-cases (is_directory (get p backups))) [
      | inl d ↦ rw d (
          failed _ _ (record {
            instance_files = λ q. refl;
            backups = same;
            staged = λ q. refl;
            links = links;
          }))
      | inr d ↦ rw d (
          done _ (record {
            instance_files = λ q. file_at-remove_key p q s.instance_files;
            backups = λ q. ground (arith, file_at-insert p q c backups, same q, text_eq_iff p q);
            staged = λ q. refl;
            links = λ h. HasNoLinks-insert p c backups (links h);
          }))
    ]

Moved-backup_entry :
    (p : Text) (s : Trees) (o : Option Entry)
    → get p s.instance_files ≡ o
    → Moved (IsBackedUp p s) s (backup_entry p o s)
unfolding backup_entry
Moved-backup_entry p s none h = done s (record {
  instance_files = λ q. ground (arith, text_eq_iff p q);
  backups = λ q. ground (arith, text_eq_iff p q);
  staged = λ q. refl;
  links = λ h. h;
})
Moved-backup_entry p s (some (file c)) h =
    Moved-rename_to_backup p c s _ (ap content h) (λ q. file_at-ensure_real_parents q p s.backups)
      (HasNoLinks-ensure_real_parents p s.backups)
Moved-backup_entry p s (some directory) h = failed _ s (SameFiles-refl s)
Moved-backup_entry p s (some (symlink b)) h = failed _ s (SameFiles-refl s)

pub Moved-move_to_backup : (p : Text) (s : Trees) → Moved (IsBackedUp p s) s (move_to_backup p s)
unfolding move_to_backup
Moved-move_to_backup p s =
    Moved-with_path (λ p. IsBackedUp p s) p s _
      (Moved-with_metadata (IsBackedUp p s) p s.instance_files s (λ x. backup_entry p x s)
        (Moved-backup_entry p s _ refl))

not_there : (o : Option Entry) → exists o ≡ false → content o ≡ none
not_there none h = refl
not_there (some (file c)) h = absurd (cc)
not_there (some directory) h = refl
not_there (some (symlink b)) h = refl

Moved-rename_staged :
    (p c : Text) (s : Trees) (r : Result (Unit {0}) × Tree)
    → file_at p s.staged ≡ some c
    → ((q : Text) → file_at q r.1 ≡ file_at q s.instance_files)
    → Moved (IsStaged p s) s (rename_staged p c r s)
unfolding rename_staged
Moved-rename_staged p c s (err e, tree) h same =
    failed e _
      (record { instance_files = same; backups = λ q. refl; staged = λ q. refl; links = λ h. h })
Moved-rename_staged p c s (ok u, tree) h same = elim (Bool-cases (exists (get p tree))) [
  | inl d ↦ rw d (
      failed _ _
        (record { instance_files = same; backups = λ q. refl; staged = λ q. refl; links = λ h. h }))
  | inr d ↦ rw d (
      done _ (record {
        there = rw h refl;
        free = sym (same p) ∙ not_there (get p tree) d;
        instance_files = λ q. ground (arith, file_at-insert p q c tree, same q, text_eq_iff p q);
        backups = λ q. refl;
        staged = λ q. file_at-remove_key p q s.staged;
        links = λ h. h;
      }))
]

Moved-staged_entry :
    (p : Text) (s : Trees) (o : Option Entry)
    → get p s.staged ≡ o
    → Moved (IsStaged p s) s (staged_entry p o s)
unfolding staged_entry
Moved-staged_entry p s none h = failed _ s (SameFiles-refl s)
Moved-staged_entry p s (some (file c)) h =
    Moved-rename_staged p c s _ (ap content h)
      (λ q. file_at-ensure_real_parents q p s.instance_files)
Moved-staged_entry p s (some directory) h = failed _ s (SameFiles-refl s)
Moved-staged_entry p s (some (symlink b)) h = failed _ s (SameFiles-refl s)

pub Moved-move_staged_into_instance :
    (p : Text) (s : Trees) → Moved (IsStaged p s) s (move_staged_into_instance p s)
unfolding move_staged_into_instance
Moved-move_staged_into_instance p s =
    Moved-with_path (λ p. IsStaged p s) p s _ (Moved-staged_entry p s _ refl)

Moved-remove_entry :
    (p : Text) (s : Trees) (o : Option Entry)
    → get p s.instance_files ≡ o
    → Moved (IsRemoved p s) s (remove_entry p o s)
unfolding remove_entry
Moved-remove_entry p s none h = done s (record {
  instance_files = λ q. ground (arith, text_eq_iff p q);
  backups = λ q. refl;
  links = λ h. h;
})
Moved-remove_entry p s (some (file c)) h = done _ (record {
  instance_files = λ q. file_at-remove_key p q s.instance_files;
  backups = λ q. refl;
  links = λ h. h;
})
Moved-remove_entry p s (some directory) h = failed _ s (SameFiles-refl s)
Moved-remove_entry p s (some (symlink b)) h = failed _ s (SameFiles-refl s)

pub Moved-remove_applied : (p : Text) (s : Trees) → Moved (IsRemoved p s) s (remove_applied p s)
unfolding remove_applied
Moved-remove_applied p s =
    Moved-with_path (λ p. IsRemoved p s) p s _
      (Moved-with_metadata (IsRemoved p s) p s.instance_files s (λ x. remove_entry p x s)
        (Moved-remove_entry p s _ refl))

Moved-rename_back :
    (p c : Text) (s : Trees) (r : Result (Unit {0}) × Tree)
    → file_at p s.backups ≡ some c
    → ((q : Text) → file_at q r.1 ≡ file_at q s.instance_files)
    → Moved (IsRestored p s) s (rename_back p (file c) r s)
unfolding rename_back
Moved-rename_back p c s (err e, tree) h same =
    failed e _
      (record { instance_files = same; backups = λ q. refl; staged = λ q. refl; links = λ h. h })
Moved-rename_back p c s (ok u, tree) h same = elim (Bool-cases (is_directory (get p tree))) [
  | inl d ↦ rw d (
      failed _ _
        (record { instance_files = same; backups = λ q. refl; staged = λ q. refl; links = λ h. h }))
  | inr d ↦ rw d (
      done _ (record {
        instance_files = λ q. ground (arith, file_at-insert p q c tree, same q, text_eq_iff p q);
        backups = λ q. file_at-remove_key p q s.backups;
        links = λ h. HasNoLinks-remove_key p s.backups h;
      }))
]

Moved-restore_entry :
    (p : Text) (s : Trees) (o : Option Entry)
    → get p s.backups ≡ o
    → HasNoLinks s.backups
    → Moved (IsRestored p s) s (restore_entry p o s)
unfolding restore_entry
Moved-restore_entry p s none h n = done s (record {
  instance_files = λ q. ground (arith, text_eq_iff p q);
  backups = λ q. ground (arith, text_eq_iff p q);
  links = λ h. h;
})
Moved-restore_entry p s (some directory) h n = failed _ s (SameFiles-refl s)
Moved-restore_entry p s (some (file c)) h n =
    Moved-rename_back p c s _ (ap content h) (λ q. file_at-ensure_real_parents q p s.instance_files)
Moved-restore_entry p s (some (symlink b)) h n = absurd (HasNoLinks-link p b s.backups n h)

pub Moved-restore_backup :
    (p : Text) (s : Trees) → HasNoLinks s.backups → Moved (IsRestored p s) s (restore_backup p s)
unfolding restore_backup
Moved-restore_backup p s n =
    Moved-with_path (λ p. IsRestored p s) p s _
      (Moved-with_metadata (IsRestored p s) p s.backups s (λ x. restore_entry p x s)
        (Moved-restore_entry p s _ refl n))
