-- ===== src/Providers/Update/Transaction/Rollback.antt =====
-- `rollback_update_files` undoes every state of a transaction.
use mathlib.Core.List.{reverse, reverse-append}
use central_core.Prelude.{
  ◌≡◌, ◌⊎◌, refl, sym, ap, subst, ◌∙◌, true, false, none, List, [], ◌∷◌, ◌++◌, arith, Text,
  text_eq_iff, contains, contains-append, if◌then◌else◌,
}
use central_core.Errors.{ok, err}
use central_core.Providers.Update.Tree.{file_at, followed, HasNoLinks}
use central_core.Providers.Update.Transaction.{
  Trees, Outcome, each, remove_applied, restore_backup, rollback_update_files,
}
use central_core.Providers.Update.Transaction.Moves.{
  or_file, SameFiles, IsBackedUp, IsStaged, IsRemoved, IsRestored, Moved, done, failed,
  Moved-remove_applied, Moved-restore_backup,
}

-- No file is backed up yet.
abbrev pub Untouched : Text → List Text → Trees → Trees → Type 0
Untouched q applied orig s =
    (file_at q s.backups ≡ none)
    × (contains q applied ≡ false → file_at q s.instance_files ≡ file_at q orig.instance_files)
    × (contains q applied ≡ true → file_at q orig.instance_files ≡ none)

-- The file is among the backups.
abbrev pub Saved : Text → List Text → List Text → Trees → Trees → Type 0
Saved q paths applied orig s =
    (contains q paths ≡ true)
    × (file_at q s.backups ≡ file_at q orig.instance_files)
    × (contains q applied ≡ false → file_at q s.instance_files ≡ none)

-- A state from which the files of `orig` can be had back.
pub record Pending (orig : Trees) (paths applied : List Text) (s : Trees) : Type 0 where
  pub files : (q : Text) → Untouched q applied orig s ⊎ Saved q paths applied orig s
  pub links : HasNoLinks s.backups

pub Pending-SameFiles :
    (orig s t : Trees) (paths applied : List Text)
    → Pending orig paths applied s
    → SameFiles s t
    → Pending orig paths applied t
Pending-SameFiles orig s t paths applied p same = record {
  files = λ q. ground (arith, p.files q, same.instance_files q, same.backups q);
  links = same.links p.links;
}

pub Pending-IsBackedUp :
    (orig s t : Trees) (paths : List Text) (p : Text)
    → contains p paths ≡ true
    → Pending orig paths [] s
    → IsBackedUp p s t
    → Pending orig paths [] t
unfolding contains
Pending-IsBackedUp orig s t paths p member h b = record {
  files = λ q. ground (arith, h.files q, b.instance_files q, b.backups q, text_eq_iff p q);
  links = b.links h.links;
}

pub Pending-IsStaged :
    (orig s t : Trees) (paths applied : List Text) (p : Text)
    → Pending orig paths applied s
    → IsStaged p s t
    → Pending orig paths (applied ++ (p ∷ [])) t
unfolding contains
Pending-IsStaged orig s t paths applied p h b = record {
  files = λ q. ground (
    arith,
    h.files q,
    b.free,
    b.instance_files q,
    b.backups q,
    text_eq_iff p q,
    contains-append q applied (p ∷ []),
  );
  links = b.links h.links;
}

contains-reverse : (q : Text) (ps : List Text) → contains q (reverse ps) ≡ contains q ps
unfolding contains
contains-reverse q [] = refl
contains-reverse q (p ∷ ps) =
    ap (contains q) (reverse-append (p ∷ []) ps)
    ∙ contains-append q (reverse ps) (p ∷ [])
    ∙ ground (arith, contains-reverse q ps)

-- The state after a step is one of which something is known.
pub Moved-ok :
    (Done : Trees → Type 0) (s t : Trees) (out : Outcome)
    → Moved Done s out
    → out ≡ (ok tt, t)
    → Done t
Moved-ok Done s t _ (done u h) e = subst Done (ap (λ (o : Outcome). o.1) e) h
Moved-ok Done s t _ (failed x u h) e = absurd (cc (ap (λ (o : Outcome). o.0) e))

pub followed-ok :
    (out : Outcome) (next : Trees → Outcome) (t : Trees)
    → followed out next ≡ (ok tt, t)
    → (s : Trees) × (out ≡ (ok tt, s)) × (next s ≡ (ok tt, t))
followed-ok (err e, s) next t h = absurd (cc (ap (λ (o : Outcome). o.0) h))
followed-ok (ok u, s) next t h = (s, refl, h)

-- What the first loop of the rollback leaves.
record AllRemoved (ps : List Text) (s t : Trees) : Type 0 where
  instance_files :
      (q : Text)
      → file_at q t.instance_files ≡ (if contains q ps then none else file_at q s.instance_files)
  backups : (q : Text) → file_at q t.backups ≡ file_at q s.backups
  links : HasNoLinks s.backups → HasNoLinks t.backups

AllRemoved-each :
    (ps : List Text) (s t : Trees) → each remove_applied ps s ≡ (ok tt, t) → AllRemoved ps s t
unfolding each contains
AllRemoved-each [] s t e =
    subst (AllRemoved [] s) (ap (λ (o : Outcome). o.1) e)
      (record { instance_files = λ q. refl; backups = λ q. refl; links = λ h. h })
AllRemoved-each (p ∷ ps) s t e =
    let (u, first, e1) = followed-ok (remove_applied p s) (each remove_applied ps) t e in
    let r = Moved-ok (IsRemoved p s) s u _ (Moved-remove_applied p s) first in
    let rest = AllRemoved-each ps u t e1 in
    record {
      instance_files =
          λ q. ground (arith, rest.instance_files q, r.instance_files q, text_eq_iff p q);
      backups = λ q. rest.backups q ∙ r.backups q;
      links = λ h. rest.links (r.links h);
    }

-- What the second loop leaves.
AllRestored : List Text → Trees → Trees → Type 0
AllRestored ps s t =
    (q : Text)
    → file_at q t.instance_files ≡ (
        if contains q ps
        then or_file (file_at q s.backups) (file_at q s.instance_files)
        else file_at q s.instance_files)

AllRestored-each :
    (ps : List Text) (s t : Trees)
    → HasNoLinks s.backups
    → each restore_backup ps s ≡ (ok tt, t)
    → AllRestored ps s t
unfolding each contains AllRestored
AllRestored-each [] s t n e q = ap (λ (o : Outcome). file_at q o.1.instance_files) (sym e)
AllRestored-each (p ∷ ps) s t n e q =
    let (u, first, e1) = followed-ok (restore_backup p s) (each restore_backup ps) t e in
    let r = Moved-ok (IsRestored p s) s u _ (Moved-restore_backup p s n) first in
    let rest = AllRestored-each ps u t (r.links n) e1 q in
    ground (arith, rest, r.instance_files q, r.backups q, text_eq_iff p q)

-- From a pending state a rollback that succeeds brings back every file.
pub rollback_update_files-Pending :
    (orig s t : Trees) (paths applied : List Text)
    → Pending orig paths applied s
    → rollback_update_files applied paths s ≡ (ok tt, t)
    → (q : Text) → file_at q t.instance_files ≡ file_at q orig.instance_files
unfolding rollback_update_files AllRestored
rollback_update_files-Pending orig s t paths applied h e q =
    let (u, first, e1) =
      followed-ok (each remove_applied (reverse applied) s) (each restore_backup paths) t e in
    let a = AllRemoved-each (reverse applied) s u first in
    let b = AllRestored-each paths u t (a.links h.links) e1 q in
    ground (arith, b, a.instance_files q, a.backups q, h.files q, contains-reverse q applied)
