-- ===== src/Providers/Update/Transaction/Laws.antt =====
-- What an update leaves of the files of an instance.
use central_core.Prelude.{
  ◌≡◌, refl, Bool, true, false, Option, none, List, [], ◌∷◌, ◌++◌, arith, Text, text_eq_iff,
  contains, is_some, if◌then◌else◌,
}
use central_core.Errors.{Error, Result, ok, err}
use central_core.Providers.Update.Tree.{file_at}
use central_core.Providers.Update.Transaction.{
  Trees, Outcome, Applied, committed, restored, stuck, abandoned, move_staged_into_instance,
  rollback_update_files, rolled_back, with_applied, after_move, apply_staged, verified,
  after_backups, apply_files,
}
use central_core.Providers.Update.Transaction.Moves.{
  IsStaged, Moved, done, failed, Moved-move_staged_into_instance,
}
use central_core.Providers.Update.Transaction.Backups.{
  AllBackedUp, AfterBackups, AfterBackups-each, Pending-start,
}
use central_core.Providers.Update.Transaction.Rollback.{
  Pending, Pending-SameFiles, Pending-IsStaged, rollback_update_files-Pending,
}

-- The files of an instance after an update: the changed paths hold what was staged, the other
-- paths that were backed up hold nothing, and every other file is as before.
abbrev pub updated : List Text → List Text → Trees → Text → Option Text
updated changed_paths backup_paths s q =
    if contains q changed_paths
    then file_at q s.staged
    else if contains q backup_paths
    then none
    else file_at q s.instance_files

pub record Replaced (changed_paths backup_paths : List Text) (s t : Trees) : Type 0 where
  pub files : (q : Text) → file_at q t.instance_files ≡ updated changed_paths backup_paths s q
  pub staged : (q : Text) → contains q changed_paths ≡ true → is_some (file_at q s.staged) ≡ true
  pub free :
      (q : Text)
      → contains q changed_paths ≡ true
      → contains q backup_paths ≡ false
      → file_at q s.instance_files ≡ none

-- What an update promises, by what came of it.
abbrev pub LeavesFiles : List Text → List Text → Trees → Applied × Trees → Type 0
LeavesFiles changed_paths backup_paths s (committed, t) = Replaced changed_paths backup_paths s t
LeavesFiles changed_paths backup_paths s (abandoned e, t) = Replaced changed_paths backup_paths s t
LeavesFiles changed_paths backup_paths s (restored e, t) =
    (q : Text) → file_at q t.instance_files ≡ file_at q s.instance_files
LeavesFiles changed_paths backup_paths s (stuck e, t) = Unit

LeavesFiles-rolled_back :
    (orig s : Trees) (changed_paths backup_paths applied_paths : List Text) (e : Error)
    (out : Outcome)
    → Pending orig backup_paths applied_paths s
    → rollback_update_files applied_paths backup_paths s ≡ out
    → LeavesFiles changed_paths backup_paths orig (rolled_back e out)
LeavesFiles-rolled_back orig s changed_paths backup_paths applied_paths e (ok u, t) h same =
    rollback_update_files-Pending orig s t backup_paths applied_paths h same
LeavesFiles-rolled_back orig s changed_paths backup_paths applied_paths e (err x, t) h same = tt

-- The second loop.
record AllStaged (ps : List Text) (s t : Trees) : Type 0 where
  there : (q : Text) → contains q ps ≡ true → is_some (file_at q s.staged) ≡ true
  free : (q : Text) → contains q ps ≡ true → file_at q s.instance_files ≡ none
  instance_files :
      (q : Text)
      → file_at q t.instance_files
        ≡ (if contains q ps then file_at q s.staged else file_at q s.instance_files)

AllStaged-nil : (s : Trees) → AllStaged [] s s
unfolding contains
AllStaged-nil s = record {
  there = λ q e. absurd (cc);
  free = λ q e. absurd (cc);
  instance_files = λ q. refl;
}

AllStaged-cons :
    (p : Text) (ps : List Text) (s u t : Trees)
    → IsStaged p s u
    → AllStaged ps u t
    → AllStaged (p ∷ ps) s t
unfolding contains
AllStaged-cons p ps s u t b a = record {
  there = λ q e. ground (arith, a.there q, b.there, b.staged q, text_eq_iff p q);
  free = λ q e. ground (arith, a.free q, b.free, b.instance_files q, text_eq_iff p q);
  instance_files = λ q.
      ground
        (arith, a.there q, a.instance_files q, b.instance_files q, b.staged q, text_eq_iff p q);
}

abbrev AfterStaged : Trees → List Text → List Text → Trees → Applied × List Text × Trees → Type 0
AfterStaged orig paths ps s (committed, applied_paths, t) =
    Pending orig paths applied_paths t × AllStaged ps s t
AfterStaged orig paths ps s (restored e, applied_paths, t) =
    (q : Text) → file_at q t.instance_files ≡ file_at q orig.instance_files
AfterStaged orig paths ps s (stuck e, applied_paths, t) = Unit
AfterStaged orig paths ps s (abandoned e, applied_paths, t) = ⊥

AfterStaged-cons :
    (orig s u : Trees) (paths : List Text) (p : Text) (ps : List Text)
    (out : Applied × List Text × Trees)
    → IsStaged p s u
    → AfterStaged orig paths ps u out
    → AfterStaged orig paths (p ∷ ps) s out
AfterStaged-cons orig s u paths p ps (committed, paths_done, t) b a =
    (a.0, AllStaged-cons p ps s u t b a.1)
AfterStaged-cons orig s u paths p ps (restored e, paths_done, t) b a = a
AfterStaged-cons orig s u paths p ps (stuck e, paths_done, t) b a = tt
AfterStaged-cons orig s u paths p ps (abandoned e, paths_done, t) b a = a

AfterStaged-rolled_back :
    (orig s t : Trees) (paths ps applied_paths : List Text) (e : Error) (out : Outcome)
    → Pending orig paths applied_paths t
    → rollback_update_files applied_paths paths t ≡ out
    → AfterStaged orig paths ps s (with_applied applied_paths (rolled_back e out))
AfterStaged-rolled_back orig s t paths ps applied_paths e (ok u, v) h same =
    rollback_update_files-Pending orig t v paths applied_paths h same
AfterStaged-rolled_back orig s t paths ps applied_paths e (err x, v) h same = tt

AfterStaged-after_move :
    (orig s : Trees) (paths applied_paths : List Text) (p : Text) (ps : List Text) (out : Outcome)
    (next : Trees → Applied × List Text × Trees)
    → Pending orig paths applied_paths s
    → Moved (IsStaged p s) s out
    → ((u : Trees)
        → Pending orig paths (applied_paths ++ (p ∷ [])) u
        → AfterStaged orig paths ps u (next u))
    → AfterStaged orig paths (p ∷ ps) s (after_move paths applied_paths out next)
AfterStaged-after_move orig s paths applied_paths p ps _ next h (done u b) rest =
    AfterStaged-cons orig s u paths p ps (next u) b
      (rest u (Pending-IsStaged orig s u paths applied_paths p h b))
AfterStaged-after_move orig s paths applied_paths p ps _ next h (failed e t same) rest =
    AfterStaged-rolled_back orig s t paths (p ∷ ps) applied_paths e _
      (Pending-SameFiles orig s t paths applied_paths h same) refl

AfterStaged-apply_staged :
    (orig : Trees) (paths applied_paths ps : List Text) (s : Trees)
    → Pending orig paths applied_paths s
    → AfterStaged orig paths ps s (apply_staged paths applied_paths ps s)
unfolding apply_staged
AfterStaged-apply_staged orig paths applied_paths [] s h = (h, AllStaged-nil s)
AfterStaged-apply_staged orig paths applied_paths (p ∷ ps) s h =
    AfterStaged-after_move orig s paths applied_paths p ps (move_staged_into_instance p s) _ h
      (Moved-move_staged_into_instance p s)
      (AfterStaged-apply_staged orig paths (applied_paths ++ (p ∷ [])) ps)

Replaced-AllStaged :
    (orig s t : Trees) (changed_paths backup_paths : List Text)
    → AllBackedUp backup_paths orig s
    → AllStaged changed_paths s t
    → Replaced changed_paths backup_paths orig t
Replaced-AllStaged orig s t changed_paths backup_paths b a = record {
  files = λ q. ground (arith, a.instance_files q, b.instance_files q, b.staged q);
  staged = λ q e. ground (arith, a.there q e, b.staged q);
  free = λ q e other. ground (arith, a.free q e, b.instance_files q);
}

LeavesFiles-verified :
    (orig s : Trees) (changed_paths backup_paths : List Text) (is_healthy : Result Bool)
    (out : Applied × List Text × Trees)
    → AllBackedUp backup_paths orig s
    → AfterStaged orig backup_paths changed_paths s out
    → LeavesFiles changed_paths backup_paths orig (verified is_healthy backup_paths out)
LeavesFiles-verified orig s changed_paths backup_paths (ok true) (committed, paths_done, t) b a =
    Replaced-AllStaged orig s t changed_paths backup_paths b a.1
LeavesFiles-verified orig s changed_paths backup_paths (err e) (committed, paths_done, t) b a =
    Replaced-AllStaged orig s t changed_paths backup_paths b a.1
LeavesFiles-verified orig s changed_paths backup_paths (ok false) (committed, paths_done, t) b a =
    LeavesFiles-rolled_back orig t changed_paths backup_paths paths_done _ _ a.0 refl
LeavesFiles-verified orig s changed_paths backup_paths is_healthy (restored e, paths_done, t) b a =
    a
LeavesFiles-verified orig s changed_paths backup_paths is_healthy (stuck e, paths_done, t) b a = tt
LeavesFiles-verified orig s changed_paths backup_paths is_healthy (abandoned e, paths_done, t) b a =
    absurd a

LeavesFiles-after_backups :
    (check : Trees → Result Bool) (changed_paths backup_paths : List Text) (orig : Trees)
    (out : Outcome)
    → AfterBackups orig backup_paths backup_paths orig out
    → LeavesFiles changed_paths backup_paths orig
        (after_backups check changed_paths backup_paths out)
LeavesFiles-after_backups check changed_paths backup_paths orig (err e, t) h =
    LeavesFiles-rolled_back orig t changed_paths backup_paths [] e _ h refl
LeavesFiles-after_backups check changed_paths backup_paths orig (ok u, t) h =
    LeavesFiles-verified orig t changed_paths backup_paths _ _ h.1
      (AfterStaged-apply_staged orig backup_paths [] changed_paths t h.0)

-- What an update of files that starts without backups leaves. When it commits, the changed paths hold
-- the staged files, the other backed-up paths hold no file, no other file is different, and no file
-- was at a changed path that was not backed up. The files are the same when the verification itself
-- fails after the moves, since then nothing is rolled back. When a move was refused or the files were
-- found unhealthy, and the rollback went through, every file of the instance is as it was before.
pub apply_files-LeavesFiles :
    (check : Trees → Result Bool) (changed_paths backup_paths : List Text) (s : Trees)
    → s.backups ≡ []
    → LeavesFiles changed_paths backup_paths s (apply_files check changed_paths backup_paths s)
unfolding apply_files
apply_files-LeavesFiles check changed_paths backup_paths s fresh =
    LeavesFiles-after_backups check changed_paths backup_paths s _ (
      AfterBackups-each s backup_paths backup_paths s (λ q e. e)
        (Pending-start s backup_paths fresh))
