-- ===== src/Providers/Update/Transaction/Backups.antt =====
-- The first loop of an update, which backs files up.
use central_core.Prelude.{
  ◌≡◌, inl, refl, ◌∙◌, true, none, List, [], ◌∷◌, arith, Text, text_eq_iff, get, contains,
  if◌then◌else◌,
}
use central_core.Errors.{ok, err}
use central_core.Providers.Update.Tree.{file_at, followed}
use central_core.Providers.Update.Transaction.{Trees, Outcome, each, move_to_backup}
use central_core.Providers.Update.Transaction.Moves.{
  IsBackedUp, Moved, done, failed, Moved-move_to_backup,
}
use central_core.Providers.Update.Transaction.Rollback.{
  Pending, Pending-SameFiles, Pending-IsBackedUp,
}

-- The first loop: after it, nothing is left at the backed-up paths.
pub record AllBackedUp (ps : List Text) (s t : Trees) : Type 0 where
  pub instance_files :
      (q : Text)
      → file_at q t.instance_files ≡ (if contains q ps then none else file_at q s.instance_files)
  pub staged : (q : Text) → file_at q t.staged ≡ file_at q s.staged

-- The state of the loop, whatever its result, is pending; and on success all is backed up.
abbrev pub AfterBackups : Trees → List Text → List Text → Trees → Outcome → Type 0
AfterBackups orig paths ps s (ok u, t) = Pending orig paths [] t × AllBackedUp ps s t
AfterBackups orig paths ps s (err e, t) = Pending orig paths [] t

AllBackedUp-cons :
    (p : Text) (ps : List Text) (s u t : Trees)
    → IsBackedUp p s u
    → AllBackedUp ps u t
    → AllBackedUp (p ∷ ps) s t
unfolding contains
AllBackedUp-cons p ps s u t b a = record {
  instance_files = λ q. ground (arith, a.instance_files q, b.instance_files q, text_eq_iff p q);
  staged = λ q. a.staged q ∙ b.staged q;
}

AfterBackups-cons :
    (orig s u : Trees) (paths : List Text) (p : Text) (ps : List Text) (out : Outcome)
    → IsBackedUp p s u
    → AfterBackups orig paths ps u out
    → AfterBackups orig paths (p ∷ ps) s out
AfterBackups-cons orig s u paths p ps (ok x, t) b a = (a.0, AllBackedUp-cons p ps s u t b a.1)
AfterBackups-cons orig s u paths p ps (err e, t) b a = a

AfterBackups-followed :
    (orig s : Trees) (paths : List Text) (p : Text) (ps : List Text) (out : Outcome)
    (next : Trees → Outcome)
    → contains p paths ≡ true
    → Pending orig paths [] s
    → Moved (IsBackedUp p s) s out
    → ((u : Trees) → Pending orig paths [] u → AfterBackups orig paths ps u (next u))
    → AfterBackups orig paths (p ∷ ps) s (followed out next)
AfterBackups-followed orig s paths p ps _ next member h (done u b) rest =
    AfterBackups-cons orig s u paths p ps (next u) b
      (rest u (Pending-IsBackedUp orig s u paths p member h b))
AfterBackups-followed orig s paths p ps _ next member h (failed e t same) rest =
    Pending-SameFiles orig s t paths [] h same

pub AfterBackups-each :
    (orig : Trees) (paths ps : List Text) (s : Trees)
    → ((q : Text) → contains q ps ≡ true → contains q paths ≡ true)
    → Pending orig paths [] s
    → AfterBackups orig paths ps s (each move_to_backup ps s)
unfolding each contains
AfterBackups-each orig paths [] s sub h =
    (h, record { instance_files = λ q. refl; staged = λ q. refl })
AfterBackups-each orig paths (p ∷ ps) s sub h =
    AfterBackups-followed orig s paths p ps (move_to_backup p s) (each move_to_backup ps)
      (sub p (ground (arith, text_eq_iff p p))) h (Moved-move_to_backup p s)
      (λ u. AfterBackups-each orig paths ps u (λ q e. sub q (ground arith)))

pub Pending-start : (s : Trees) (paths : List Text) → s.backups ≡ [] → Pending s paths [] s
unfolding get contains
Pending-start s paths fresh = record {
  files = λ q. inl (rw fresh refl, (λ e. refl), (λ e. absurd (cc)));
  links = λ q. rw fresh refl;
}
