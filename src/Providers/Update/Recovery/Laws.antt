-- ===== src/Providers/Update/Recovery/Laws.antt =====
-- What recovery brings back, and what it leaves behind.
use central_core.Prelude.{
  ◌≡◌, refl, sym, ap, subst, ◌∙◌, true, false, Option, none, some, List, [], ◌∷◌, ◌++◌, arith, Text,
  text_eq, text_eq_iff, get, contains, is_some, if◌then◌else◌,
}
use central_core.Errors.{Result, ok, err}
use central_core.Providers.Update.Tree.{
  Entry, directory, file, symlink, Tree, content, file_at, file_at-ensure_real_parents,
  file_at-insert,
}
use central_core.Providers.Update.Transaction.{
  Trees, Outcome, each, move_to_backup, move_staged_into_instance,
}
use central_core.Providers.Update.Transaction.Moves.{
  or_file, IsStaged, Moved-move_staged_into_instance,
}
use central_core.Providers.Update.Transaction.Rollback.{
  Pending, Pending-IsStaged, Moved-ok, followed-ok,
}
use central_core.Providers.Update.Transaction.Backups.{
  AfterBackups, AfterBackups-each, Pending-start,
}
use mathlib.Core.List.{append-nil, append_assoc}
use central_core.Providers.Update.Recovery.{
  replace_destination, recover_file, recover_entry, recover_entries, restore_backup_tree,
}

-- The last of the files that a list of entries has at a path.
abbrev last_file : Text → Tree → Option Text
last_file q [] = none
last_file q ((p, entry) ∷ entries) =
    or_file (last_file q entries) (if text_eq p q then content (some entry) else none)

replaced :
    (p c q : Text) (r : Result (Unit {0})) (tree : Tree) (s t : Trees)
    → replace_destination p c r tree s ≡ (ok tt, t)
    → file_at q t.instance_files ≡ (if text_eq p q then some c else file_at q tree)
replaced p c q (err e) tree s t h = absurd (cc (ap (λ (o : Outcome). o.0) h))
replaced p c q (ok u) tree s t h =
    ap (λ (o : Outcome). file_at q o.1.instance_files) (sym h) ∙ file_at-insert p q c tree

recovered_file :
    (p c q : Text) (r : Result (Unit {0}) × Tree) (s t : Trees)
    → file_at q r.1 ≡ file_at q s.instance_files
    → recover_file p c r s ≡ (ok tt, t)
    → file_at q t.instance_files ≡ (if text_eq p q then some c else file_at q s.instance_files)
unfolding recover_file
recovered_file p c q (err e, tree) s t same h = absurd (cc (ap (λ (o : Outcome). o.0) h))
recovered_file p c q (ok u, tree) s t same h = rw (← same) (replaced p c q _ tree s t h)

recovered_entry :
    (p q : Text) (entry : Entry) (s t : Trees)
    → recover_entry p entry s ≡ (ok tt, t)
    → file_at q t.instance_files
      ≡ or_file (if text_eq p q then content (some entry) else none) (file_at q s.instance_files)
unfolding recover_entry
recovered_entry p q directory s t h =
    ap (λ (o : Outcome). file_at q o.1.instance_files) (sym h) ∙ ground arith
recovered_entry p q (symlink b) s t h = absurd (cc (ap (λ (o : Outcome). o.0) h))
recovered_entry p q (file c) s t h =
    recovered_file p c q _ s t (file_at-ensure_real_parents q p s.instance_files) h ∙ ground arith

recovered_entries :
    (entries : Tree) (q : Text) (s t : Trees)
    → recover_entries entries s ≡ (ok tt, t)
    → file_at q t.instance_files ≡ or_file (last_file q entries) (file_at q s.instance_files)
unfolding recover_entries
recovered_entries [] q s t h = ap (λ (o : Outcome). file_at q o.1.instance_files) (sym h)
recovered_entries ((p, entry) ∷ entries) q s t h =
    let (u, first, h1) = followed-ok (recover_entry p entry s) (recover_entries entries) t h in
    ground (arith, recovered_entry p q entry s u first, recovered_entries entries q u t h1)

-- The paths of the backups are distinct, as those of a directory are.
abbrev pub HasDistinctKeys : Tree → Type 0
HasDistinctKeys [] = Unit
HasDistinctKeys ((p, entry) ∷ entries) = (get p entries ≡ none) × HasDistinctKeys entries

last_file-file_at :
    (q : Text) (entries : Tree) → HasDistinctKeys entries → last_file q entries ≡ file_at q entries
unfolding get
last_file-file_at q [] h = refl
last_file-file_at q ((p, entry) ∷ entries) h =
    ground (arith, last_file-file_at q entries h.1, h.0, text_eq_iff p q)

pub recovered :
    (s t : Trees) (q : Text)
    → HasDistinctKeys s.backups
    → restore_backup_tree s ≡ (ok tt, t)
    → file_at q t.instance_files ≡ or_file (file_at q s.backups) (file_at q s.instance_files)
unfolding restore_backup_tree
recovered s t q distinct h =
    rw (← last_file-file_at q s.backups distinct) (recovered_entries s.backups q s t h)

restored_file :
    (orig s t : Trees) (paths applied : List Text) (q : Text)
    → Pending orig paths applied s
    → HasDistinctKeys s.backups
    → restore_backup_tree s ≡ (ok tt, t)
    → (is_some (file_at q orig.instance_files) ≡ true
        → file_at q t.instance_files ≡ file_at q orig.instance_files)
      × (contains q applied ≡ false → file_at q t.instance_files ≡ file_at q orig.instance_files)
restored_file orig s t paths applied q h distinct e =
    ground (arith, recovered s t q distinct e, h.files q)

Pending-each :
    (orig s t : Trees) (paths applied ps : List Text)
    → Pending orig paths applied s
    → each move_staged_into_instance ps s ≡ (ok tt, t)
    → Pending orig paths (applied ++ ps) t
unfolding each
Pending-each orig s t paths applied [] h e =
    subst (λ (ps : List Text). Pending orig paths ps t) (sym (append-nil applied))
      (subst (Pending orig paths applied) (ap (λ (o : Outcome). o.1) e) h)
Pending-each orig s t paths applied (p ∷ ps) h e =
    let (u, first, e1) =
      followed-ok (move_staged_into_instance p s) (each move_staged_into_instance ps) t e in
    let b = Moved-ok (IsStaged p s) s u _ (Moved-move_staged_into_instance p s) first in
    subst (λ (qs : List Text). Pending orig paths qs t) (append_assoc applied (p ∷ []) ps)
      (Pending-each orig u t paths (applied ++ (p ∷ [])) ps
        (Pending-IsStaged orig s u paths applied p h b) e1)

-- The program may stop after any number of the backups and moves of an update that starts without
-- backups. If the recovery of the backups then goes through, every file that the instance had before
-- is as it was, and nothing has changed at a path that no new file was moved to.
pub restore_backup_tree-each :
    (backed_up applied : List Text) (s u v t : Trees) (q : Text)
    → s.backups ≡ []
    → each move_to_backup backed_up s ≡ (ok tt, u)
    → each move_staged_into_instance applied u ≡ (ok tt, v)
    → HasDistinctKeys v.backups
    → restore_backup_tree v ≡ (ok tt, t)
    → (is_some (file_at q s.instance_files) ≡ true
        → file_at q t.instance_files ≡ file_at q s.instance_files)
      × (contains q applied ≡ false → file_at q t.instance_files ≡ file_at q s.instance_files)
restore_backup_tree-each backed_up applied s u v t q fresh saves moves distinct e =
    let start =
      subst (AfterBackups s backed_up backed_up s) saves
        (AfterBackups-each s backed_up backed_up s (λ k h. h) (Pending-start s backed_up fresh)) in
    restored_file s v t backed_up applied q (Pending-each s u v backed_up [] applied start.0 moves)
      distinct e
