-- ===== src/Providers/Update/Tree.antt =====
-- A directory as the entries below it, by their paths; and `ensure_real_parents` of
-- providers/service.rs. No entry lies below a file or a symbolic link.
use central_core.Prelude.{
  ◌≡◌, ◌≢◌, refl, Bool, true, false, Option, none, some, List, [], ◌∷◌, ◌++◌, ◌∙◌, arith, Text,
  TextMap, text_eq, text_eq_iff, get, insert, remove_key, get-insert, get-remove_key, split,
  if◌then◌else◌,
}
use central_core.Errors.{Error, Result, ok, err}

-- A symbolic link says whether its target exists.
pub data Entry : Type 0 where
  directory : Entry
  file : Text → Entry
  symlink : Bool → Entry

abbrev pub Tree : Type 0
Tree = TextMap Entry

-- The content of the file that an entry is.
abbrev pub content : Option Entry → Option Text
content (some (file c)) = some c
content (some directory) = none
content (some (symlink b)) = none
content none = none

abbrev pub file_at : Text → Tree → Option Text
file_at path tree = content (get path tree)

-- `try_exists`, which follows links
abbrev pub exists : Option Entry → Bool
exists none = false
exists (some (symlink target)) = target
exists (some directory) = true
exists (some (file c)) = true

abbrev pub unsafe_entry : Text → Error
unsafe_entry path = Error.unsafe_filesystem_entry path

-- The paths of the directories above a path, from the root down.
abbrev below : Text → Text → Text
below [] part = part
below (c ∷ path) part = (c ∷ path) ++ (0x2f ∷ part)

unfoldable pub parents : Text → List Text → List Text
parents current [] = []
parents current (part ∷ []) = []
parents current (part ∷ next ∷ parts) =
    below current part ∷ parents (below current part) (next ∷ parts)

-- One round: a missing directory is created.
unfoldable pub ensure_directory : Text → Option Entry → Tree → Result (Unit {0}) × Tree
ensure_directory path none tree = (ok tt, insert path directory tree)
ensure_directory path (some directory) tree = (ok tt, tree)
ensure_directory path (some (file c)) tree = (err (unsafe_entry path), tree)
ensure_directory path (some (symlink b)) tree = (err (unsafe_entry path), tree)

-- A step, and what follows it if it succeeds.
abbrev pub followed {ℓ} :
    {S : Type ℓ} → Result (Unit {0}) × S → (S → Result (Unit {0}) × S) → Result (Unit {0}) × S
followed (err e, s) next = (err e, s)
followed (ok u, s) next = next s

unfoldable pub ensure_directories : List Text → Tree → Result (Unit {0}) × Tree
unfolding ensure_directory
ensure_directories [] tree = (ok tt, tree)
ensure_directories (path ∷ paths) tree =
    followed (ensure_directory path (get path tree) tree) (ensure_directories paths)

unfoldable pub ensure_real_parents : Text → Tree → Result (Unit {0}) × Tree
unfolding ensure_directories parents
ensure_real_parents relative tree = ensure_directories (parents [] (split 0x2f relative)) tree

-- Creating directories changes no file.
file_at-ensure_directory :
    (path q : Text) (o : Option Entry) (tree : Tree)
    → get path tree ≡ o
    → file_at q (ensure_directory path o tree).1 ≡ file_at q tree
unfolding ensure_directory
file_at-ensure_directory path q none tree h =
    ground (arith, get-insert path q directory tree, text_eq_iff path q)
file_at-ensure_directory path q (some directory) tree h = refl
file_at-ensure_directory path q (some (file c)) tree h = refl
file_at-ensure_directory path q (some (symlink b)) tree h = refl

file_at-followed :
    (q : Text) (r : Result (Unit {0}) × Tree) (next : Tree → Result (Unit {0}) × Tree)
    → ((t : Tree) → file_at q (next t).1 ≡ file_at q t)
    → file_at q (followed r next).1 ≡ file_at q r.1
file_at-followed q (err e, s) next h = refl
file_at-followed q (ok u, s) next h = h s

pub file_at-ensure_directories :
    (q : Text) (paths : List Text) (tree : Tree)
    → file_at q (ensure_directories paths tree).1 ≡ file_at q tree
unfolding ensure_directories
file_at-ensure_directories q [] tree = refl
file_at-ensure_directories q (path ∷ paths) tree =
    file_at-followed q _ _ (file_at-ensure_directories q paths)
    ∙ file_at-ensure_directory path q (get path tree) tree refl

pub file_at-ensure_real_parents :
    (q relative : Text) (tree : Tree)
    → file_at q (ensure_real_parents relative tree).1 ≡ file_at q tree
unfolding ensure_real_parents
file_at-ensure_real_parents q relative tree = file_at-ensure_directories q _ tree

pub file_at-insert :
    (p q c : Text) (tree : Tree)
    → file_at q (insert p (file c) tree) ≡ (if text_eq p q then some c else file_at q tree)
file_at-insert p q c tree = ground (arith, get-insert p q (file c) tree)

pub file_at-remove_key :
    (p q : Text) (tree : Tree)
    → file_at q (remove_key p tree) ≡ (if text_eq p q then none else file_at q tree)
file_at-remove_key p q tree = ground (arith, get-remove_key p q tree)

-- No entry is a symbolic link.
abbrev is_link : Option Entry → Bool
is_link none = false
is_link (some directory) = false
is_link (some (file c)) = false
is_link (some (symlink b)) = true

abbrev pub HasNoLinks : Tree → Type 0
HasNoLinks tree = (q : Text) → is_link (get q tree) ≡ false

HasNoLinks-ensure_directory :
    (path : Text) (o : Option Entry) (tree : Tree)
    → HasNoLinks tree
    → HasNoLinks (ensure_directory path o tree).1
unfolding ensure_directory
HasNoLinks-ensure_directory path none tree h q =
    ground (arith, get-insert path q directory tree, h q)
HasNoLinks-ensure_directory path (some directory) tree h q = h q
HasNoLinks-ensure_directory path (some (file c)) tree h q = h q
HasNoLinks-ensure_directory path (some (symlink b)) tree h q = h q

HasNoLinks-followed :
    (r : Result (Unit {0}) × Tree) (next : Tree → Result (Unit {0}) × Tree)
    → ((t : Tree) → HasNoLinks t → HasNoLinks (next t).1)
    → HasNoLinks r.1
    → HasNoLinks (followed r next).1
HasNoLinks-followed (err e, t) next h k = k
HasNoLinks-followed (ok u, t) next h k = h t k

HasNoLinks-ensure_directories :
    (paths : List Text) (tree : Tree)
    → HasNoLinks tree
    → HasNoLinks (ensure_directories paths tree).1
unfolding ensure_directories
HasNoLinks-ensure_directories [] tree h = h
HasNoLinks-ensure_directories (path ∷ paths) tree h =
    HasNoLinks-followed _ _ (HasNoLinks-ensure_directories paths)
      (HasNoLinks-ensure_directory path (get path tree) tree h)

pub HasNoLinks-ensure_real_parents :
    (relative : Text) (tree : Tree)
    → HasNoLinks tree
    → HasNoLinks (ensure_real_parents relative tree).1
unfolding ensure_real_parents
HasNoLinks-ensure_real_parents relative tree = HasNoLinks-ensure_directories _ tree

pub HasNoLinks-insert :
    (p c : Text) (tree : Tree) → HasNoLinks tree → HasNoLinks (insert p (file c) tree)
HasNoLinks-insert p c tree h q = ground (arith, get-insert p q (file c) tree, h q)

pub HasNoLinks-remove_key :
    (p : Text) (tree : Tree) → HasNoLinks tree → HasNoLinks (remove_key p tree)
HasNoLinks-remove_key p tree h q = ground (arith, get-remove_key p q tree, h q)

pub HasNoLinks-link :
    (p : Text) (b : Bool) (tree : Tree) → HasNoLinks tree → get p tree ≢ some (symlink b)
HasNoLinks-link p b tree h e = ground (arith, h p)
