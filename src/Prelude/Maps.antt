-- ===== src/Prelude/Maps.antt =====
-- `BTreeMap` and `BTreeSet` with text keys: lists in the order of the keys.
use mathlib.Core.Path.{◌≡◌, refl, subst}
use mathlib.Core.Bool.{Bool, true, false, ◌||◌}
use mathlib.Core.List.{List, [], ◌∷◌, ◌++◌}
use mathlib.Core.Option.{Option, none, some}
use mathlib.Core.Logic.{inl, inr}
use Prim.Native.Nat.{ℕ, suc, ◌≤◌, ◌<◌}
use native.Mathlib.Omega.{arith}
use central_core.Prelude.Tests.{if◌then◌else◌, is_some, Bool-cases}
use central_core.Prelude.Lists.{All, length}
use central_core.Prelude.Strings.{Text, text_eq, text_eq_iff, text_lt}

abbrev pub TextMap {ℓ} : Type ℓ → Type ℓ
TextMap V = List (Text × V)

module _ {ℓ} {V : Type ℓ} where
  unfoldable pub get : Text → TextMap V → Option V
  get k [] = none
  get k ((j, v) ∷ m) = if text_eq j k then some v else get k m

  -- `insert` replaces the value of a key that is there, and keeps the order of the keys.
  unfoldable pub insert : Text → V → TextMap V → TextMap V
  insert k v [] = (k, v) ∷ []
  insert k v ((j, w) ∷ m) =
      let rest = insert k v m in
      if text_eq j k then (k, v) ∷ m else if text_lt k j then (k, v) ∷ (j, w) ∷ m else (j, w) ∷ rest

  unfoldable pub remove_key : Text → TextMap V → TextMap V
  remove_key k [] = []
  remove_key k ((j, w) ∷ m) =
      let rest = remove_key k m in if text_eq j k then rest else (j, w) ∷ rest

  abbrev pub keys : TextMap V → List Text
  keys [] = []
  keys ((k, v) ∷ m) = k ∷ keys m

  abbrev pub values : TextMap V → List V
  values [] = []
  values ((k, v) ∷ m) = v ∷ values m

  pub get-insert :
      (k j : Text) (v : V) (m : TextMap V)
      → get j (insert k v m) ≡ (if text_eq k j then some v else get j m)
  unfolding get insert
  get-insert k j v [] = refl
  get-insert k j v ((i, w) ∷ m) =
      ground (arith, text_eq_iff k j, text_eq_iff i k, text_eq_iff i j, get-insert k j v m)

  pub get-insert_self : (k : Text) (v : V) (m : TextMap V) → get k (insert k v m) ≡ some v
  get-insert_self k v m = ground (arith, get-insert k k v m, text_eq_iff k k)

  pub get-remove_key :
      (k j : Text) (m : TextMap V)
      → get j (remove_key k m) ≡ (if text_eq k j then none else get j m)
  unfolding get remove_key
  get-remove_key k j [] = ground arith
  get-remove_key k j ((i, w) ∷ m) =
      ground (arith, text_eq_iff k j, text_eq_iff i k, text_eq_iff i j, get-remove_key k j m)

-- Membership in a list or a set of texts.
unfoldable pub contains : Text → List Text → Bool
contains k [] = false
contains k (j ∷ s) = text_eq j k || contains k s

-- `BTreeSet::insert`
unfoldable pub insert_set : Text → List Text → List Text
insert_set k [] = k ∷ []
insert_set k (j ∷ s) =
    let rest = insert_set k s in
    if text_eq j k then j ∷ s else if text_lt k j then k ∷ j ∷ s else j ∷ rest

pub contains-insert_set :
    (k j : Text) (s : List Text) → contains j (insert_set k s) ≡ (text_eq k j || contains j s)
unfolding contains insert_set
contains-insert_set k j [] = refl
contains-insert_set k j (i ∷ s) =
    ground (arith, text_eq_iff k j, text_eq_iff i k, text_eq_iff i j, contains-insert_set k j s)

pub contains-append :
    (k : Text) (s t : List Text) → contains k (s ++ t) ≡ (contains k s || contains k t)
unfolding contains
contains-append k [] t = refl
contains-append k (j ∷ s) t = ground (arith, contains-append k s t)

-- What a set holds, read off a predicate on its elements and the other way round.
pub All-contains {κ} :
    (P : Text → Type κ) (k : Text) (s : List Text) → All P s → contains k s ≡ true → P k
unfolding contains
All-contains P k [] h e = cc
All-contains P k (j ∷ s) h e = elim (Bool-cases (text_eq j k)) [
  | inl same ↦ subst P ((text_eq_iff j k).0 same) h.0
  | inr other ↦ All-contains P k s h.1 (ground arith)
]

pub All-of_contains {κ} :
    (P : Text → Type κ) (s : List Text) → ((k : Text) → contains k s ≡ true → P k) → All P s
unfolding contains
All-of_contains P [] h = tt
All-of_contains P (j ∷ s) h =
    (h j (ground (arith, text_eq_iff j j)), All-of_contains P s (λ k e. h k (ground arith)))

module _ {ℓ} {V : Type ℓ} where
  pub contains-keys : (k : Text) (m : TextMap V) → contains k (keys m) ≡ is_some (get k m)
  unfolding contains get
  contains-keys k [] = refl
  contains-keys k ((j, v) ∷ m) = ground (arith, contains-keys k m)

module _ {ℓ} {V : Type ℓ} where
  pub length-keys : (m : TextMap V) → length (keys m) ≡ length m
  length-keys [] = refl
  length-keys ((k, v) ∷ m) = ground (arith, length-keys m)

-- No text stands twice in the list.
abbrev pub IsDistinct : List Text → Type 0
IsDistinct [] = Unit
IsDistinct (k ∷ ks) = (contains k ks ≡ false) × IsDistinct ks

pub IsDistinct-append :
    (s t : List Text)
    → IsDistinct s
    → IsDistinct t
    → ((k : Text) → contains k t ≡ true → contains k s ≡ false)
    → IsDistinct (s ++ t)
unfolding contains
IsDistinct-append [] t hs ht apart = ht
IsDistinct-append (k ∷ s) t hs ht apart = (
  ground (arith, contains-append k s t, apart k, text_eq_iff k k),
  IsDistinct-append s t hs.1 ht (λ j e. ground (arith, apart j)),
)

-- How many of the keys a set lacks.
abbrev pub missing : List Text → List Text → ℕ
missing [] s = 0
missing (k ∷ ks) s = if contains k s then missing ks s else suc (missing ks s)

pub missing-insert_set-le :
    (ks : List Text) (d : Text) (s : List Text) → missing ks (insert_set d s) ≤ missing ks s
missing-insert_set-le [] d s = omega arith
missing-insert_set-le (k ∷ ks) d s =
    ground (arith, contains-insert_set d k s, missing-insert_set-le ks d s)

pub missing-insert_set-lt :
    (ks : List Text) (d : Text) (s : List Text)
    → contains d ks ≡ true
    → contains d s ≡ false
    → missing ks (insert_set d s) < missing ks s
unfolding contains
missing-insert_set-lt [] d s h e = cc
missing-insert_set-lt (k ∷ ks) d s h e = ground (
  arith,
  contains-insert_set d k s,
  text_eq_iff k d,
  missing-insert_set-le ks d s,
  missing-insert_set-lt ks d s,
)

pub missing-le : (ks s : List Text) → missing ks s ≤ length ks
missing-le [] s = omega arith
missing-le (k ∷ ks) s = ground (arith, missing-le ks s)

-- All of the functions on maps and sets, for the tests that run them.
unfoldable pub maps : Unit {0}
unfolding get insert remove_key contains insert_set
maps = tt
