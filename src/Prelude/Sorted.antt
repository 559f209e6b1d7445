-- ===== src/Prelude/Sorted.antt =====
-- The order of the keys of a `BTreeMap`: inserting keeps it, and a key stands there once.
use mathlib.Core.Path.{◌≡◌, refl}
use mathlib.Core.Bool.{true, false}
use mathlib.Core.List.{[], ◌∷◌}
use mathlib.Core.Option.{none}
use mathlib.Core.Logic.{inl, inr}
use native.Mathlib.Omega.{arith}
use central_core.Prelude.Tests.{Bool-cases, if_cases}
use central_core.Prelude.Strings.{Text, text_eq, text_eq_iff, text_lt}
use central_core.Prelude.Maps.{TextMap, get, insert, remove_key}

text_lt_irrefl : (s : Text) → text_lt s s ≡ false
unfolding text_lt
text_lt_irrefl [] = refl
text_lt_irrefl (c ∷ s) = ground (arith, text_lt_irrefl s)

text_lt_trans : (r s t : Text) → text_lt r s ≡ true → text_lt s t ≡ true → text_lt r t ≡ true
unfolding text_lt
text_lt_trans [] [] t h k = absurd (cc)
text_lt_trans [] (b ∷ s) [] h k = absurd (cc)
text_lt_trans [] (b ∷ s) (c ∷ t) h k = refl
text_lt_trans (a ∷ r) [] t h k = absurd (cc)
text_lt_trans (a ∷ r) (b ∷ s) [] h k = absurd (cc)
text_lt_trans (a ∷ r) (b ∷ s) (c ∷ t) h k = ground (arith, text_lt_trans r s t)

text_lt_total : (s t : Text) → text_eq s t ≡ false → text_lt t s ≡ false → text_lt s t ≡ true
unfolding text_lt text_eq
text_lt_total [] [] h k = absurd (cc)
text_lt_total [] (c ∷ t) h k = refl
text_lt_total (c ∷ s) [] h k = absurd (cc)
text_lt_total (b ∷ s) (c ∷ t) h k = ground (arith, text_lt_total s t)

module _ {ℓ} {V : Type ℓ} where
  abbrev pub AllAbove : Text → TextMap V → Type 0
  AllAbove k [] = Unit
  AllAbove k ((j, v) ∷ m) = (text_lt k j ≡ true) × AllAbove k m

  abbrev pub IsSorted : TextMap V → Type 0
  IsSorted [] = Unit
  IsSorted ((k, v) ∷ m) = AllAbove k m × IsSorted m

  AllAbove-trans : (i k : Text) (m : TextMap V) → text_lt i k ≡ true → AllAbove k m → AllAbove i m
  AllAbove-trans i k [] h a = tt
  AllAbove-trans i k ((j, v) ∷ m) h a = (text_lt_trans i k j h a.0, AllAbove-trans i k m h a.1)

  AllAbove-insert :
      (i k : Text) (v : V) (m : TextMap V)
      → text_lt i k ≡ true
      → AllAbove i m
      → AllAbove i (insert k v m)
  unfolding insert
  AllAbove-insert i k v [] h a = (h, tt)
  AllAbove-insert i k v ((j, w) ∷ m) h a = elim (Bool-cases (text_eq j k)) [
    | inl e ↦ rw e (h, a.1)
    | inr e ↦ elim (Bool-cases (text_lt k j)) [
      | inl l ↦ rw (e, l) (h, a)
      | inr l ↦ rw (e, l) (a.0, AllAbove-insert i k v m h a.1)
    ]
  ]

  pub IsSorted-insert : (k : Text) (v : V) (m : TextMap V) → IsSorted m → IsSorted (insert k v m)
  unfolding insert
  IsSorted-insert k v [] h = (tt, tt)
  IsSorted-insert k v ((j, w) ∷ m) h = elim (Bool-cases (text_eq j k)) [
    | inl e ↦ rw e (rw (← (text_eq_iff j k).0 e) h)
    | inr e ↦ elim (Bool-cases (text_lt k j)) [
      | inl l ↦ rw (e, l) ((l, AllAbove-trans k j m l h.0), h)
      | inr l ↦
          rw (e, l) (AllAbove-insert j k v m (text_lt_total j k e l) h.0, IsSorted-insert k v m h.1)
    ]
  ]

  pub get-AllAbove : (k : Text) (m : TextMap V) → AllAbove k m → get k m ≡ none
  unfolding get
  get-AllAbove k [] a = refl
  get-AllAbove k ((j, v) ∷ m) a =
      ground (arith, get-AllAbove k m a.1, a.0, text_lt_irrefl k, text_eq_iff j k)

  AllAbove-remove_key : (i k : Text) (m : TextMap V) → AllAbove i m → AllAbove i (remove_key k m)
  unfolding remove_key
  AllAbove-remove_key i k [] a = tt
  AllAbove-remove_key i k ((j, w) ∷ m) a =
      if_cases (AllAbove i) (text_eq j k) (λ e. AllAbove-remove_key i k m a.1)
        (λ e. (a.0, AllAbove-remove_key i k m a.1))

  pub IsSorted-remove_key : (k : Text) (m : TextMap V) → IsSorted m → IsSorted (remove_key k m)
  unfolding remove_key
  IsSorted-remove_key k [] h = tt
  IsSorted-remove_key k ((j, w) ∷ m) h =
      if_cases IsSorted (text_eq j k) (λ e. IsSorted-remove_key k m h.1)
        (λ e. (AllAbove-remove_key j k m h.0, IsSorted-remove_key k m h.1))
