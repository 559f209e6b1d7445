-- ===== src/Prelude/StringLaws.antt =====
-- Laws of `split`, of the searches for a character and of the suffix test.
use mathlib.Core.Path.{◌≡◌, refl, ap}
use mathlib.Core.Logic.{inl, inr}
use mathlib.Core.Bool.{Bool, false, ◌||◌}
use mathlib.Core.List.{List, [], ◌∷◌, ◌++◌}
use mathlib.Core.Option.{some}
use Prim.Native.Nat.{ℕ}
use native.Mathlib.Omega.{arith}
use central_core.Prelude.Tests.{◌==◌, ==_iff, Bool-cases}
use central_core.Prelude.Lists.{any, All}
use central_core.Prelude.Strings.{Text, split, split_once, cons_head, contains_char, ends_with_char}

-- The pieces again, each behind a separator.
abbrev pub prefixed : ℕ → List Text → Text
prefixed sep [] = []
prefixed sep (t ∷ ts) = sep ∷ (t ++ prefixed sep ts)

prefixed-cons_head :
    (sep c : ℕ) (s : Text) (ts : List Text)
    → prefixed sep ts ≡ sep ∷ s
    → prefixed sep (cons_head c ts) ≡ sep ∷ c ∷ s
prefixed-cons_head sep c s [] h = cc
prefixed-cons_head sep c s (t ∷ ts) h = cc

pub prefixed-split : (sep : ℕ) (s : Text) → prefixed sep (split sep s) ≡ sep ∷ s
unfolding split
prefixed-split sep [] = refl
prefixed-split sep (c ∷ s) = elim (Bool-cases (c == sep)) [
  | inl e ↦ rw e (cc (prefixed-split sep s, (==_iff c sep).0 e))
  | inr e ↦ rw e (prefixed-cons_head sep c s (split sep s) (prefixed-split sep s))
]

module _ (p : ℕ → Bool) (sep : ℕ) (free : p sep ≡ false) where
  any-cons_head : (c : ℕ) (ts : List Text) → any (any p) (cons_head c ts) ≡ (p c || any (any p) ts)
  any-cons_head c [] = ground arith
  any-cons_head c (t ∷ ts) = ground arith

  -- A search that does not look for the separator may go through the pieces.
  pub any-split : (s : Text) → any (any p) (split sep s) ≡ any p s
  unfolding split
  any-split [] = refl
  any-split (c ∷ s) = elim (Bool-cases (c == sep)) [
    | inl e ↦ rw e (ground (arith, any-split s, free, ap p ((==_iff c sep).0 e)))
    | inr e ↦ rw e (ground (arith, any-split s, any-cons_head c (split sep s)))
  ]

any-cons_head_sep :
    (sep c : ℕ) (ts : List Text)
    → (c == sep) ≡ false
    → All (λ t. contains_char sep t ≡ false) ts
    → All (λ t. contains_char sep t ≡ false) (cons_head c ts)
unfolding contains_char
any-cons_head_sep sep c [] e h = (ground arith, tt)
any-cons_head_sep sep c (t ∷ ts) e h = (ground arith, h.1)

pub split-no_sep : (sep : ℕ) (s : Text) → All (λ t. contains_char sep t ≡ false) (split sep s)
unfolding split contains_char
split-no_sep sep [] = (refl, tt)
split-no_sep sep (c ∷ s) = elim (Bool-cases (c == sep)) [
  | inl e ↦ rw e (refl, split-no_sep sep s)
  | inr e ↦ rw e (any-cons_head_sep sep c (split sep s) e (split-no_sep sep s))
]

pub ends_with_char-append :
    (c d : ℕ) (s t : Text) → ends_with_char c (s ++ d ∷ t) ≡ ends_with_char c (d ∷ t)
unfolding ends_with_char
ends_with_char-append c d [] t = refl
ends_with_char-append c d (e ∷ []) t = refl
ends_with_char-append c d (e ∷ f ∷ s) t = ends_with_char-append c d (f ∷ s) t

-- A text with no `c` does not end in `c`.
pub ends_with_char_of_contains_char :
    (c : ℕ) (s : Text) → contains_char c s ≡ false → ends_with_char c s ≡ false
unfolding ends_with_char contains_char
ends_with_char_of_contains_char c [] h = refl
ends_with_char_of_contains_char c (d ∷ []) h = ground arith
ends_with_char_of_contains_char c (d ∷ e ∷ s) h =
    ends_with_char_of_contains_char c (e ∷ s) (ground arith)

pub split_once-append :
    (sep : ℕ) (s t : Text)
    → contains_char sep s ≡ false
    → split_once sep (s ++ (sep ∷ t)) ≡ some (s, t)
unfolding split_once contains_char
split_once-append sep [] t h = ground arith
split_once-append sep (c ∷ s) t h = ground (arith, split_once-append sep s t)

pub split-append :
    (sep : ℕ) (s t : Text)
    → contains_char sep s ≡ false
    → split sep (s ++ (sep ∷ t)) ≡ s ∷ split sep t
unfolding split contains_char
split-append sep [] t h = ground arith
split-append sep (c ∷ s) t h = ground (arith, split-append sep s t)

pub split-whole : (sep : ℕ) (s : Text) → contains_char sep s ≡ false → split sep s ≡ s ∷ []
unfolding split contains_char
split-whole sep [] h = refl
split-whole sep (c ∷ s) h = ground (arith, split-whole sep s)
