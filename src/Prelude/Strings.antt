-- ===== src/Prelude/Strings.antt =====
-- Rust's `str` as the list of its Unicode scalar values. `len` counts the bytes of UTF-8.
use Prim.Native.Nat.{ℕ, zero, suc, ◌+◌, ◌-◌, ◌/◌, ◌%◌}
use Prim.Native.Char.{code}
use Prim.Native.String.{String}
use mathlib.Core.Path.{◌≡◌, refl}
use mathlib.Core.Logic.{◌↔◌}
use mathlib.Core.Bool.{Bool, true, false, ◌&&◌, ◌||◌}
use mathlib.Core.List.{List, [], ◌∷◌, map}
use mathlib.Core.Option.{Option, none, some}
use native.Mathlib.Omega.{arith}
use central_core.Prelude.Tests.{ltb, leb, ◌==◌, if◌then◌else◌}
use central_core.Prelude.Lists.{any, is_empty}

abbrev pub Text : Type 0
Text = List ℕ

-- A literal.
abbrev pub text : String → Text
text String.[] = []
text (String.◌∷◌ c s) = code c ∷ text s

unfoldable pub text_eq : Text → Text → Bool
text_eq [] [] = true
text_eq (a ∷ s) (b ∷ t) = a == b && text_eq s t
text_eq [] (b ∷ t) = false
text_eq (a ∷ s) [] = false

pub text_eq_iff : (s t : Text) → (text_eq s t ≡ true) ↔ (s ≡ t)
unfolding text_eq
text_eq_iff [] [] = ground arith
text_eq_iff [] (b ∷ t) = ground arith
text_eq_iff (a ∷ s) [] = ground arith
text_eq_iff (a ∷ s) (b ∷ t) = ground (arith, text_eq_iff s t)

pub text_eq_refl : (s : Text) → text_eq s s ≡ true
text_eq_refl s = (text_eq_iff s s).1 refl

-- The order of `str`, which is that of its bytes and so that of its scalar values.
unfoldable pub text_lt : Text → Text → Bool
text_lt [] [] = false
text_lt [] (b ∷ t) = true
text_lt (a ∷ s) [] = false
text_lt (a ∷ s) (b ∷ t) = ltb a b || (a == b && text_lt s t)

utf8_len : ℕ → ℕ
utf8_len c = if ltb c 0x80 then 1 else if ltb c 0x800 then 2 else if ltb c 0x10000 then 3 else 4

-- `str::len`
unfoldable pub len : Text → ℕ
unfolding utf8_len
len [] = 0
len (c ∷ s) = utf8_len c + len s

unfoldable pub starts_with : Text → Text → Bool
starts_with s [] = true
starts_with [] (p ∷ ps) = false
starts_with (c ∷ s) (p ∷ ps) = c == p && starts_with s ps

-- `str::contains` and `str::ends_with` of one character
unfoldable pub contains_char : ℕ → Text → Bool
contains_char c s = any (λ d. d == c) s

unfoldable pub ends_with_char : ℕ → Text → Bool
ends_with_char c [] = false
ends_with_char c (d ∷ []) = d == c
ends_with_char c (d ∷ e ∷ s) = ends_with_char c (e ∷ s)

-- `str::split` at a character: never empty.
abbrev pub cons_head : ℕ → List Text → List Text
cons_head c [] = (c ∷ []) ∷ []
cons_head c (t ∷ ts) = (c ∷ t) ∷ ts

unfoldable pub split : ℕ → Text → List Text
split sep [] = [] ∷ []
split sep (c ∷ s) = let rest = split sep s in if c == sep then [] ∷ rest else cons_head c rest

-- `split(sep).next()`
unfoldable pub before : ℕ → Text → Text
before sep [] = []
before sep (c ∷ s) = let rest = before sep s in if c == sep then [] else c ∷ rest

abbrev pub cons_first : ℕ → Option (Text × Text) → Option (Text × Text)
cons_first c none = none
cons_first c (some (s, t)) = some (c ∷ s, t)

-- `str::split_once`
unfoldable pub split_once : ℕ → Text → Option (Text × Text)
split_once sep [] = none
split_once sep (c ∷ s) =
    let rest = split_once sep s in if c == sep then some ([], s) else cons_first c rest

unfoldable pub is_ascii_lowercase : ℕ → Bool
is_ascii_lowercase c = leb 0x61 c && leb c 0x7a

unfoldable pub is_ascii_uppercase : ℕ → Bool
is_ascii_uppercase c = leb 0x41 c && leb c 0x5a

unfoldable pub is_ascii_digit : ℕ → Bool
is_ascii_digit c = leb 0x30 c && leb c 0x39

unfoldable pub is_ascii_hexdigit : ℕ → Bool
unfolding is_ascii_digit
is_ascii_hexdigit c = is_ascii_digit c || (leb 0x41 c && leb c 0x46) || (leb 0x61 c && leb c 0x66)

-- `char::is_control`: the general category Cc
unfoldable pub is_control : ℕ → Bool
is_control c = ltb c 0x20 || (leb 0x7f c && leb c 0x9f)

-- `char::is_whitespace`: the property White_Space
unfoldable pub is_whitespace : ℕ → Bool
is_whitespace c =
    (leb 0x09 c && leb c 0x0d)
    || c == 0x20
    || c == 0x85
    || c == 0xa0
    || c == 0x1680
    || (leb 0x2000 c && leb c 0x200a)
    || c == 0x2028
    || c == 0x2029
    || c == 0x202f
    || c == 0x205f
    || c == 0x3000

unfoldable pub ascii_upper : ℕ → ℕ
ascii_upper c = if leb 0x61 c && leb c 0x7a then c - 32 else c

unfoldable pub ascii_lower : ℕ → ℕ
ascii_lower c = if leb 0x41 c && leb c 0x5a then c + 32 else c

-- `to_ascii_uppercase`, `to_ascii_lowercase`
unfoldable pub to_ascii_uppercase : Text → Text
unfolding ascii_upper
to_ascii_uppercase s = map ascii_upper s

unfoldable pub to_ascii_lowercase : Text → Text
unfolding ascii_lower
to_ascii_lowercase s = map ascii_lower s

-- `str::trim`
trim_start : Text → Text
unfolding is_whitespace
trim_start [] = []
trim_start (c ∷ s) = let rest = trim_start s in if is_whitespace c then rest else c ∷ s

trim_end : Text → Text
unfolding is_whitespace
trim_end [] = []
trim_end (c ∷ s) =
    let rest = trim_end s in if is_whitespace c && is_empty rest then [] else c ∷ rest

unfoldable pub trim : Text → Text
unfolding trim_start trim_end
trim s = trim_start (trim_end s)

-- The decimal digits of a number, before a text. Every step takes a digit, so the number itself
-- plus one is fuel enough.
digits : ℕ → ℕ → Text → Text
digits zero n t = t
digits (suc fuel) n t =
    let rest = digits fuel (n / 10) ((0x30 + (n % 10)) ∷ t) in
    if ltb n 10 then (0x30 + n) ∷ t else rest

-- `to_string` of a number
unfoldable pub decimal : ℕ → Text
unfolding digits
decimal n = digits (suc n) n []

-- All of the functions on text, for the tests that run them.
unfoldable pub strings : Unit {0}
unfolding text_eq text_lt len starts_with contains_char ends_with_char split before split_once
    is_ascii_lowercase is_ascii_uppercase is_ascii_hexdigit is_control is_whitespace
    to_ascii_uppercase to_ascii_lowercase trim decimal
strings = tt
