-- ===== src/Minecraft/Arguments/Laws.antt =====
-- Quoting is undone by `split_legacy_arguments`.
use mathlib.Core.List.{append_assoc, append-nil}
use central_core.Prelude.{
  ℕ, ◌≡◌, ◌≢◌, refl, sym, ap, ◌∙◌, false, ◌||◌, none, some, List, [], ◌∷◌, ◌++◌, arith, All, Text,
  is_whitespace, ◌==◌, if◌then◌else◌,
}
use central_core.Minecraft.Arguments.{Splitter, step, split_from, finish, split_legacy_arguments}

-- A backslash before every backslash and double quote.
abbrev pub escape : Text → Text
escape [] = []
escape (c ∷ s) = if c == 0x5c || c == 0x22 then 0x5c ∷ c ∷ escape s else c ∷ escape s

-- The arguments in double quotes, with a space after each.
abbrev pub quoted : List Text → Text
quoted [] = []
quoted (a ∷ arguments) = 0x22 ∷ (escape a ++ (0x22 ∷ 0x20 ∷ quoted arguments))

abbrev inside : List Text → Text → Splitter
inside arguments current = record {
  arguments = arguments;
  current = current;
  quote = some 0x22;
  escaped = false;
}

abbrev between : List Text → Text → Splitter
between arguments current = record {
  arguments = arguments;
  current = current;
  quote = none;
  escaped = false;
}

escape-step :
    (arguments : List Text) (current a rest : Text) (c : ℕ)
    → split_from (inside arguments current) (escape (c ∷ a) ++ rest)
      ≡ split_from (inside arguments (current ++ (c ∷ []))) (escape a ++ rest)
unfolding split_from step
escape-step arguments current a rest c = ground arith

split_from-escape :
    (arguments : List Text) (current a rest : Text)
    → split_from (inside arguments current) (escape a ++ rest)
      ≡ split_from (inside arguments (current ++ a)) rest
split_from-escape arguments current [] rest =
    ap (λ t. split_from (inside arguments t) rest) (sym (append-nil current))
split_from-escape arguments current (c ∷ a) rest =
    escape-step arguments current a rest c
    ∙ split_from-escape arguments (current ++ (c ∷ [])) a rest
    ∙ ap (λ t. split_from (inside arguments t) rest) (append_assoc current (c ∷ []) a)

opening :
    (arguments : List Text) (rest : Text)
    → split_from (between arguments []) (0x22 ∷ rest) ≡ split_from (inside arguments []) rest
unfolding split_from step
opening arguments rest = refl

closing :
    (arguments : List Text) (a rest : Text)
    → a ≢ []
    → split_from (inside arguments a) (0x22 ∷ 0x20 ∷ rest)
      ≡ split_from (between (arguments ++ (a ∷ [])) []) rest
unfolding split_from step is_whitespace
closing arguments [] rest nonempty = absurd (nonempty refl)
closing arguments (c ∷ a) rest nonempty = refl

-- From the opening quote of an argument to behind its space.
split_from-argument :
    (arguments : List Text) (a rest : Text)
    → a ≢ []
    → split_from (between arguments []) (0x22 ∷ (escape a ++ (0x22 ∷ 0x20 ∷ rest)))
      ≡ split_from (between (arguments ++ (a ∷ [])) []) rest
split_from-argument arguments a rest nonempty =
    opening arguments (escape a ++ (0x22 ∷ 0x20 ∷ rest))
    ∙ split_from-escape arguments [] a (0x22 ∷ 0x20 ∷ rest)
    ∙ closing arguments a rest nonempty

split_from-quoted :
    (arguments rest : List Text)
    → All (λ a. a ≢ []) rest
    → split_from (between arguments []) (quoted rest) ≡ between (arguments ++ rest) []
unfolding split_from
split_from-quoted arguments [] h = ap (λ x. between x []) (sym (append-nil arguments))
split_from-quoted arguments (a ∷ rest) h =
    split_from-argument arguments a (quoted rest) h.0
    ∙ split_from-quoted (arguments ++ (a ∷ [])) rest h.1
    ∙ ap (λ x. between x []) (append_assoc arguments (a ∷ []) rest)

-- Arguments of which none is empty are read back as they were from their quoted form.
pub split_legacy_arguments-quoted :
    (arguments : List Text)
    → All (λ a. a ≢ []) arguments
    → split_legacy_arguments (quoted arguments) ≡ some arguments
unfolding split_legacy_arguments
split_legacy_arguments-quoted arguments h = ap finish (split_from-quoted [] arguments h)
