-- ===== src/Minecraft/Arguments.antt =====
-- minecraft/arguments.rs: conditional arguments, variables, and legacy argument strings.
pub mod Laws
use central_core.Prelude.{
  ℕ, zero, suc, ◌-◌, ◌&&◌, ◌||◌, Bool, true, false, not, Option, none, some, List, [], ◌∷◌, ◌++◌,
  map, Text, TextMap, starts_with, is_empty, is_some, is_whitespace, length, ◌==◌, if◌then◌else◌,
}
use central_core.Minecraft.Rules.{Rule, RuleContext, allows}

pub data ArgumentValue : Type 0 where
  one : Text → ArgumentValue
  many : List Text → ArgumentValue

pub data Argument : Type 0 where
  plain : Text → Argument
  conditional : List Rule → ArgumentValue → Argument

-- `ArgumentValue::values`
abbrev pub values_of : ArgumentValue → List Text
values_of (one value) = value ∷ []
values_of (many values) = values

-- `str::replace` of a pattern that is not empty: the matches from left to right. After a match the
-- rest of the pattern is skipped; `skip` counts what is left of it.
replace_from : Text → Text → ℕ → Text → Text
replace_from pattern by skip [] = []
replace_from pattern by (suc skip) (c ∷ s) = replace_from pattern by skip s
replace_from pattern by zero (c ∷ s) =
    let after = replace_from pattern by (length pattern - 1) s in
    let rest = replace_from pattern by zero s in
    if starts_with (c ∷ s) pattern then by ++ after else c ∷ rest

-- `str::replace`
unfoldable pub replace_all : Text → Text → Text → Text
unfolding replace_from
replace_all pattern by s = replace_from pattern by zero s

-- "${name}"
abbrev pub placeholder : Text → Text
placeholder name = 0x24 ∷ 0x7b ∷ (name ++ (0x7d ∷ []))

unfoldable pub substitute : Text → TextMap Text → Text
unfolding replace_all
substitute value [] = value
substitute value ((name, replacement) ∷ variables) =
    substitute (replace_all (placeholder name) replacement value) variables

unfoldable pub resolve_arguments :
    (Text → Option (Text → Bool)) → RuleContext → TextMap Text → List Argument → List Text
unfolding substitute
resolve_arguments regex rules variables [] = []
resolve_arguments regex rules variables (plain value ∷ arguments) =
    substitute value variables ∷ resolve_arguments regex rules variables arguments
resolve_arguments regex rules variables (conditional argument_rules value ∷ arguments) =
    let rest = resolve_arguments regex rules variables arguments in
    if allows regex rules argument_rules
    then map (λ v. substitute v variables) (values_of value) ++ rest
    else rest

-- The variables of the loop of `split_legacy_arguments`.
pub record Splitter : Type 0 where
  pub arguments : List Text
  pub current : Text
  pub quote : Option ℕ
  pub escaped : Bool

abbrev pub push : ℕ → Splitter → Splitter
push c s = record s { current = s.current ++ (c ∷ []) }

abbrev pub flush : Splitter → Splitter
flush s =
    if is_empty s.current
    then s
    else record s { arguments = s.arguments ++ (s.current ∷ []); current = [] }

-- A quote character: it closes the quote it opened, opens one, or stands for itself.
abbrev pub quote_step : ℕ → Option ℕ → Splitter → Splitter
quote_step c none s = record s { quote = some c }
quote_step c (some q) s = if q == c then record s { quote = none } else push c s

unfoldable pub step : ℕ → Splitter → Splitter
step c s =
    if s.escaped
    then record (push c s) { escaped = false }
    else if c == 0x5c
    then record s { escaped = true }
    else if c == 0x27 || c == 0x22
    then quote_step c s.quote s
    else if is_whitespace c && not (is_some s.quote)
    then flush s
    else push c s

unfoldable pub split_from : Splitter → Text → Splitter
unfolding step
split_from s [] = s
split_from s (c ∷ value) = split_from (step c s) value

-- `none` is the error "unterminated escape or quote in legacy arguments".
abbrev pub finish : Splitter → Option (List Text)
finish s = if s.escaped || is_some s.quote then none else some (flush s).arguments

unfoldable pub split_legacy_arguments : Text → Option (List Text)
unfolding split_from
split_legacy_arguments value =
    finish
      (split_from (record { arguments = []; current = []; quote = none; escaped = false }) value)
