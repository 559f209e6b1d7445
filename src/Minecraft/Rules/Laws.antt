-- ===== src/Minecraft/Rules/Laws.antt =====
-- The last matching rule decides.
use central_core.Prelude.{
  ◌≡◌, refl, ◌∙◌, Bool, false, ◌||◌, Option, none, some, List, [], ◌∷◌, arith, Text, retain,
  is_empty, is_some_and,
}
use central_core.Minecraft.Rules.{Rule, RuleContext, is_allow, matches, allows_from, allows}

abbrev pub last {ℓ} : {A : Type ℓ} → List A → Option A
last [] = none
last (x ∷ []) = some x
last (x ∷ y ∷ xs) = last (y ∷ xs)

module _ (regex : Text → Option (Text → Bool)) (context : RuleContext) where
  abbrev verdict : Bool → Option Rule → Bool
  verdict allowed none = allowed
  verdict allowed (some rule) = is_allow rule.action

  last-cons_of :
      (a b : Bool) (rule : Rule) (rules : List Rule)
      → verdict a (last (rule ∷ rules)) ≡ verdict b (last (rule ∷ rules))
  last-cons_of a b rule [] = refl
  last-cons_of a b rule (x ∷ rules) = last-cons_of a b x rules

  last-cons :
      (allowed : Bool) (rule : Rule) (rules : List Rule)
      → verdict allowed (last (rule ∷ rules)) ≡ verdict (is_allow rule.action) (last rules)
  last-cons allowed rule [] = refl
  last-cons allowed rule (x ∷ rules) = last-cons_of allowed (is_allow rule.action) x rules

  allows_from-last :
      (allowed : Bool) (rules : List Rule)
      → allows_from regex context allowed rules
        ≡ verdict allowed (last (retain (matches regex context) rules))
  unfolding allows_from
  allows_from-last allowed [] = refl
  allows_from-last allowed (rule ∷ rules) = ground (
    arith,
    allows_from-last (is_allow rule.action) rules,
    allows_from-last allowed rules,
    last-cons allowed rule (retain (matches regex context) rules),
  )

  verdict-is_some :
      (o : Option Rule) → verdict false o ≡ is_some_and o (λ rule. is_allow rule.action)
  verdict-is_some none = refl
  verdict-is_some (some rule) = refl

  -- An empty list allows; of any other list the last rule that matches the host decides, and without
  -- a matching rule nothing is allowed.
  pub allows-last :
      (rules : List Rule)
      → allows regex context rules ≡ (
          is_empty rules
          || is_some_and
              (last (retain (matches regex context) rules))
              (λ rule. is_allow rule.action))
  unfolding allows
  allows-last [] = refl
  allows-last (rule ∷ rules) =
      allows_from-last false (rule ∷ rules)
      ∙ verdict-is_some (last (retain (matches regex context) (rule ∷ rules)))
