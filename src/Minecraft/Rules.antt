-- ===== src/Minecraft/Rules.antt =====
-- minecraft/rules.rs: which rules match a host, and what a list of rules allows.
pub mod Laws
use central_core.Prelude.{
  ◌&&◌, ◌||◌, Bool, true, false, not, Option, none, some, List, [], ◌∷◌, all, Text, TextMap, text,
  text_eq, get, is_empty, is_some_and, unwrap_or, if◌then◌else◌,
}
use central_core.Platform.{
  OperatingSystem, windows, linux, mac_os, other_os, Architecture, x86, x86_64, aarch64, arm,
  other_architecture, Platform,
}

pub data RuleAction : Type 0 where
  allow disallow : RuleAction

pub record RuleOs : Type 0 where
  pub name : Option Text
  pub arch : Option Text
  pub version : Option Text

pub record Rule : Type 0 where
  pub action : RuleAction
  pub os : Option RuleOs
  pub features : TextMap Bool

pub record RuleContext : Type 0 where
  pub platform : Platform
  pub os_version : Text
  pub features : TextMap Bool

abbrev pub os_name : OperatingSystem → Text
os_name windows = text "windows"
os_name linux = text "linux"
os_name mac_os = text "osx"
os_name other_os = text "unknown"

unfoldable pub arch_matches : Text → Architecture → Bool
arch_matches value x86 =
    text_eq value (text "x86")
    || text_eq value (text "i386")
    || text_eq value (text "i686")
    || text_eq value (text "32")
arch_matches value x86_64 =
    text_eq value (text "x86_64") || text_eq value (text "amd64") || text_eq value (text "64")
arch_matches value aarch64 = text_eq value (text "aarch64") || text_eq value (text "arm64")
arch_matches value arm = text_eq value (text "arm") || text_eq value (text "arm32")
arch_matches value other_architecture = false

abbrev pub bool_eq : Bool → Bool → Bool
bool_eq true b = b
bool_eq false b = not b

-- `Rule::action == RuleAction::Allow`
abbrev pub is_allow : RuleAction → Bool
is_allow allow = true
is_allow disallow = false

-- The crate regex: `Regex::new`, and `is_match` of what it builds.
module _ (regex : Text → Option (Text → Bool)) where
  abbrev version_matches : Text → Option Text → Bool
  version_matches os_version none = true
  version_matches os_version (some pattern) =
      is_some_and (regex pattern) (λ is_match. is_match os_version)

  abbrev os_matches : RuleContext → Option RuleOs → Bool
  os_matches context none = true
  os_matches context (some os) =
      if is_some_and os.name (λ name. not (text_eq name (os_name context.platform.os)))
      then false
      else if is_some_and os.arch (λ arch. not (arch_matches arch context.platform.architecture))
      then false
      else version_matches context.os_version os.version

  -- `RuleContext::matches`
  unfoldable pub matches : RuleContext → Rule → Bool
  unfolding arch_matches
  matches context rule =
      os_matches context rule.os
      && all (λ feature. bool_eq (unwrap_or (get feature.0 context.features) false) feature.1)
          rule.features

  -- The loop over the rules, with the verdict so far.
  unfoldable pub allows_from : RuleContext → Bool → List Rule → Bool
  unfolding matches
  allows_from context allowed [] = allowed
  allows_from context allowed (rule ∷ rules) =
      allows_from context (if matches context rule then is_allow rule.action else allowed) rules

  -- `RuleContext::allows`
  unfoldable pub allows : RuleContext → List Rule → Bool
  unfolding allows_from
  allows context rules = if is_empty rules then true else allows_from context false rules
