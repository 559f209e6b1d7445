-- ===== src/Providers/Resources.antt =====
-- providers/service.rs, `resolve_local`: what a reference in a local manifest stands for. `Url::parse`,
-- with the scheme and the text of the URL, is a parameter. `Path` is that of a Unix host, on the text
-- of an absolute path.
pub mod Laws
mod Tests
use mathlib.Core.List.{reverse, foldl}
use central_core.Prelude.{
  ℕ, ◌||◌, Bool, true, false, not, Option, none, some, List, [], ◌∷◌, ◌++◌, retain, Text, text,
  text_eq, is_empty, split, starts_with, contains_char, if◌then◌else◌,
}
use central_core.Errors.{Error, ProviderError, Result, ok, err, ◌>>=◌, ◌>>◌, reject}
use central_core.Files.Path
use central_core.Files.Path.{SafeRelativePath, join}
use central_core.Providers.Model.{ProviderResource, local, remote}

-- `Path::components` of an absolute path, below the root directory
unfoldable pub path_components : Text → List Text
path_components path = retain (λ c. not (is_empty c || text_eq c (text "."))) (split 0x2f path)

-- `Path::parent`: there is none of the root directory.
unfoldable pub parent_of : List Text → Option (List Text)
parent_of [] = none
parent_of (c ∷ []) = some []
parent_of (c ∷ d ∷ cs) = elim (parent_of (d ∷ cs)) [ none ↦ none | some above ↦ some (c ∷ above) ]

-- `Path::strip_prefix`
unfoldable pub strip_prefix : List Text → List Text → Option (List Text)
strip_prefix [] cs = some cs
strip_prefix (r ∷ rs) [] = none
strip_prefix (r ∷ rs) (c ∷ cs) = let rest = strip_prefix rs cs in if text_eq r c then rest else none

abbrev invalid_manifest : Error
invalid_manifest = Error.static_provider ProviderError.invalid_manifest

abbrev pub escape : Text → Error
escape path = Error.static_provider (ProviderError.local_path_escape path)

abbrev pub present_or {ℓ} : {A : Type ℓ} → Error → Option A → Result A
present_or e none = err e
present_or e (some a) = ok a

-- One component of the reference, on the components so far, the last one first.
abbrev pub pop : Text → List Text → Result (List Text)
pop reference [] = err (escape reference)
pop reference (c ∷ above) = ok above

unfoldable pub push : Text → List Text → Result (List Text)
push component above = do relative ← Path.new component; ok (component ∷ above)

unfoldable pub walk_component : Text → Text → List Text → Result (List Text)
unfolding push
walk_component reference component above =
    if is_empty component || text_eq component (text ".")
    then ok above
    else if text_eq component (text "..")
    then pop reference above
    else push component above

unfoldable pub walk : Text → List Text → List Text → Result (List Text)
unfolding walk_component
walk reference [] above = ok above
walk reference (component ∷ components) above = do
  next ← walk_component reference component above
  walk reference components next

module _ {Url : Type 0} (parse_url : Text → Option (Url × Text × Text)) where
  abbrev pub by_scheme : Url × Text × Text → Text → Result (ProviderResource Url)
  by_scheme (url, scheme, printed) reference =
      if text_eq scheme (text "http") || text_eq scheme (text "https")
      then ok (remote url)
      else err (Error.static_provider (ProviderError.url_policy printed))

  abbrev pub located : Text → Text → List Text → Result (ProviderResource Url)
  located root reference [] = err (escape reference)
  located root reference (c ∷ above) = ok (local (foldl join root (reverse (c ∷ above))) root)

  unfoldable pub resolve_path :
      (base_document root reference : Text) → Result (ProviderResource Url)
  unfolding path_components parent_of strip_prefix walk join
  resolve_path base_document root reference = do
    reject
        (starts_with reference (text "/")
          || starts_with reference (0x5c ∷ [])
          || contains_char 0x5c reference
          || contains_char 0 reference)
        invalid_manifest
    parent ← present_or invalid_manifest (parent_of (path_components base_document))
    base_relative ← present_or (escape base_document) (strip_prefix (path_components root) parent)
    components ← walk reference (split 0x2f reference) (reverse base_relative)
    located root reference components

  abbrev pub by_parse :
      (base_document root reference : Text)
      → Option (Url × Text × Text)
      → Result (ProviderResource Url)
  by_parse base_document root reference (some parsed) = by_scheme parsed reference
  by_parse base_document root reference none = resolve_path base_document root reference

  unfoldable pub resolve_local :
      (base_document root reference : Text) → Result (ProviderResource Url)
  unfolding resolve_path
  resolve_local base_document root reference =
      by_parse base_document root reference (parse_url reference)
