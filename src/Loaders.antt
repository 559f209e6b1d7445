-- ===== src/Loaders.antt =====
-- crates/centralcore/src/loaders/mod.rs, `LoaderKind` and `LoaderConfig`.
use central_core.Prelude.{
  ◌||◌, Bool, not, Text, text, text_eq, len, all, ltb, is_empty, to_ascii_lowercase,
  is_ascii_lowercase, is_ascii_uppercase, is_ascii_digit, ◌==◌, ℕ, if◌then◌else◌,
}
use central_core.Errors.{Error, LoaderError, Result, ok, err, ◌>>◌, reject}

pub data LoaderKind : Type 0 where
  fabric forge neo_forge quilt : LoaderKind

pub record LoaderConfig : Type 0 where
  pub kind : LoaderKind
  pub version : Text

-- `LoaderKind::from_str`
unfoldable pub loader_kind : Text → Result LoaderKind
loader_kind value =
    let lower = to_ascii_lowercase value in
    if text_eq lower (text "fabric")
    then ok LoaderKind.fabric
    else if text_eq lower (text "forge")
    then ok LoaderKind.forge
    else if text_eq lower (text "neoforge")
    then ok LoaderKind.neo_forge
    else if text_eq lower (text "quilt")
    then ok LoaderKind.quilt
    else err (Error.loader_plan (LoaderError.unsupported_kind value))

is_version_char : ℕ → Bool
is_version_char c =
    is_ascii_lowercase c
    || is_ascii_uppercase c
    || is_ascii_digit c
    || c == 0x2e
    || c == 0x2d
    || c == 0x5f
    || c == 0x2b

-- `LoaderConfig::new`
unfoldable pub loader_config : LoaderKind → Text → Result LoaderConfig
unfolding is_version_char
loader_config kind version = do
  reject
      (text_eq (to_ascii_lowercase version) (text "latest")
        || is_empty version
        || ltb 128 (len version)
        || not (all is_version_char version))
      (Error.loader_plan (LoaderError.invalid_version version))
  ok (record { kind = kind; version = version })
