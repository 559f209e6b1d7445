-- ===== src/Files/Path.antt =====
-- crates/centralcore/src/files/mod.rs, `SafeRelativePath` and `validate_relative_path`.
-- `PathBuf::join` is that of a Unix host, on the text of the path.
pub mod Laws
pub mod Containment
mod Tests
use mathlib.Core.List.{foldl}
use central_core.Prelude.{
  ℕ, String, ◌&&◌, ◌||◌, Bool, List, [], ◌∷◌, ◌++◌, any, Text, text, text_eq, contains, starts_with,
  contains_char, ends_with_char, split, before, is_control, to_ascii_uppercase, is_empty, ◌==◌,
  if◌then◌else◌,
}
use central_core.Errors.{Error, Result, ok, err, ◌>>=◌, ◌>>◌, reject}

pub record SafeRelativePath : Type 0 where
  pub value : Text

-- The characters of `matches!` in `validate_relative_path`: < > : " | ? *
pub is_non_portable : ℕ → Bool
is_non_portable c =
    is_control c
    || c == 0x3c
    || c == 0x3e
    || c == 0x3a
    || c == 0x22
    || c == 0x7c
    || c == 0x3f
    || c == 0x2a

abbrev pub reserved_names : List Text
reserved_names =
    text "CON"
    ∷ text "PRN"
    ∷ text "AUX"
    ∷ text "NUL"
    ∷ text "COM1"
    ∷ text "COM2"
    ∷ text "COM3"
    ∷ text "COM4"
    ∷ text "COM5"
    ∷ text "COM6"
    ∷ text "COM7"
    ∷ text "COM8"
    ∷ text "COM9"
    ∷ text "LPT1"
    ∷ text "LPT2"
    ∷ text "LPT3"
    ∷ text "LPT4"
    ∷ text "LPT5"
    ∷ text "LPT6"
    ∷ text "LPT7"
    ∷ text "LPT8"
    ∷ text "LPT9"
    ∷ []

-- The closure `invalid`.
abbrev pub invalid : Text → String → Error
invalid path reason = Error.invalid_relative_path path reason

-- One round of the loop over the components.
pub validate_component : Text → Text → Result (Unit {0})
validate_component path component = do
  reject (is_empty component || text_eq component (text ".") || text_eq component (text ".."))
      (invalid path "empty, current, and parent components are forbidden")
  reject (any is_non_portable component)
      (invalid path "component contains a non-portable character")
  reject (ends_with_char 0x2e component || ends_with_char 0x20 component)
      (invalid path "component has a non-portable suffix")
  reject (contains (to_ascii_uppercase (before 0x2e component)) reserved_names)
      (invalid path "component is a reserved Windows device name")

pub validate_components : Text → List Text → Result (Unit {0})
validate_components path [] = ok tt
validate_components path (c ∷ cs) = validate_component path c >> validate_components path cs

unfoldable pub validate_relative_path : Text → Result (Unit {0})
unfolding validate_components validate_component
validate_relative_path path = do
  reject (is_empty path) (invalid path "path is empty")
  reject (starts_with path (text "/") || starts_with path (0x5c ∷ []))
      (invalid path "absolute paths are forbidden")
  reject (contains_char 0x5c path) (invalid path "backslash separators are forbidden")
  reject (contains_char 0 path) (invalid path "NUL bytes are forbidden")
  validate_components path (split 0x2f path)

-- `SafeRelativePath::new`; deserialisation goes through it too.
unfoldable pub new : Text → Result SafeRelativePath
unfolding validate_relative_path is_non_portable
new path = do validate_relative_path path; ok (record { value = path })

-- `Path::join`: an absolute part replaces the path.
unfoldable pub join : Text → Text → Text
join path part =
    if starts_with part (text "/")
    then part
    else if is_empty path || ends_with_char 0x2f path
    then path ++ part
    else path ++ (0x2f ∷ part)

unfoldable pub join_under : SafeRelativePath → Text → Text
unfolding join
join_under path root = foldl join root (split 0x2f path.value)
