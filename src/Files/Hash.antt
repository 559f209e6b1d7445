-- ===== src/Files/Hash.antt =====
-- crates/centralcore/src/files/mod.rs, `HashAlgorithm` and `FileHash`.
pub mod Laws
use central_core.Prelude.{
  ℕ, ◌||◌, Bool, not, all, Text, len, is_ascii_hexdigit, to_ascii_lowercase, ◌==◌, if◌then◌else◌,
}
use central_core.Errors.{Error, Result, ok, err, ◌>>=◌, ◌>>◌, reject}

pub data HashAlgorithm : Type 0 where
  sha1 sha256 : HashAlgorithm

pub record FileHash : Type 0 where
  pub algorithm : HashAlgorithm
  pub value : Text

abbrev pub expected_len : HashAlgorithm → ℕ
expected_len sha1 = 40
expected_len sha256 = 64

-- `FileHash::new`; deserialisation goes through it too. A byte of a character that is not ASCII
-- is no hexadecimal digit, and neither is the character.
unfoldable pub new : HashAlgorithm → Text → Result FileHash
new algorithm given =
    let value = to_ascii_lowercase given in
    if not (len value == expected_len algorithm) || not (all is_ascii_hexdigit value)
    then err Error.invalid_config
    else ok (record { algorithm = algorithm; value = value })
