-- ===== src/Files/Tests.antt =====
-- A digest in upper case, and a manifest of two files.
use central_core.Prelude.{
  ◌≡◌, ◌↔◌, refl, none, some, [], ◌∷◌, All, length, Text, text, to_ascii_lowercase, strings, maps,
}
use central_core.Errors.{ok}
use central_core.Files.Hash.{FileHash, HashAlgorithm, expected_len, new}
use central_core.Files.Hash.Laws.{IsLowerHex, new_sound}
use central_core.Files.Manifest.{FileEntry, FileManifest, validate}
use central_core.Files.Manifest.Laws.{HasDistinctPaths, validate_iff}

abbrev digest : FileHash
digest = record {
  algorithm = HashAlgorithm.sha1;
  value = text "aabbccddee00112233445566778899aabbccddee";
}

abbrev given : Text
given = text "AABBCCDDEE00112233445566778899aabbccddee"

accepts_digest : new HashAlgorithm.sha1 given ≡ ok digest
unfolding new strings
accepts_digest = refl

new_sound_example :
    (digest.algorithm ≡ HashAlgorithm.sha1)
    × (digest.value ≡ to_ascii_lowercase given)
    × (length digest.value ≡ expected_len HashAlgorithm.sha1)
    × All IsLowerHex digest.value
new_sound_example = new_sound HashAlgorithm.sha1 given digest accepts_digest

abbrev entry : Text → FileEntry Text
entry path = record {
  path = record { value = path };
  url = text "https://example.org";
  size = some 3;
  hash = none;
}

abbrev manifest : FileManifest Text
manifest = record { format_version = 1; files = entry (text "a") ∷ entry (text "b") ∷ [] }

accepts_manifest : validate manifest ≡ ok tt
unfolding validate strings maps
accepts_manifest = refl

validate_iff_example :
    (validate manifest ≡ ok tt) ↔ ((manifest.format_version ≡ 1) × HasDistinctPaths manifest.files)
validate_iff_example = validate_iff manifest
