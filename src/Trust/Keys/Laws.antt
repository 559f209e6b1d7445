-- ===== src/Trust/Keys/Laws.antt =====
-- The key ids that are accepted.
use central_core.Prelude.{
  ℕ, ◌≡◌, ◌↔◌, true, ◌&&◌, not, some, [], ◌∷◌, ◌++◌, arith, all, All, length, Text, text,
  is_ascii_hexdigit, is_ascii_uppercase, Option-cases, inl, inr,
}
use central_core.Errors.{ok}
use central_core.Files.Hash.Laws.{IsLowerHex, len_of_hex}
use central_core.Trust.Keys.{strip_prefix, key_digest, parse_key_id}

strip_prefix_iff : (p s t : Text) → (strip_prefix p s ≡ some t) ↔ (s ≡ p ++ t)
unfolding strip_prefix
strip_prefix_iff [] s t = ground arith
strip_prefix_iff (c ∷ p) [] t = ground arith
strip_prefix_iff (c ∷ p) (d ∷ s) t = ground (arith, strip_prefix_iff p s t)

lower_hex_iff :
    (c : ℕ) → ((is_ascii_hexdigit c && not (is_ascii_uppercase c)) ≡ true) ↔ IsLowerHex c
unfolding is_ascii_hexdigit is_ascii_uppercase
lower_hex_iff c = ground arith

all_lower_hex_iff :
    (t : Text)
    → (all (λ c. is_ascii_hexdigit c && not (is_ascii_uppercase c)) t ≡ true) ↔ All IsLowerHex t
all_lower_hex_iff [] = ground arith
all_lower_hex_iff (c ∷ t) = ground (arith, lower_hex_iff c, all_lower_hex_iff t)

-- A key id is 64 lower-case hexadecimal digits behind "sha256:".
pub record IsKeyId (value : Text) : Type 0 where
  pub digest : Text
  pub whole : value ≡ text "sha256:" ++ digest
  pub size : length digest ≡ 64
  pub digits : All IsLowerHex digest

digest_iff :
    (value digest : Text)
    → (key_digest value (some digest) ≡ ok value) ↔ ((length digest ≡ 64) × All IsLowerHex digest)
digest_iff value digest = ground (arith, all_lower_hex_iff digest, len_of_hex digest)

-- `KeyId::parse` accepts a text, and keeps it as it is, exactly when it is "sha256:" followed by
-- 64 lower-case hexadecimal digits.
pub parse_key_id_iff : (value : Text) → (parse_key_id value ≡ ok value) ↔ IsKeyId value
unfolding parse_key_id
parse_key_id_iff value = (
  (λ h. elim (Option-cases (strip_prefix (text "sha256:") value)) [
    | inl gone ↦ absurd (ground arith)
    | inr (digest, found) ↦
        let facts = (digest_iff value digest).0 (rw found at h) in
        record {
          digest = digest;
          whole = (strip_prefix_iff (text "sha256:") value digest).0 found;
          size = facts.0;
          digits = facts.1;
        }
  ]),
  (λ k.
      rw ((strip_prefix_iff (text "sha256:") value k.digest).1 k.whole)
        ((digest_iff value k.digest).1 (k.size, k.digits))),
)
