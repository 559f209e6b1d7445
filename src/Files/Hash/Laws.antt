-- ===== src/Files/Hash/Laws.antt =====
-- What `FileHash::new` accepts, and that an accepted digest is in normal form.
use central_core.Prelude.{
  ℕ, ◌≤◌, ◌≡◌, ◌⊎◌, refl, sym, ◌∙◌, true, [], ◌∷◌, arith, all, All, length, Text, len,
  is_ascii_hexdigit, to_ascii_lowercase, ascii_lower,
}
use central_core.Errors.{ok}
use central_core.Files.Hash.{HashAlgorithm, FileHash, expected_len, new}

abbrev pub IsLowerHex : ℕ → Type 0
IsLowerHex c = ((0x30 ≤ c) × (c ≤ 0x39)) ⊎ ((0x61 ≤ c) × (c ≤ 0x66))

lower_hex : (c : ℕ) → is_ascii_hexdigit (ascii_lower c) ≡ true → IsLowerHex (ascii_lower c)
unfolding is_ascii_hexdigit ascii_lower
lower_hex c h = ground arith

All-IsLowerHex :
    (t : Text)
    → all is_ascii_hexdigit (to_ascii_lowercase t) ≡ true
    → All IsLowerHex (to_ascii_lowercase t)
unfolding to_ascii_lowercase
All-IsLowerHex [] h = tt
All-IsLowerHex (c ∷ t) h = ground (arith, lower_hex c, All-IsLowerHex t)

pub len_of_hex : (t : Text) → All IsLowerHex t → len t ≡ length t
unfolding len
len_of_hex [] h = refl
len_of_hex (c ∷ t) h = ground (arith, len_of_hex t)

new-eq-ok :
    (a : HashAlgorithm) (t : Text) (h : FileHash)
    → new a t ≡ ok h
    → (h.algorithm ≡ a)
      × (h.value ≡ to_ascii_lowercase t)
      × (len (to_ascii_lowercase t) ≡ expected_len a)
      × (all is_ascii_hexdigit (to_ascii_lowercase t) ≡ true)
unfolding new
new-eq-ok a t h e = ground arith

-- An accepted digest has the algorithm that was asked for, exactly its number of digits, and only
-- lower-case hexadecimal digits; it is the given text in lower case.
pub new_sound :
    (a : HashAlgorithm) (t : Text) (h : FileHash)
    → new a t ≡ ok h
    → (h.algorithm ≡ a)
      × (h.value ≡ to_ascii_lowercase t)
      × (length h.value ≡ expected_len a)
      × All IsLowerHex h.value
new_sound a t h e =
    let (same_algorithm, same_value, size, digits) = new-eq-ok a t h e in
    let hex = All-IsLowerHex t digits in
    (same_algorithm, same_value, rw same_value (sym (len_of_hex _ hex) ∙ size), rw same_value hex)
