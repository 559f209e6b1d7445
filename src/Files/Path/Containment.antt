-- ===== src/Files/Path/Containment.antt =====
-- An accepted path stays below the directory that it is joined to.
use mathlib.Core.List.{foldl, append_assoc, append-nil}
use central_core.Prelude.{
  ◌≡◌, ◌≢◌, refl, sym, ap, ◌∙◌, false, List, [], ◌∷◌, ◌++◌, arith, All, All-zip, Text, starts_with,
  contains_char, ends_with_char, split, prefixed, prefixed-split, split-no_sep,
  ends_with_char-append, ends_with_char_of_contains_char,
}
use central_core.Errors.{ok}
use central_core.Files.Path.{SafeRelativePath, new, join, join_under}
use central_core.Files.Path.Laws.{IsPortable, new_iff}

-- A directory that is written without a slash at its end.
pub record IsDirectory (root : Text) : Type 0 where
  pub nonempty : root ≢ []
  pub no_slash : ends_with_char 0x2f root ≡ false

-- A component of an accepted path.
abbrev pub IsPart : Text → Type 0
IsPart c = IsPortable c × (contains_char 0x2f c ≡ false)

join-part : (root c : Text) → IsDirectory root → IsPart c → join root c ≡ root ++ (0x2f ∷ c)
unfolding join starts_with contains_char
join-part [] c d p = absurd (d.nonempty refl)
join-part (a ∷ root) [] d p = absurd (p.0.nonempty refl)
join-part (a ∷ root) (b ∷ c) d p = ground (arith, d.no_slash)

append-ne-nil : (root c : Text) → (root ++ (0x2f ∷ c)) ≢ []
append-ne-nil [] c = cc
append-ne-nil (a ∷ root) c = cc

IsDirectory-part : (root c : Text) → IsDirectory root → IsPart c → IsDirectory (root ++ (0x2f ∷ c))
unfolding ends_with_char
IsDirectory-part root [] d p = absurd (p.0.nonempty refl)
IsDirectory-part root (b ∷ c) d p = record {
  nonempty = append-ne-nil root (b ∷ c);
  no_slash =
      ends_with_char-append 0x2f 0x2f root (b ∷ c)
      ∙ ends_with_char_of_contains_char 0x2f (b ∷ c) p.1;
}

pub foldl-join :
    (cs : List Text) (root : Text)
    → IsDirectory root
    → All IsPart cs
    → foldl join root cs ≡ root ++ prefixed 0x2f cs
foldl-join [] root d h = sym (append-nil root)
foldl-join (c ∷ cs) root d h =
    ap (λ r. foldl join r cs) (join-part root c d h.0)
    ∙ foldl-join cs (root ++ (0x2f ∷ c)) (IsDirectory-part root c d h.0) h.1
    ∙ append_assoc root (0x2f ∷ c) (prefixed 0x2f cs)

-- Joined to a directory that is written without a slash at its end, an accepted path is the
-- directory, a slash and the path itself, whose components are portable names: none is empty, "."
-- or "..".
pub join_under-new :
    (p : Text) (s : SafeRelativePath) (root : Text)
    → new p ≡ ok s
    → IsDirectory root
    → (join_under s root ≡ root ++ (0x2f ∷ p)) × All IsPortable (split 0x2f p)
unfolding join_under
join_under-new p s root e d =
    let (portable, same) = (new_iff p s).0 e in
    (
      rw same (
          foldl-join (split 0x2f p) root d
            (All-zip IsPortable _ (split 0x2f p) portable (split-no_sep 0x2f p))
          ∙ ap (λ t. root ++ t) (prefixed-split 0x2f p)),
      portable,
    )
