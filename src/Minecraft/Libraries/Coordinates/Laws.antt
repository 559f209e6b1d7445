-- ===== src/Minecraft/Libraries/Coordinates/Laws.antt =====
-- Coordinates are read back from their printed form, and the path that they give.
use mathlib.Core.List.{append-nil}
use central_core.Prelude.{
  ℕ, ◌≡◌, refl, ap, ◌∙◌, false, ◌||◌, Option, none, some, [], ◌∷◌, ◌++◌, arith, Text, contains_char,
  split, split-append, split-whole, split_once-append, is_empty, ◌==◌,
}
use central_core.Errors.{ok}
use central_core.Minecraft.Libraries.Coordinates.{
  Coordinate, coordinate_parts, checked_parts, split_extension,
}

-- A part without separators, and not empty.
pub record IsPlain (t : Text) : Type 0 where
  pub nonempty : is_empty t ≡ false
  pub no_colon : contains_char 0x3a t ≡ false
  pub no_at : contains_char 0x40 t ≡ false

abbrev pub IsPlainOption : Option Text → Type 0
IsPlainOption none = Unit
IsPlainOption (some t) = IsPlain t

abbrev classifier_part : Option Text → Text
classifier_part none = []
classifier_part (some t) = 0x3a ∷ t

-- group:artifact:version[:classifier]
abbrev gav : Coordinate → Text
gav c = c.group ++ (0x3a ∷ (c.artifact ++ (0x3a ∷ (c.version ++ classifier_part c.classifier))))

-- With @extension behind it.
abbrev pub printed : Coordinate → Text
printed c = gav c ++ (0x40 ∷ c.extension)

pub record IsPlainCoordinate (c : Coordinate) : Type 0 where
  pub group : IsPlain c.group
  pub artifact : IsPlain c.artifact
  pub version : IsPlain c.version
  pub classifier : IsPlainOption c.classifier

contains_char-append :
    (c : ℕ) (s t : Text) → contains_char c (s ++ t) ≡ (contains_char c s || contains_char c t)
unfolding contains_char
contains_char-append c [] t = refl
contains_char-append c (d ∷ s) t = ground (arith, contains_char-append c s t)

contains_char-cons : (c d : ℕ) (t : Text) → contains_char c (d ∷ t) ≡ (d == c || contains_char c t)
unfolding contains_char
contains_char-cons c d t = refl

no_at-classifier :
    (o : Option Text) → IsPlainOption o → contains_char 0x40 (classifier_part o) ≡ false
unfolding contains_char
no_at-classifier none h = refl
no_at-classifier (some t) h = h.no_at

gav-no_at : (c : Coordinate) → IsPlainCoordinate c → contains_char 0x40 (gav c) ≡ false
gav-no_at c p =
    rw
      (
        contains_char-append,
        contains_char-cons,
        contains_char-append,
        contains_char-cons,
        contains_char-append,
        p.group.no_at,
        p.artifact.no_at,
        p.version.no_at,
        no_at-classifier c.classifier p.classifier,
      )
      refl

version-split :
    (version : Text) (o : Option Text)
    → IsPlain version
    → IsPlainOption o
    → split 0x3a (version ++ classifier_part o)
      ≡ (elim o [ none ↦ version ∷ [] | some t ↦ version ∷ t ∷ [] ])
version-split version none v h =
    ap (split 0x3a) (append-nil version) ∙ split-whole 0x3a version v.no_colon
version-split version (some t) v h =
    split-append 0x3a version t v.no_colon ∙ ap (λ r. version ∷ r) (split-whole 0x3a t h.no_colon)

gav-split :
    (c : Coordinate)
    → IsPlainCoordinate c
    → split 0x3a (gav c) ≡ (
        c.group
        ∷ c.artifact
        ∷ (elim c.classifier [ none ↦ c.version ∷ [] | some t ↦ c.version ∷ t ∷ [] ]))
gav-split c p =
    split-append 0x3a c.group _ p.group.no_colon
    ∙ ap (λ r. c.group ∷ r) (split-append 0x3a c.artifact _ p.artifact.no_colon)
    ∙ ap (λ r. c.group ∷ c.artifact ∷ r)
        (version-split c.version c.classifier p.version p.classifier)

parts-of :
    (c : Coordinate) (o : Option Text)
    → IsPlain c.group
    → IsPlain c.artifact
    → IsPlain c.version
    → IsPlainOption o
    → checked_parts (gav (record c { classifier = o }), c.extension)
      ≡ ok (record c { classifier = o })
parts-of c none g a v h =
    rw
      (
        gav-split (record c { classifier = none })
            (record { group = g; artifact = a; version = v; classifier = h }),
        g.nonempty,
        a.nonempty,
        v.nonempty,
      )
      refl
parts-of c (some t) g a v h =
    rw
      (
        gav-split (record c { classifier = some t })
            (record { group = g; artifact = a; version = v; classifier = h }),
        g.nonempty,
        a.nonempty,
        v.nonempty,
        h.nonempty,
      )
      refl

checked_parts-gav :
    (c : Coordinate) → IsPlainCoordinate c → checked_parts (gav c, c.extension) ≡ ok c
checked_parts-gav c p = parts-of c c.classifier p.group p.artifact p.version p.classifier

-- A coordinate with parts that are not empty and hold neither ":" nor "@" is read back from its
-- printed form group:artifact:version[:classifier]@extension.
pub coordinate_parts-printed :
    (c : Coordinate) → IsPlainCoordinate c → coordinate_parts (printed c) ≡ ok c
unfolding coordinate_parts
coordinate_parts-printed c p =
    ap (λ o. checked_parts (split_extension (printed c) o))
      (split_once-append 0x40 (gav c) c.extension (gav-no_at c p))
    ∙ checked_parts-gav c p
