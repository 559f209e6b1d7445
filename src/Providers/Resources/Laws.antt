-- ===== src/Providers/Resources/Laws.antt =====
-- A local reference never leaves the root of its provider.
use mathlib.Core.List.{reverse, reverse-append, foldl}
use central_core.Prelude.{
  ◌≡◌, ◌≢◌, ◌||◌, refl, sym, subst, ◌∙◌, false, Option, none, some, List, [], ◌∷◌, ◌++◌, All,
  All-append, Text, text, text_eq, is_empty, split, split-whole, split-no_sep, prefixed,
  contains_char, if_cases,
}
use central_core.Errors.{Error, Result, ok, err, >>=-eq-ok, reject-eq-ok}
use central_core.Files.Path
use central_core.Files.Path.{SafeRelativePath, join}
use central_core.Files.Path.Laws.{IsPortable, new_iff}
use central_core.Files.Path.Containment.{IsDirectory, IsPart, foldl-join}
use central_core.Providers.Model.{ProviderResource, local}
use central_core.Providers.Resources.{
  path_components, parent_of, strip_prefix, present_or, pop, push, walk_component, walk, located,
  by_scheme, by_parse, resolve_path, resolve_local,
}

-- The outcome of a walk is made of portable names.
abbrev AllParts : Result (List Text) → Type 0
AllParts (ok cs) = All IsPart cs
AllParts (err e) = Unit

AllParts-pop :
    (reference : Text) (above : List Text) → All IsPart above → AllParts (pop reference above)
AllParts-pop reference [] h = tt
AllParts-pop reference (c ∷ above) h = h.1

AllParts-pushed :
    (component : Text) (above : List Text) (made : Result SafeRelativePath)
    → contains_char 0x2f component ≡ false
    → Path.new component ≡ made
    → All IsPart above
    → AllParts (push component above)
unfolding push
AllParts-pushed component above (err e) plain h a = rw h tt
AllParts-pushed component above (ok made) plain h a = rw h (
  (
    (subst (All IsPortable) (split-whole 0x2f component plain) ((new_iff component made).0 h).0).0,
    plain,
  ),
  a,
)

AllParts-walk_component :
    (reference component : Text) (above : List Text)
    → contains_char 0x2f component ≡ false
    → All IsPart above
    → AllParts (walk_component reference component above)
unfolding walk_component
AllParts-walk_component reference component above plain a =
    if_cases AllParts (is_empty component || text_eq component (text ".")) (λ e. a)
      (λ e.
        if_cases AllParts (text_eq component (text "..")) (λ e2. AllParts-pop reference above a)
          (λ e2. AllParts-pushed component above _ plain refl a))

AllParts-walk :
    (reference : Text) (components above cs : List Text)
    → All (λ c. contains_char 0x2f c ≡ false) components
    → All IsPart above
    → walk reference components above ≡ ok cs
    → All IsPart cs
unfolding walk
AllParts-walk reference [] above cs plain a h = subst (All IsPart) (cc h) a
AllParts-walk reference (c ∷ components) above cs plain a h =
    let (next, first, rest) = >>=-eq-ok (walk_component reference c above) _ h in
    AllParts-walk reference components next cs plain.1
      (subst AllParts first (AllParts-walk_component reference c above plain.0 a)) rest

All-reverse : (cs : List Text) → All IsPart cs → All IsPart (reverse cs)
All-reverse [] h = tt
All-reverse (c ∷ cs) h =
    subst (All IsPart) (sym (reverse-append (c ∷ []) cs))
      (All-append IsPart (reverse cs) (c ∷ []) (All-reverse cs h.1) (h.0, tt))

present_or-eq-ok {ℓ} :
    {A : Type ℓ} (e : Error) (o : Option A) {a : A} → present_or e o ≡ ok a → o ≡ some a
present_or-eq-ok e none h = absurd (cc h)
present_or-eq-ok e (some b) h = cc h

-- A path is the root, and below it one or more portable names behind slashes.
pub record IsBelow (root path : Text) : Type 0 where
  pub parts : List Text
  pub nonempty : parts ≢ []
  pub portable : All IsPart parts
  pub same : path ≡ root ++ prefixed 0x2f parts

reverse-ne-nil : (c : Text) (cs : List Text) → reverse (c ∷ cs) ≢ []
reverse-ne-nil c cs e = append-ne-nil (reverse cs) c (sym (reverse-append (c ∷ []) cs) ∙ e)
  where
    append-ne-nil : (xs : List Text) (x : Text) → (xs ++ (x ∷ [])) ≢ []
    append-ne-nil [] x = cc
    append-ne-nil (y ∷ xs) x = cc

module _ {Url : Type 0} (parse_url : Text → Option (Url × Text × Text)) where
  IsBelow-located :
      (root reference : Text) (cs : List Text) (path kept : Text)
      → IsDirectory root
      → All IsPart cs
      → located parse_url root reference cs ≡ ok (local path kept)
      → (kept ≡ root) × IsBelow root path
  IsBelow-located root reference [] path kept d h e = absurd (cc e)
  IsBelow-located root reference (c ∷ cs) path kept d h e =
      let made : foldl join root (reverse (c ∷ cs)) ≡ path = cc e in
      (
        cc e,
        record {
          parts = reverse (c ∷ cs);
          nonempty = reverse-ne-nil c cs;
          portable = All-reverse (c ∷ cs) h;
          same = sym made ∙ foldl-join (reverse (c ∷ cs)) root d (All-reverse (c ∷ cs) h);
        },
      )

  -- The names between the root and the document that a reference stands in are portable.
  abbrev pub IsBase : (base_document root : Text) → Type 0
  IsBase base_document root =
      (parent parts : List Text)
      → parent_of (path_components base_document) ≡ some parent
      → strip_prefix (path_components root) parent ≡ some parts
      → All IsPart parts

  IsBelow-resolve_path :
      (base_document root reference path kept : Text)
      → IsDirectory root
      → IsBase base_document root
      → resolve_path parse_url base_document root reference ≡ ok (local path kept)
      → (kept ≡ root) × IsBelow root path
  unfolding resolve_path
  IsBelow-resolve_path base_document root reference path kept d base h =
      let (plain, h1) = reject-eq-ok _ _ _ h in
      let (parent, above, h2) =
        >>=-eq-ok (present_or _ (parent_of (path_components base_document))) _ h1 in
      let (parts, below, h3) =
        >>=-eq-ok (present_or _ (strip_prefix (path_components root) parent)) _ h2 in
      let (cs, walked, made) =
        >>=-eq-ok (walk reference (split 0x2f reference) (reverse parts)) _ h3 in
      IsBelow-located root reference cs path kept d
        (AllParts-walk reference (split 0x2f reference) (reverse parts) cs
          (split-no_sep 0x2f reference)
          (All-reverse parts
            (base parent parts (present_or-eq-ok _ _ above) (present_or-eq-ok _ _ below)))
          walked)
        made

  not-local-by_scheme :
      (parsed : Url × Text × Text) (reference path kept : Text)
      → by_scheme parse_url parsed reference ≢ ok (local path kept)
  not-local-by_scheme (url, scheme, printed) reference path kept =
      if_cases (λ (r : Result (ProviderResource Url)). r ≢ ok (local path kept))
        (text_eq scheme (text "http") || text_eq scheme (text "https")) (λ e h. cc h) (λ e h. cc h)

  IsBelow-by_parse :
      (base_document root reference path kept : Text) (parsed : Option (Url × Text × Text))
      → IsDirectory root
      → IsBase base_document root
      → by_parse parse_url base_document root reference parsed ≡ ok (local path kept)
      → (kept ≡ root) × IsBelow root path
  IsBelow-by_parse base_document root reference path kept (some parsed) d base h =
      absurd (not-local-by_scheme parsed reference path kept h)
  IsBelow-by_parse base_document root reference path kept none d base h =
      IsBelow-resolve_path base_document root reference path kept d base h

  -- A reference in a local manifest that is resolved to a local path keeps the root and stays below
  -- it: the path is the root and one or more portable names, none of them "..", whatever the
  -- reference has. The document of the manifest lies below the root, by portable names.
  pub resolve_local-IsBelow :
      (base_document root reference path kept : Text)
      → IsDirectory root
      → IsBase base_document root
      → resolve_local parse_url base_document root reference ≡ ok (local path kept)
      → (kept ≡ root) × IsBelow root path
  unfolding resolve_local
  resolve_local-IsBelow base_document root reference path kept d base h =
      IsBelow-by_parse base_document root reference path kept (parse_url reference) d base h
