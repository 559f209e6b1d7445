-- ===== src/Minecraft/Natives/Laws.antt =====
-- Where extracted natives land, and how large they are.
use central_core.Prelude.{
  ℕ, ◌+◌, ◌≤◌, ◌≡◌, refl, subst, ◌∙◌, false, Option, List, [], ◌∷◌, ◌++◌, arith, All, All-append,
  Text, split, is_some_and, ltb, Bool-cases, inl, inr,
}
use central_core.Errors.{Error, Result, ok, err, ◌>>◌, reject, ok_or, >>=-eq-ok, reject-eq-ok}
use central_core.Files.Path.{new, join_under}
use central_core.Files.Path.Laws.{IsPortable}
use central_core.Files.Path.Containment.{IsDirectory, join_under-new}
use central_core.Minecraft.Natives.{
  NativeEntry, NativeArchive, Extracted, Extraction, max_native_entry_size, max_native_total_size,
  saturating_add, is_symlink, is_skipped, native_error, entry_name, extract_entry, read,
  extract_entries, extract_archives, extract_natives,
}

-- A file that was written below the destination, of a bounded size.
pub record IsContained (destination : Text) (x : Extracted) : Type 0 where
  pub path : Text
  pub output : x.output ≡ destination ++ (0x2f ∷ path)
  pub portable : All IsPortable (split 0x2f path)
  pub size : x.size ≤ 268435456

abbrev pub total : List Extracted → ℕ
total [] = 0
total (x ∷ xs) = x.size + total xs

total-append : (xs : List Extracted) (x : Extracted) → total (xs ++ (x ∷ [])) ≡ total xs + x.size
total-append [] x = omega arith
total-append (y ∷ xs) x = omega (arith, total-append xs x)

module _ (destination : Text) (directory : IsDirectory destination) where
  record IsBounded (s : Extraction) : Type 0 where
    contained : All (IsContained destination) s.written
    sum : s.total_size ≡ total s.written
    limit : s.total_size ≤ 1073741824

  saturating_add-small :
      (a b : ℕ)
      → ltb max_native_total_size (saturating_add a b) ≡ false
      → (saturating_add a b ≡ a + b) × (a + b ≤ 1073741824)
  unfolding saturating_add
  saturating_add-small a b h = ground arith

  ok_or-eq-ok {ℓ} : {A : Type ℓ} (e : Error) (r : Result A) (a : A) → ok_or e r ≡ ok a → r ≡ ok a
  ok_or-eq-ok e (ok b) a h = h
  ok_or-eq-ok e (err x) a h = cc

  extraction-ok : (a b : Extraction) → ◌≡◌ {A = Result Extraction} (ok a) (ok b) → a ≡ b
  extraction-ok a b h = ground arith

  IsBounded-extract_entry :
      (native : NativeArchive) (s s' : Extraction) (entry : NativeEntry)
      → IsBounded s
      → extract_entry destination native s entry ≡ ok s'
      → IsBounded s'
  unfolding extract_entry
  IsBounded-extract_entry native s s' entry h e = elim (Bool-cases (is_skipped native entry)) [
    | inl skipped ↦ subst IsBounded (extraction-ok s s' (rw skipped at e)) h
    | inr taken ↦
        let e0 : (reject (is_some_and entry.unix_mode is_symlink) (native_error native) >> _)
            ≡ ok s' =
          rw taken at e in
        let (regular, e1) = reject-eq-ok (is_some_and entry.unix_mode is_symlink) _ _ e0 in
        let (small, e2) = reject-eq-ok (ltb max_native_entry_size entry.size) _ _ e1 in
        let (below, e3) =
          reject-eq-ok (ltb max_native_total_size (saturating_add s.total_size entry.size)) _ _
            e2 in
        let (safe, e_safe, e4) =
          >>=-eq-ok (ok_or (native_error native) (new (entry_name entry))) _ e3 in
        let (output, portable) =
          join_under-new (entry_name entry) safe destination (ok_or-eq-ok _ _ safe e_safe)
            directory in
        let (sum, limit) = saturating_add-small s.total_size entry.size below in
        subst IsBounded (extraction-ok _ s' e4) (record {
          contained = All-append (IsContained destination) s.written _ h.contained (
            record {
              path = entry_name entry;
              output = output;
              portable = portable;
              size = ground arith;
            },
            tt,
          );
          sum =
              sum
              ∙ ground (
                arith,
                h.sum,
                total-append s.written
                    (record { output = join_under safe destination; size = entry.size }),
              );
          limit = ground (arith);
        })
  ]

  IsBounded-extract_entries :
      (native : NativeArchive) (s s' : Extraction) (entries : List (Option NativeEntry))
      → IsBounded s
      → extract_entries destination native s entries ≡ ok s'
      → IsBounded s'
  unfolding extract_entries
  IsBounded-extract_entries native s s' [] h e = subst IsBounded (extraction-ok s s' e) h
  IsBounded-extract_entries native s s' (x ∷ entries) h e =
      let (entry, there, e1) = >>=-eq-ok (read native x) _ e in
      let (t, done, e2) = >>=-eq-ok (extract_entry destination native s entry) _ e1 in
      IsBounded-extract_entries native t s' entries
        (IsBounded-extract_entry native s t entry h done) e2

  IsBounded-extract_archives :
      (s s' : Extraction) (archives : List NativeArchive)
      → IsBounded s
      → extract_archives destination s archives ≡ ok s'
      → IsBounded s'
  unfolding extract_archives
  IsBounded-extract_archives s s' [] h e = subst IsBounded (extraction-ok s s' e) h
  IsBounded-extract_archives s s' (native ∷ archives) h e =
      let (contents, there, e1) = >>=-eq-ok (read native native.contents) _ e in
      let (t, done, e2) = >>=-eq-ok (extract_entries destination native s contents) _ e1 in
      IsBounded-extract_archives t s' archives
        (IsBounded-extract_entries native s t contents h done) e2

  IsBounded-nil : IsBounded (record { total_size = 0; written = [] })
  IsBounded-nil = record { contained = tt; sum = refl; limit = omega arith }

  written-ok : (a b : List Extracted) → ◌≡◌ {A = Result (List Extracted)} (ok a) (ok b) → a ≡ b
  written-ok a b h = ground arith

  -- Whatever the archives hold, a successful extraction to a directory written without a slash at
  -- its end has written only files below it, whose paths are portable names between slashes; none
  -- is declared larger than 256 MiB, and all together not larger than 1 GiB.
  pub extract_natives-IsContained :
      (archives : List NativeArchive) (written : List Extracted)
      → extract_natives destination archives ≡ ok written
      → All (IsContained destination) written × (total written ≤ 1073741824)
  unfolding extract_natives
  extract_natives-IsContained archives written e =
      let (s, done, e1) =
        >>=-eq-ok (extract_archives destination (record { total_size = 0; written = [] }) archives)
          _ e in
      let b = IsBounded-extract_archives _ s archives IsBounded-nil done in
      subst (λ w. All (IsContained destination) w × (total w ≤ 1073741824))
        (written-ok _ written e1) (b.contained, omega (arith, b.sum, b.limit))
