-- ===== src/Providers/Manifest/Files/Laws.antt =====
-- What the loops over the files establish.
use central_core.Prelude.{
  ℕ, suc, ◌≤◌, ◌<◌, ◌≡◌, refl, sym, subst, Bool, true, false, ◌||◌, Option, List, [], ◌∷◌, arith,
  All, length, Text, text_eq_iff, contains, contains-insert_set, insert_set, split, IsDistinct, ltb,
  ◌==◌,
}
use central_core.Errors.{Result, ok, >>=-eq-ok, reject-eq-ok}
use central_core.Files.Path
use central_core.Files.Hash
use central_core.Files.Path.Laws.{IsPortable, new_iff}
use central_core.Files.Hash.{HashAlgorithm}
use central_core.Files.Hash.Laws.{IsLowerHex, new_sound}
use central_core.Providers.Model.{ProviderResource, ProviderFile}
use central_core.Providers.Manifest.Files.{
  RawProviderFile, validate_files, validate_file_id, check_optional, required_in, file_id,
}

-- A file of an accepted manifest.
pub record IsValidFile {Url : Type 0} (scope : Option Bool) (max_file_size : ℕ)
    (f : ProviderFile Url) : Type 0 where
  pub portable : All IsPortable (split 0x2f f.path.value)
  pub size : (0 < f.size) × (f.size ≤ max_file_size)
  pub digest :
      (f.sha256.algorithm ≡ HashAlgorithm.sha256)
      × (length f.sha256.value ≡ 64)
      × All IsLowerHex f.sha256.value
  pub required : f.required ≡ required_in scope

module _ {Url : Type 0} where
  abbrev pub paths_of : List (ProviderFile Url) → List Text
  paths_of [] = []
  paths_of (f ∷ fs) = f.path.value ∷ paths_of fs

  -- What a list of files adds to the paths that were seen before.
  pub record Listed (scope : Option Bool) (max_file_size : ℕ) (paths : List Text)
      (after : List Text) (files : List (ProviderFile Url)) : Type 0 where
    pub members : (j : Text) → contains j after ≡ (contains j (paths_of files) || contains j paths)
    pub fresh : (j : Text) → contains j (paths_of files) ≡ true → contains j paths ≡ false
    pub distinct : IsDistinct (paths_of files)
    pub valid : All (IsValidFile scope max_file_size) files

  pub Listed-nil :
      (scope : Option Bool) (max_file_size : ℕ) (paths : List Text)
      → Listed scope max_file_size paths paths []
  unfolding contains
  Listed-nil scope max_file_size paths = record {
    members = λ j. refl;
    fresh = λ j h. absurd (cc);
    distinct = tt;
    valid = tt;
  }

  Listed-cons :
      (scope : Option Bool) (max_file_size : ℕ) (paths after : List Text) (f : ProviderFile Url)
      (fs : List (ProviderFile Url))
      → contains f.path.value paths ≡ false
      → IsValidFile scope max_file_size f
      → Listed scope max_file_size (insert_set f.path.value paths) after fs
      → Listed scope max_file_size paths after (f ∷ fs)
  unfolding contains
  Listed-cons scope max_file_size paths after f fs new valid rest = record {
    members = λ j. ground (arith, rest.members j, contains-insert_set f.path.value j paths);
    fresh = λ j e.
        ground (
          arith,
          rest.fresh j,
          text_eq_iff f.path.value j,
          contains-insert_set f.path.value j paths,
        );
    distinct = (
      ground (
        arith,
        rest.fresh f.path.value,
        contains-insert_set f.path.value f.path.value paths,
        text_eq_iff f.path.value f.path.value,
      ),
      rest.distinct,
    );
    valid = (valid, rest.valid);
  }

  module _ (resolve : Text → Result (ProviderResource Url)) (max_file_size : ℕ) where
    pair-ok :
        (a a' : List Text) (b b' : List (ProviderFile Url))
        → ◌≡◌ {A = Result (List Text × List (ProviderFile Url))} (ok (a, b)) (ok (a', b'))
        → (a ≡ a') × (b ≡ b')
    pair-ok a a' b b' h = ground arith

    sizes :
        (size : ℕ)
        → (size == 0 || ltb max_file_size size) ≡ false
        → (0 < size) × (size ≤ max_file_size)
    sizes size h = ground arith

    IsPortable-new :
        (p : Text) (s : Path.SafeRelativePath)
        → Path.new p ≡ ok s
        → All IsPortable (split 0x2f s.value)
    IsPortable-new p s e =
        let (portable, same) = (new_iff p s).0 e in
        subst (λ t. All IsPortable (split 0x2f t)) (sym same) portable

    pub Listed-validate_files :
        (scope : Option Bool) (index : ℕ) (paths ids after : List Text)
        (raws : List RawProviderFile) (files : List (ProviderFile Url))
        → validate_files resolve max_file_size scope index paths ids raws ≡ ok (after, files)
        → Listed scope max_file_size paths after files
    unfolding validate_files
    Listed-validate_files scope index paths ids after [] files e =
        let (same, nothing) = pair-ok _ _ _ _ e in
        subst (λ a. Listed scope max_file_size paths a files) same
          (subst (λ fs. Listed scope max_file_size paths paths fs) nothing
            (Listed-nil scope max_file_size paths))
    Listed-validate_files scope index paths ids after (raw ∷ raws) files e =
        let (path, e_path, e1) = >>=-eq-ok (Path.new raw.path) _ e in
        let (new_path, e2) = reject-eq-ok (contains path.value paths) _ _ e1 in
        let (size, e3) = reject-eq-ok (raw.size == 0 || ltb max_file_size raw.size) _ _ e2 in
        let (u, e_optional, e4) = >>=-eq-ok (check_optional scope raw path.value) _ e3 in
        let (v, e_id, e5) = >>=-eq-ok (validate_file_id (file_id index raw.id)) _ e4 in
        let (new_id, e6) = reject-eq-ok (contains (file_id index raw.id) ids) _ _ e5 in
        let (source, e_source, e7) = >>=-eq-ok (resolve raw.url) _ e6 in
        let (sha256, e_sha, e8) = >>=-eq-ok (Hash.new HashAlgorithm.sha256 raw.sha256) _ e7 in
        let (rest, e_rest, e9) =
          >>=-eq-ok
            (validate_files resolve max_file_size scope (suc index) (insert_set path.value paths)
              (insert_set (file_id index raw.id) ids) raws)
            _ e8 in
        let (same, files_same) = pair-ok _ _ _ _ e9 in
        let (sha_algorithm, sha_value, sha_length, sha_hex) =
          new_sound HashAlgorithm.sha256 raw.sha256 sha256 e_sha in
        subst (λ a. Listed scope max_file_size paths a files) same
          (subst (λ fs. Listed scope max_file_size paths rest.0 fs) files_same
            (Listed-cons scope max_file_size paths rest.0 _ rest.1 new_path
              (record {
                portable = IsPortable-new raw.path path e_path;
                size = sizes raw.size size;
                digest = (sha_algorithm, sha_length, sha_hex);
                required = refl;
              })
              (Listed-validate_files scope (suc index) _ _ rest.0 raws rest.1 e_rest)))
