-- ===== src/Minecraft/Libraries/Laws.antt =====
-- The paths of resolved libraries, and what a native coordinate resolves to.
use mathlib.Core.Option.{some-injective}
use central_core.Prelude.{
  ◌≡◌, refl, sym, subst, Bool, true, false, Option, none, some, arith, All, Text, split, get,
  if◌then◌else◌,
}
use central_core.Errors.{Result, ok, err, >>=-eq-ok}
use central_core.Files.Path
use central_core.Files.Path.Laws.{IsPortable, new_iff}
use central_core.Platform.{Platform}
use central_core.Minecraft.Rules.{os_name}
use central_core.Minecraft.Libraries.Coordinates.{maven_path}
use central_core.Minecraft.Libraries.{
  UrlCrate, DownloadInfo, Library, ResolvedArtifact, ResolvedNative, ResolvedLibrary, traverse,
  to_option, resolve_download_info, resolve_legacy_artifact, resolve_main, resolve_classifier,
  resolve_native, resolve_library, is_native_coordinate, coordinate_classifier, relative_path,
  base_url, parsed, legacy_sha1, or_legacy, artifact_of, native_of, native_classifier,
}

module _ {Url : Type 0} (crate : UrlCrate Url) where
  abbrev IsPortableArtifact : ResolvedArtifact Url → Type 0
  IsPortableArtifact a = All IsPortable (split 0x2f a.path.value)

  abbrev IsPortableOption : Option (ResolvedArtifact Url) → Type 0
  IsPortableOption none = Unit
  IsPortableOption (some a) = IsPortableArtifact a

  -- Its main artifact and its native archive have portable paths.
  pub record IsPortableLibrary (l : ResolvedLibrary Url) : Type 0 where
    pub artifact :
        (a : ResolvedArtifact Url) → l.artifact ≡ some a → All IsPortable (split 0x2f a.path.value)
    pub native : (n : _) → l.native ≡ some n → All IsPortable (split 0x2f n.archive.path.value)

  IsPortable-new :
      (p : Text) (s : Path.SafeRelativePath)
      → Path.new p ≡ ok s
      → All IsPortable (split 0x2f s.value)
  IsPortable-new p s e =
      let (portable, same) = (new_iff p s).0 e in
      subst (λ t. All IsPortable (split 0x2f t)) (sym same) portable

  IsPortable-relative_path :
      (o : Option Text) (coordinate : Text) (classifier : Option Text) (s : Path.SafeRelativePath)
      → relative_path crate o coordinate classifier ≡ ok s
      → All IsPortable (split 0x2f s.value)
  IsPortable-relative_path (some p) coordinate classifier s e = IsPortable-new p s e
  IsPortable-relative_path none coordinate classifier s e =
      let (p, there, e1) = >>=-eq-ok (maven_path coordinate classifier) _ e in IsPortable-new p s e1

  artifact-ok :
      (a b : ResolvedArtifact Url) → ◌≡◌ {A = Result (ResolvedArtifact Url)} (ok a) (ok b) → a ≡ b
  artifact-ok a b h = ground arith

  option-ok :
      (a b : Option (ResolvedArtifact Url))
      → ◌≡◌ {A = Result (Option (ResolvedArtifact Url))} (ok a) (ok b)
      → a ≡ b
  option-ok a b h = ground arith

  IsPortable-resolve_download_info :
      (info : DownloadInfo Url) (coordinate : Text) (classifier : Option Text)
      (a : ResolvedArtifact Url)
      → resolve_download_info crate info coordinate classifier ≡ ok a
      → IsPortableArtifact a
  unfolding resolve_download_info
  IsPortable-resolve_download_info info coordinate classifier a e =
      let (path, e_path, e1) =
        >>=-eq-ok (relative_path crate info.path coordinate classifier) _ e in
      let (sha1, e_sha1, e2) = >>=-eq-ok (traverse _ info.sha1) _ e1 in
      subst IsPortableArtifact (artifact-ok _ a e2)
        (IsPortable-relative_path info.path coordinate classifier path e_path)

  IsPortable-resolve_legacy_artifact :
      (library : Library Url) (classifier : Option Text) (a : ResolvedArtifact Url)
      → resolve_legacy_artifact crate library classifier ≡ ok a
      → IsPortableArtifact a
  unfolding resolve_legacy_artifact
  IsPortable-resolve_legacy_artifact library classifier a e =
      let (maven, e_maven, e1) = >>=-eq-ok (maven_path library.name classifier) _ e in
      let (path, e_path, e2) = >>=-eq-ok (Path.new maven) _ e1 in
      let (given, e_given, e3) = >>=-eq-ok (base_url crate library library.url) _ e2 in
      let (base, e_base, e4) = >>=-eq-ok (parsed library.name (crate.parse _)) _ e3 in
      let (url, e_url, e5) = >>=-eq-ok (parsed library.name (crate.join base path.value)) _ e4 in
      let (sha1, e_sha1, e6) = >>=-eq-ok (legacy_sha1 crate library classifier) _ e5 in
      subst IsPortableArtifact (artifact-ok _ a e6) (IsPortable-new maven path e_path)

  IsPortable-resolve_main :
      (library : Library Url) (is_native : Bool) (info : Option (DownloadInfo Url))
      (o : Option (ResolvedArtifact Url))
      → resolve_main crate library is_native info ≡ ok o
      → IsPortableOption o
  unfolding resolve_main
  IsPortable-resolve_main library is_native (some info) o e =
      let (a, found, e1) = >>=-eq-ok (resolve_download_info crate info library.name none) _ e in
      subst IsPortableOption (option-ok _ o e1)
        (IsPortable-resolve_download_info info library.name none a found)
  IsPortable-resolve_main library true none o e = subst IsPortableOption (option-ok none o e) tt
  IsPortable-resolve_main library false none o e =
      let (a, found, e1) = >>=-eq-ok (resolve_legacy_artifact crate library none) _ e in
      subst IsPortableOption (option-ok _ o e1)
        (IsPortable-resolve_legacy_artifact library none a found)

  IsPortable-resolve_classifier :
      (library : Library Url) (classifier : Text) (info : Option (DownloadInfo Url))
      (o : Option (ResolvedArtifact Url))
      → resolve_classifier crate library classifier info ≡ ok o
      → IsPortableOption o
  unfolding resolve_classifier
  IsPortable-resolve_classifier library classifier (some info) o e =
      let (a, found, e1) =
        >>=-eq-ok (resolve_download_info crate info library.name (some classifier)) _ e in
      subst IsPortableOption (option-ok _ o e1)
        (IsPortable-resolve_download_info info library.name (some classifier) a found)
  IsPortable-resolve_classifier library classifier none o e =
      let (a, found, e1) =
        >>=-eq-ok (resolve_legacy_artifact crate library (some classifier)) _ e in
      subst IsPortableOption (option-ok _ o e1)
        (IsPortable-resolve_legacy_artifact library (some classifier) a found)

  IsPortable-to_option :
      (r : Result (ResolvedArtifact Url))
      → ((a : ResolvedArtifact Url) → r ≡ ok a → IsPortableArtifact a)
      → IsPortableOption (to_option r)
  IsPortable-to_option (ok a) h = h a refl
  IsPortable-to_option (err e) h = tt

  IsPortable-or_legacy :
      (library : Library Url) (o : Option (ResolvedArtifact Url))
      → IsPortableOption o
      → IsPortableOption (or_legacy crate library o)
  IsPortable-or_legacy library (some a) h = h
  IsPortable-or_legacy library none h =
      IsPortable-to_option _
        (IsPortable-resolve_legacy_artifact library (coordinate_classifier crate library))

  IsPortable-traverse :
      (f : DownloadInfo Url → Result (ResolvedArtifact Url)) (info : Option (DownloadInfo Url))
      (o : Option (ResolvedArtifact Url))
      → ((i : DownloadInfo Url) (a : ResolvedArtifact Url) → f i ≡ ok a → IsPortableArtifact a)
      → traverse f info ≡ ok o
      → IsPortableOption o
  IsPortable-traverse f none o h e = subst IsPortableOption (option-ok none o e) tt
  IsPortable-traverse f (some info) o h e =
      let (a, found, e1) = >>=-eq-ok (f info) _ e in
      subst IsPortableOption (option-ok _ o e1) (h info a found)

  IsPortable-resolve_native :
      (library : Library Url) (classifier : Option Text) (is_native : Bool)
      (o : Option (ResolvedArtifact Url))
      → resolve_native crate library classifier is_native ≡ ok o
      → IsPortableOption o
  unfolding resolve_native
  IsPortable-resolve_native library (some classifier) is_native o e =
      IsPortable-resolve_classifier library classifier _ o e
  IsPortable-resolve_native library none true o e =
      let (a, found, e1) =
        >>=-eq-ok
          (traverse
            (λ info.
              resolve_download_info crate info library.name (coordinate_classifier crate library))
            (artifact_of crate library.downloads))
          _ e in
      subst IsPortableOption (option-ok _ o e1) (
        IsPortable-or_legacy library a (
          IsPortable-traverse _ (artifact_of crate library.downloads) a
            (λ i.
              IsPortable-resolve_download_info i library.name (coordinate_classifier crate library))
            found))
  IsPortable-resolve_native library none false o e = subst IsPortableOption (option-ok none o e) tt

  library-ok :
      (a b : ResolvedLibrary Url) → ◌≡◌ {A = Result (ResolvedLibrary Url)} (ok a) (ok b) → a ≡ b
  library-ok a b h = ground arith

  IsPortable-kept :
      (b : Bool) (o : Option (ResolvedArtifact Url))
      → IsPortableOption o
      → (a : ResolvedArtifact Url)
      → ◌≡◌ {A = Option (ResolvedArtifact Url)} (if b then none else o) (some a)
      → All IsPortable (split 0x2f a.path.value)
  IsPortable-kept true o h a e = absurd (cc)
  IsPortable-kept false none h a e = absurd (cc)
  IsPortable-kept false (some b) h a e = subst IsPortableArtifact (some-injective b a e) h

  IsPortable-native_of :
      (library : Library Url) (o : Option (ResolvedArtifact Url))
      → IsPortableOption o
      → (n : ResolvedNative Url) → native_of crate library o ≡ some n
      → All IsPortable (split 0x2f n.archive.path.value)
  IsPortable-native_of library none h n e = absurd (cc)
  IsPortable-native_of library (some a) h n e =
      subst (λ x. IsPortableArtifact x.archive) (some-injective _ n e) h

  dropped :
      (b : Bool) (o : Option (ResolvedArtifact Url))
      → b ≡ true
      → ◌≡◌ {A = Option (ResolvedArtifact Url)} (if b then none else o) none
  dropped true o h = refl
  dropped false o h = cc

  -- Every artifact and native archive of a resolved library has a path of portable names between
  -- slashes, whatever the version metadata says; and a library with a coordinate for natives is
  -- resolved to no artifact on the class path.
  pub resolve_library-IsPortableLibrary :
      (library : Library Url) (platform : Platform) (l : ResolvedLibrary Url)
      → resolve_library crate library platform ≡ ok l
      → IsPortableLibrary l × (is_native_coordinate crate library ≡ true → l.artifact ≡ none)
  unfolding resolve_library
  resolve_library-IsPortableLibrary library platform l e =
      let (main, e_main, e1) =
        >>=-eq-ok
          (resolve_main crate library (is_native_coordinate crate library)
            (artifact_of crate library.downloads))
          _ e in
      let (native, e_native, e2) =
        >>=-eq-ok
          (resolve_native crate library
            (native_classifier crate platform (get (os_name platform.os) library.natives))
            (is_native_coordinate crate library))
          _ e1 in
      let main_portable = IsPortable-resolve_main library _ _ main e_main in
      let native_portable = IsPortable-resolve_native library _ _ native e_native in
      subst
        (λ x. IsPortableLibrary x × (is_native_coordinate crate library ≡ true → x.artifact ≡ none))
        (library-ok _ l e2)
        (
          record {
            artifact = IsPortable-kept (is_native_coordinate crate library) main main_portable;
            native = IsPortable-native_of library native native_portable;
          },
          λ h. dropped (is_native_coordinate crate library) main h,
        )
