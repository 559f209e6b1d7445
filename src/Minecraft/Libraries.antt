-- ===== src/Minecraft/Libraries.antt =====
-- minecraft/libraries.rs: Maven coordinates and the artifacts of libraries.
pub mod Coordinates
pub mod Laws
use central_core.Prelude.{
  ℕ, ◌&&◌, ◌||◌, Bool, true, false, not, Option, none, some, List, [], ◌∷◌, ◌++◌, find, Text,
  TextMap, text, get, len, starts_with, is_empty, is_some_and, ◌==◌, if◌then◌else◌,
}
use central_core.Errors.{Error, MinecraftError, Result, ok, err, ◌>>=◌, ◌>>◌, reject}
use central_core.Files.Path
use central_core.Files.Hash
use central_core.Files.Path.{SafeRelativePath}
use central_core.Files.Hash.{FileHash, HashAlgorithm}
use central_core.Platform.{Architecture, x86, x86_64, aarch64, arm, other_architecture, Platform}
use central_core.Minecraft.Rules.{Rule, RuleContext, os_name, allows}
use central_core.Minecraft.Arguments.{replace_all}
use central_core.Minecraft.Libraries.Coordinates.{
  Coordinate, coordinate_parts, maven_path, resolution_error,
}

-- The crate url.
pub record UrlCrate (Url : Type 0) : Type 0 where
  pub parse : Text → Option Url
  pub as_str : Url → Text
  pub join : Url → Text → Option Url

abbrev pub default_library_base : Text
default_library_base = text "https://libraries.minecraft.net/"

abbrev pub native_arch : Architecture → Text
native_arch x86 = text "32"
native_arch x86_64 = text "64"
native_arch aarch64 = text "arm64"
native_arch arm = text "arm32"
native_arch other_architecture = text "unknown"

-- `trim_end_matches('/')`
trim_end_slashes : Text → Text
trim_end_slashes [] = []
trim_end_slashes (c ∷ s) =
    let rest = trim_end_slashes s in if c == 0x2f && is_empty rest then [] else c ∷ rest

module _ (Url : Type 0) where
  pub record DownloadInfo : Type 0 where
    pub path : Option Text
    pub url : Url
    pub sha1 : Option Text
    pub size : Option ℕ

  pub record LibraryDownloads : Type 0 where
    pub artifact : Option DownloadInfo
    pub classifiers : TextMap DownloadInfo

  -- `extract` is the list of the exclusions, if the library has extraction rules.
  pub record Library : Type 0 where
    pub name : Text
    pub checksums : List Text
    pub downloads : Option LibraryDownloads
    pub rules : List Rule
    pub natives : TextMap Text
    pub extract : Option (List Text)
    pub url : Option Url

  pub record ResolvedArtifact : Type 0 where
    pub path : SafeRelativePath
    pub url : Url
    pub size : Option ℕ
    pub sha1 : Option FileHash

  pub record ResolvedNative : Type 0 where
    pub archive : ResolvedArtifact
    pub exclusions : List Text

  pub record ResolvedLibrary : Type 0 where
    pub name : Text
    pub artifact : Option ResolvedArtifact
    pub native : Option ResolvedNative

-- `map(..).transpose()`
abbrev pub traverse {ℓ κ} :
    {A : Type ℓ} {B : Type κ} → (A → Result B) → Option A → Result (Option B)
traverse f none = ok none
traverse f (some a) = do b ← f a; ok (some b)

-- `ok()`
abbrev pub to_option {ℓ} : {A : Type ℓ} → Result A → Option A
to_option (ok a) = some a
to_option (err e) = none

abbrev pub parsed {ℓ} : {A : Type ℓ} → Text → Option A → Result A
parsed library none = err (resolution_error library)
parsed library (some a) = ok a

module _ {Url : Type 0} (crate : UrlCrate Url) where
  abbrev relative_path : Option Text → Text → Option Text → Result SafeRelativePath
  relative_path (some path) coordinate classifier = Path.new path
  relative_path none coordinate classifier = do
    path ← maven_path coordinate classifier
    Path.new path

  unfoldable pub resolve_download_info :
      DownloadInfo Url → Text → Option Text → Result (ResolvedArtifact Url)
  resolve_download_info info coordinate classifier = do
    path ← relative_path info.path coordinate classifier
    sha1 ← traverse (Hash.new HashAlgorithm.sha1) info.sha1
    ok (record { path = path; url = info.url; size = info.size; sha1 = sha1 })

  abbrev base_url : Library Url → Option Url → Result Url
  base_url library (some url) = ok url
  base_url library none = parsed library.name (crate.parse default_library_base)

  abbrev legacy_sha1 : Library Url → Option Text → Result (Option FileHash)
  legacy_sha1 library none =
      traverse (Hash.new HashAlgorithm.sha1) (find (λ c. len c == 40) library.checksums)
  legacy_sha1 library (some classifier) = ok none

  unfoldable pub resolve_legacy_artifact : Library Url → Option Text → Result (ResolvedArtifact Url)
  unfolding trim_end_slashes
  resolve_legacy_artifact library classifier = do
    maven ← maven_path library.name classifier
    path ← Path.new maven
    given ← base_url library library.url
    base ← parsed library.name (crate.parse (trim_end_slashes (crate.as_str given) ++ (0x2f ∷ [])))
    url ← parsed library.name (crate.join base path.value)
    sha1 ← legacy_sha1 library classifier
    ok (record { path = path; url = url; size = none; sha1 = sha1 })

  abbrev pub classifier_of : Option Coordinate → Option Text
  classifier_of none = none
  classifier_of (some parts) = parts.classifier

  -- `coordinate_classifier`
  unfoldable pub coordinate_classifier : Library Url → Option Text
  coordinate_classifier library = classifier_of (to_option (coordinate_parts library.name))

  unfoldable pub is_native_coordinate : Library Url → Bool
  unfolding coordinate_classifier
  is_native_coordinate library =
      is_some_and (coordinate_classifier library) (λ c. starts_with c (text "natives-"))

  abbrev artifact_of : Option (LibraryDownloads Url) → Option (DownloadInfo Url)
  artifact_of none = none
  artifact_of (some downloads) = downloads.artifact

  abbrev classifier_download : Text → Option (LibraryDownloads Url) → Option (DownloadInfo Url)
  classifier_download classifier none = none
  classifier_download classifier (some downloads) = get classifier downloads.classifiers

  -- `resolved_main`
  unfoldable pub resolve_main :
      Library Url → Bool → Option (DownloadInfo Url) → Result (Option (ResolvedArtifact Url))
  unfolding resolve_download_info resolve_legacy_artifact
  resolve_main library is_native (some info) = do
    artifact ← resolve_download_info info library.name none
    ok (some artifact)
  resolve_main library true none = ok none
  resolve_main library false none = do
    artifact ← resolve_legacy_artifact library none
    ok (some artifact)

  unfoldable pub resolve_classifier :
      Library Url → Text → Option (DownloadInfo Url) → Result (Option (ResolvedArtifact Url))
  unfolding resolve_download_info resolve_legacy_artifact
  resolve_classifier library classifier (some info) = do
    artifact ← resolve_download_info info library.name (some classifier)
    ok (some artifact)
  resolve_classifier library classifier none = do
    artifact ← resolve_legacy_artifact library (some classifier)
    ok (some artifact)

  abbrev or_legacy : Library Url → Option (ResolvedArtifact Url) → Option (ResolvedArtifact Url)
  or_legacy library (some artifact) = some artifact
  or_legacy library none =
      to_option (resolve_legacy_artifact library (coordinate_classifier library))

  -- `native_artifact`
  unfoldable pub resolve_native :
      Library Url → Option Text → Bool → Result (Option (ResolvedArtifact Url))
  unfolding resolve_classifier resolve_download_info resolve_legacy_artifact coordinate_classifier
  resolve_native library (some classifier) is_native =
      resolve_classifier library classifier (classifier_download classifier library.downloads)
  resolve_native library none true = do
    artifact ←
        traverse (λ info. resolve_download_info info library.name (coordinate_classifier library))
          (artifact_of library.downloads)
    ok (or_legacy library artifact)
  resolve_native library none false = ok none

  abbrev exclusions_of : Option (List Text) → List Text
  exclusions_of none = text "META-INF/" ∷ []
  exclusions_of (some exclude) = exclude

  abbrev native_of : Library Url → Option (ResolvedArtifact Url) → Option (ResolvedNative Url)
  native_of library none = none
  native_of library (some archive) =
      some (record { archive = archive; exclusions = exclusions_of library.extract })

  abbrev native_classifier : Platform → Option Text → Option Text
  native_classifier platform none = none
  native_classifier platform (some classifier) =
      some (replace_all (text "${arch}") (native_arch platform.architecture) classifier)

  unfoldable pub resolve_library : Library Url → Platform → Result (ResolvedLibrary Url)
  unfolding replace_all is_native_coordinate resolve_main resolve_native
  resolve_library library platform =
      let is_native = is_native_coordinate library in
      do
        main ← resolve_main library is_native (artifact_of library.downloads)
        native ←
            resolve_native library
              (native_classifier platform (get (os_name platform.os) library.natives)) is_native
        ok (record {
          name = library.name;
          artifact = if is_native then none else main;
          native = native_of library native;
        })

  module _ (regex : Text → Option (Text → Bool)) (context : RuleContext) where
    unfoldable pub resolve_libraries : List (Library Url) → Result (List (ResolvedLibrary Url))
    unfolding resolve_library
    resolve_libraries [] = ok []
    resolve_libraries (library ∷ libraries) =
        let rest = resolve_libraries libraries in
        if allows regex context library.rules
        then (do
          first ← resolve_library library context.platform
          others ← rest
          ok (first ∷ others))
        else rest
