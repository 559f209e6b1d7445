-- ===== src/Minecraft/Tests.antt =====
-- The inputs of the source's own tests, and the theorems at them.
use central_core.Prelude.{
  ◌≤◌, ◌≡◌, refl, ◌||◌, Bool, true, false, none, some, Option, List, [], ◌∷◌, All, Text, text,
  strings, maps, is_empty, is_some_and, retain,
}
use central_core.Errors.{ok}
use central_core.Platform.{Platform, linux, x86_64, windows}
use central_core.Files.Path.{new, join_under}
use central_core.Files.Path.Containment.{IsDirectory}
use central_core.Minecraft.Rules.{Rule, RuleContext, allow, disallow, allows, matches, is_allow}
use central_core.Minecraft.Rules.Laws.{last, allows-last}
use central_core.Minecraft.Arguments.{split_legacy_arguments, substitute}
use central_core.Minecraft.Arguments.Laws.{quoted, split_legacy_arguments-quoted}
use central_core.Minecraft.Natives.{NativeArchive, Extracted, extract_natives}
use central_core.Minecraft.Natives.Laws.{IsContained, total, extract_natives-IsContained}
use central_core.Minecraft.Libraries.Coordinates.{Coordinate, coordinate_parts, maven_path}
use central_core.Minecraft.Libraries.Coordinates.Laws.{
  IsPlainCoordinate, printed, coordinate_parts-printed,
}
use central_core.Minecraft.Libraries.{
  UrlCrate, Library, ResolvedLibrary, resolve_library, is_native_coordinate,
}
use central_core.Minecraft.Libraries.Laws.{IsPortableLibrary, resolve_library-IsPortableLibrary}

-- A pattern is taken for the text that it matches.
abbrev literal : Text → Option (Text → Bool)
literal pattern = some (λ version. is_empty pattern || is_empty version)

abbrev host : RuleContext
host = record {
  platform = record { os = linux; architecture = x86_64 };
  os_version = text "6.8";
  features = (text "is_demo_user", true) ∷ [];
}

abbrev rules : List Rule
rules =
    record {
      action = allow;
      os =
          some (record { name = some (text "linux"); arch = some (text "x86_64"); version = none });
      features = [];
    }
    ∷ record { action = disallow; os = none; features = (text "is_demo_user", false) ∷ [] }
    ∷ []

allows_in_order : allows literal host rules ≡ true
unfolding allows strings maps
allows_in_order = refl

allows-last_example : allows literal host rules ≡ (
    is_empty rules
    || is_some_and (last (retain (matches literal host) rules)) (λ rule. is_allow rule.action))
allows-last_example = allows-last literal host rules

splits_quoted :
    split_legacy_arguments (text "--username \"Central Corp\" --demo")
    ≡ some (text "--username" ∷ text "Central Corp" ∷ text "--demo" ∷ [])
unfolding split_legacy_arguments strings
splits_quoted = refl

substitutes :
    substitute (text "--user ${name}!") ((text "name", text "Steve") ∷ []) ≡ text "--user Steve!"
unfolding substitute strings
substitutes = refl

split_legacy_arguments-quoted_example :
    split_legacy_arguments (quoted (text "--name" ∷ text "a \"b\" \\c" ∷ []))
    ≡ some (text "--name" ∷ text "a \"b\" \\c" ∷ [])
split_legacy_arguments-quoted_example =
    split_legacy_arguments-quoted (text "--name" ∷ text "a \"b\" \\c" ∷ []) (cc, (cc, tt))

maven :
    maven_path (text "org.lwjgl:lwjgl:3.3.3") (some (text "natives-windows"))
    ≡ ok (text "org/lwjgl/lwjgl/3.3.3/lwjgl-3.3.3-natives-windows.jar")
unfolding maven_path strings
maven = refl

abbrev demo : Coordinate
demo = record {
  group = text "com.example";
  artifact = text "demo";
  version = text "1.0";
  classifier = some (text "all");
  extension = text "zip";
}

demo-IsPlainCoordinate : IsPlainCoordinate demo
unfolding strings
demo-IsPlainCoordinate = record {
  group = record { nonempty = refl; no_colon = refl; no_at = refl };
  artifact = record { nonempty = refl; no_colon = refl; no_at = refl };
  version = record { nonempty = refl; no_colon = refl; no_at = refl };
  classifier = record { nonempty = refl; no_colon = refl; no_at = refl };
}

coordinate_parts-printed_example : coordinate_parts (printed demo) ≡ ok demo
coordinate_parts-printed_example = coordinate_parts-printed demo demo-IsPlainCoordinate

abbrev archive : NativeArchive
archive = record {
  path = text "natives.jar";
  exclusions = text "META-INF/" ∷ [];
  contents = some (
      some (record { name = text "META-INF/a"; is_dir = false; unix_mode = none; size = 5 })
      ∷ some (record { name = text "lib\\x.so"; is_dir = false; unix_mode = some 33188; size = 7 })
      ∷ []);
}

abbrev extracted : List Extracted
extracted = record { output = text "/n/lib/x.so"; size = 7 } ∷ []

extracts : extract_natives (text "/n") (archive ∷ []) ≡ ok extracted
unfolding extract_natives strings maps new join_under
extracts = refl

n-IsDirectory : IsDirectory (text "/n")
unfolding strings
n-IsDirectory = record { nonempty = cc; no_slash = refl }

extract_natives-IsContained_example :
    All (IsContained (text "/n")) extracted × (total extracted ≤ 1073741824)
extract_natives-IsContained_example =
    extract_natives-IsContained (text "/n") n-IsDirectory (archive ∷ []) extracted extracts

-- Urls as text.
abbrev texts : UrlCrate Text
texts = record { parse = λ t. some t; as_str = λ u. u; join = λ u p. some p }

abbrev native_library : Library Text
native_library = record {
  name = text "org.example:native:1.0";
  checksums = [];
  downloads = none;
  rules = [];
  natives = (text "windows", text "natives-windows-${arch}") ∷ [];
  extract = none;
  url = none;
}

abbrev windows_host : Platform
windows_host = record { os = windows; architecture = x86_64 }

abbrev resolved : ResolvedLibrary Text
resolved = record {
  name = text "org.example:native:1.0";
  artifact = some (record {
    path = record { value = text "org/example/native/1.0/native-1.0.jar" };
    url = text "org/example/native/1.0/native-1.0.jar";
    size = none;
    sha1 = none;
  });
  native = some (record {
    archive = record {
      path = record { value = text "org/example/native/1.0/native-1.0-natives-windows-64.jar" };
      url = text "org/example/native/1.0/native-1.0-natives-windows-64.jar";
      size = none;
      sha1 = none;
    };
    exclusions = text "META-INF/" ∷ [];
  });
}

resolves : resolve_library texts native_library windows_host ≡ ok resolved
unfolding resolve_library strings maps coordinate_parts maven_path new
resolves = refl

resolve_library-IsPortableLibrary_example :
    IsPortableLibrary texts resolved
    × (is_native_coordinate texts native_library ≡ true → resolved.artifact ≡ none)
resolve_library-IsPortableLibrary_example =
    resolve_library-IsPortableLibrary texts native_library windows_host resolved resolves
