-- ===== src/Minecraft/Libraries/Coordinates.antt =====
-- minecraft/libraries.rs: `coordinate_parts` and `maven_path`.
pub mod Laws
use central_core.Prelude.{
  ◌||◌, Bool, not, Option, none, some, List, [], ◌∷◌, ◌++◌, any, map, Text, text, split, split_once,
  is_empty, ◌==◌, if◌then◌else◌,
}
use central_core.Errors.{Error, MinecraftError, Result, ok, err, ◌>>=◌, ◌>>◌, reject}

pub record Coordinate : Type 0 where
  pub group : Text
  pub artifact : Text
  pub version : Text
  pub classifier : Option Text
  pub extension : Text

abbrev pub resolution_error : Text → Error
resolution_error library = Error.minecraft (MinecraftError.library_resolution library)

-- The part before the "@" and the extension.
abbrev pub split_extension : Text → Option (Text × Text) → Text × Text
split_extension coordinate none = (coordinate, text "jar")
split_extension coordinate (some parts) = parts

abbrev pub of_parts : Text → Text → List Text → Result Coordinate
of_parts coordinate extension (group ∷ artifact ∷ version ∷ []) = ok (record {
  group = group;
  artifact = artifact;
  version = version;
  classifier = none;
  extension = extension;
})
of_parts coordinate extension (group ∷ artifact ∷ version ∷ classifier ∷ []) = ok (record {
  group = group;
  artifact = artifact;
  version = version;
  classifier = some classifier;
  extension = extension;
})
of_parts coordinate extension _ = err (resolution_error coordinate)

abbrev pub checked_parts : Text × Text → Result Coordinate
checked_parts (coordinate, extension) =
    let parts = split 0x3a coordinate in
    if any is_empty parts
    then err (resolution_error coordinate)
    else of_parts coordinate extension parts

unfoldable pub coordinate_parts : Text → Result Coordinate
coordinate_parts coordinate =
    checked_parts (split_extension coordinate (split_once 0x40 coordinate))

abbrev pub or_else {ℓ} : {A : Type ℓ} → Option A → Option A → Option A
or_else none o = o
or_else (some a) o = some a

abbrev pub classifier_suffix : Option Text → Text
classifier_suffix none = []
classifier_suffix (some value) = 0x2d ∷ value

-- `group.replace('.', "/")`
abbrev pub group_path : Text → Text
group_path group = map (λ c. if c == 0x2e then 0x2f else c) group

abbrev pub path_of : Coordinate → Option Text → Text
path_of parts classifier =
    group_path parts.group
    ++ (0x2f
        ∷ (parts.artifact
            ++ (0x2f
                ∷ (parts.version
                    ++ (0x2f
                        ∷ (parts.artifact
                            ++ (0x2d
                                ∷ (parts.version
                                    ++ (classifier_suffix (or_else classifier parts.classifier)
                                        ++ (0x2e ∷ parts.extension))))))))))

unfoldable pub maven_path : Text → Option Text → Result Text
unfolding coordinate_parts
maven_path coordinate classifier = do
  parts ← coordinate_parts coordinate
  ok (path_of parts classifier)
