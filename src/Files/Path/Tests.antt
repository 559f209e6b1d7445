-- ===== src/Files/Path/Tests.antt =====
-- Paths of the source's own tests.
use central_core.Prelude.{◌≡◌, ◌↔◌, refl, All, split, ◌++◌, ◌∷◌, text, strings, maps}
use central_core.Errors.{ok, err}
use central_core.Files.Path.{SafeRelativePath, new, join_under, invalid}
use central_core.Files.Path.Laws.{IsPortable, new_iff}
use central_core.Files.Path.Containment.{IsDirectory, join_under-new}

accepts : new (text "mods/example-1.0.jar") ≡ ok (record { value = text "mods/example-1.0.jar" })
unfolding new strings maps
accepts = refl

rejects :
    new (text "mods/CON.txt")
    ≡ err (invalid (text "mods/CON.txt") "component is a reserved Windows device name")
unfolding new strings maps
rejects = refl

joined : join_under (record { value = text "a/b" }) (text "/r") ≡ text "/r/a/b"
unfolding join_under strings
joined = refl

abbrev jar : SafeRelativePath
jar = record { value = text "mods/example-1.0.jar" }

new_iff_example : (new (text "mods/example-1.0.jar") ≡ ok jar) ↔ (
    All IsPortable (split 0x2f (text "mods/example-1.0.jar"))
    × (jar.value ≡ text "mods/example-1.0.jar"))
new_iff_example = new_iff (text "mods/example-1.0.jar") jar

r-IsDirectory : IsDirectory (text "/r")
unfolding strings
r-IsDirectory = record { nonempty = cc; no_slash = refl }

join_under-new_example :
    (join_under jar (text "/r") ≡ text "/r" ++ (0x2f ∷ text "mods/example-1.0.jar"))
    × All IsPortable (split 0x2f (text "mods/example-1.0.jar"))
join_under-new_example =
    join_under-new (text "mods/example-1.0.jar") jar (text "/r") accepts r-IsDirectory
