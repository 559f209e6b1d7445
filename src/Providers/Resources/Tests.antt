-- ===== src/Providers/Resources/Tests.antt =====
-- A reference that goes up and down again, and one that goes too far.
use central_core.Prelude.{
  ◌≡◌, refl, Option, none, List, [], ◌∷◌, All, Text, text, strings, maps, subst,
}
use central_core.Errors.{ok, err}
use central_core.Files.Path
use central_core.Files.Path.Containment.{IsDirectory, IsPart}
use central_core.Providers.Model.{local}
use central_core.Providers.Resources.{
  path_components, parent_of, strip_prefix, escape, resolve_local,
}
use central_core.Providers.Resources.Laws.{IsBase, IsBelow, resolve_local-IsBelow}

abbrev no_url : Text → Option (Text × Text × Text)
no_url reference = none

resolves :
    resolve_local no_url (text "/p/index.json") (text "/p") (text "a/../mods//b.jar")
    ≡ ok (local (text "/p/mods/b.jar") (text "/p"))
unfolding resolve_local strings maps Path.new
resolves = refl

refuses :
    resolve_local no_url (text "/p/index.json") (text "/p") (text "a/../../b")
    ≡ err (escape (text "a/../../b"))
unfolding resolve_local strings maps Path.new
refuses = refl

root-IsDirectory : IsDirectory (text "/p")
unfolding strings
root-IsDirectory = record { nonempty = λ e. cc e; no_slash = refl }

index-IsBase : IsBase no_url (text "/p/index.json") (text "/p")
unfolding path_components parent_of strip_prefix strings
index-IsBase parent parts e h =
    let same : ◌≡◌ {A = List Text} (text "p" ∷ []) parent = cc e in
    let none_below : ◌≡◌ {A = List Text} [] parts = cc (rw (← same) at h) in
    subst (All IsPart) none_below tt

resolve_local-IsBelow_example : (text "/p" ≡ text "/p") × IsBelow (text "/p") (text "/p/mods/b.jar")
resolve_local-IsBelow_example =
    resolve_local-IsBelow no_url (text "/p/index.json") (text "/p") (text "a/../mods//b.jar")
      (text "/p/mods/b.jar") (text "/p") root-IsDirectory index-IsBase resolves
