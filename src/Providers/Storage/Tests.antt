-- ===== src/Providers/Storage/Tests.antt =====
-- A document is replaced, while an older one is left from a run that was stopped.
use central_core.Prelude.{◌≡◌, refl, false, text}
use central_core.Providers.Storage.{Documents, absent, document, atomic_json, read_with_previous}
use central_core.Providers.Storage.Laws.{IsSafe, last, atomic_json-IsSafe}

abbrev found : Documents
found = record {
  destination = document (text "1");
  temporary = absent;
  previous = document (text "0");
}

replaces :
    last found (atomic_json false (text "p") (text "2") found).states
    ≡ record { destination = document (text "2"); temporary = absent; previous = absent }
unfolding atomic_json
replaces = refl

atomic_json-IsSafe_example :
    IsSafe (text "1") (text "2") found (atomic_json false (text "p") (text "2") found)
unfolding read_with_previous
atomic_json-IsSafe_example = atomic_json-IsSafe false (text "p") (text "1") (text "2") found refl
