-- ===== src/Providers/Ids/Tests.antt =====
-- The identifiers of the source's own tests.
use central_core.Prelude.{◌≡◌, ◌↔◌, refl, text, strings}
use central_core.Errors.{Error, ProviderError, ok, err}
use central_core.Providers.Ids.{provider_id, ProviderInstanceId, display, from_str}
use central_core.Providers.Ids.Laws.{IsValid, from_str_iff}

accepts : provider_id (text "example-network") ≡ ok (text "example-network")
unfolding provider_id strings
accepts = refl

rejects :
    provider_id (text "-bad") ≡ err (Error.static_provider (ProviderError.invalid_id (text "-bad")))
unfolding provider_id strings
rejects = refl

parses :
    from_str (text "example:survival")
    ≡ ok (record { provider_id = text "example"; instance_id = text "survival" })
unfolding from_str strings
parses = refl

abbrev survival : ProviderInstanceId
survival = record { provider_id = text "example"; instance_id = text "survival" }

from_str_iff_example :
    (from_str (text "example:survival") ≡ ok survival)
    ↔ ((display survival ≡ text "example:survival") × IsValid survival)
from_str_iff_example = from_str_iff (text "example:survival") survival
