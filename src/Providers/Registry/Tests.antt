-- ===== src/Providers/Registry/Tests.antt =====
-- A registry with one remote provider.
use central_core.Prelude.{◌≡◌, refl, false, none, some, [], ◌∷◌, Text, text, strings, maps}
use central_core.Errors.{ok}
use central_core.Trust.Keys.{SignatureAlgorithm}
use central_core.Trust.Store.{Store, get_key}
use central_core.Providers.Verification.{SignaturePolicy}
use central_core.Providers.Network.{UrlOps, NetworkPolicy}
use central_core.Providers.Registry.{
  remote, ProviderRegistration, Registry, provider_added, get_provider, add_with_trust,
}
use central_core.Providers.Registry.Laws.{IsSound, Reach, here, added, get_provider-IsSound}

abbrev ops : UrlOps Text
ops = record {
  scheme = λ url. text "https";
  username = λ url. [];
  password = λ url. none;
  host_str = λ url. some url;
  path = λ url. text "/";
  query = λ url. none;
  fragment = λ url. none;
  port_or_known_default = λ url. some 443;
  parse_ip = λ host. none;
  lookup_host = λ host port. ok [];
}

abbrev policy : NetworkPolicy
policy = record {
  allow_insecure_http = false;
  allowed_hosts = text "H" ∷ [];
  allow_private_networks = false;
}

abbrev trust : Store
trust = record {
  document = some (record {
    format_version = 1;
    keys =
        (
          text "k",
          record {
            id = text "k";
            algorithm = SignatureAlgorithm.ed25519;
            public_key = text "k";
            label = none;
            revoked = false;
            added_unix_seconds = 1;
          },
        )
        ∷ [];
    transitions = [];
  });
  events = [];
}

abbrev empty_registry : Registry Text
empty_registry = record { document = none; events = [] }

abbrev registration : ProviderRegistration Text
registration = record {
  id = text "p";
  source = remote (text "h");
  added_unix_seconds = 3;
  signature_policy = SignaturePolicy.required;
  trusted_key_id = some (text "k");
}

abbrev one : Registry Text
one = record {
  document = some (record { format_version = 1; providers = (text "p", registration) ∷ [] });
  events = provider_added (text "p") ∷ [];
}

adds :
    add_with_trust ops policy
      (λ path. ok path)
      3
      trust
      (text "p")
      (remote (text "h"))
      SignaturePolicy.required
      (some (text "k"))
      empty_registry
    ≡ ok (registration, one)
unfolding add_with_trust strings maps get_key
adds = refl

finds : get_provider (text "p") one ≡ ok registration
unfolding get_provider strings maps
finds = refl

history : Reach ops policy empty_registry one
history =
    added empty_registry one (λ path. ok path) 3 trust (text "p") (remote (text "h"))
      SignaturePolicy.required (some (text "k")) registration here adds

get_provider-IsSound_example : IsSound ops policy (text "p") registration
get_provider-IsSound_example =
    get_provider-IsSound ops policy empty_registry one (text "p") registration refl history finds
