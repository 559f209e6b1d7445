-- ===== src/Providers/Network/Tests.antt =====
-- A host that resolves to a loopback address inside an address of the new protocol.
use central_core.Prelude.{
  ◌≡◌, ◌≢◌, ◌↔◌, ◌⊎◌, inl, inr, refl, true, false, none, some, List, [], ◌∷◌, All, Text, text,
  text_eq, strings, if◌then◌else◌,
}
use central_core.Errors.{ok}
use central_core.Providers.Network.{
  IpAddr, v4, UrlOps, NetworkPolicy, is_private_address, is_private_host, validate_remote_access,
}
use central_core.Providers.Network.Addresses.{IsPublic, is_private_host_iff}
use central_core.Providers.Network.Laws.{
  IsAllowed, mapped, found, validate_remote_access_iff, validate_remote_access-mapped,
}

-- A URL is its host. The host "m" resolves to the mapped address and every other one to the address.
abbrev ops : UrlOps Text
ops = record {
  scheme = λ url. text "https";
  username = λ url. [];
  password = λ url. none;
  host_str = λ url. some url;
  path = λ url. text "/";
  query = λ url. none;
  fragment = λ url. none;
  port_or_known_default = λ url. some 443;
  parse_ip = λ host. none;
  lookup_host = λ host port.
      if text_eq host (text "m") then ok (mapped 127 0 0 1 ∷ []) else ok (v4 127 0 0 1 ∷ []);
}

abbrev policy : NetworkPolicy
policy = record { allow_insecure_http = false; allowed_hosts = []; allow_private_networks = false }

allowed : IsAllowed ops policy (text "m")
unfolding strings is_private_host
allowed = record {
  scheme = inl refl;
  userinfo = (refl, refl);
  host = refl;
  nothing_after = (refl, refl);
  listed = inl refl;
  not_private =
      inr (λ private. absurd (cc ((is_private_host_iff ops policy (text "m")).1 private)));
}

loopback : is_private_address (v4 127 0 0 1) ≡ true
unfolding is_private_address
loopback = refl

validate_remote_access_iff_example : (validate_remote_access ops policy (text "m") ≡ ok tt) ↔ (
    IsAllowed ops policy (text "m")
    × ((policy.allow_private_networks ≡ true)
        ⊎ ((addresses : List IpAddr) × (found ops policy (text "m") ≡ ok addresses)
            × All IsPublic addresses)))
validate_remote_access_iff_example = validate_remote_access_iff ops policy (text "m")

validate_remote_access-mapped_example :
    (found ops policy (text "m") ≡ ok (mapped 127 0 0 1 ∷ [])
      → validate_remote_access ops policy (text "m") ≡ ok tt)
    × (found ops policy (text "m") ≡ ok (v4 127 0 0 1 ∷ [])
        → validate_remote_access ops policy (text "m") ≢ ok tt)
validate_remote_access-mapped_example =
    validate_remote_access-mapped ops policy (text "m") 127 0 0 1 allowed refl loopback

accepts : validate_remote_access ops policy (text "m") ≡ ok tt
unfolding strings validate_remote_access
accepts = refl

refuses : validate_remote_access ops policy (text "n") ≢ ok tt
unfolding strings validate_remote_access
refuses = λ h. cc h
