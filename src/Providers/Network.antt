-- ===== src/Providers/Network.antt =====
-- providers/service.rs: which remote URLs a provider may name, `validate_remote_url_syntax` and
-- `validate_remote_access`. The crate `url`, the parser of addresses and the resolver of names are
-- parameters. Of an error the reason is left out.
pub mod Laws
pub mod Addresses
mod Tests
use central_core.Prelude.{
  ℕ, ◌*◌, ◌/◌, ◌+◌, Bool, true, false, ◌&&◌, ◌||◌, not, any, is_some, is_some_and, Option, none,
  some, List, [], ◌∷◌, ◌++◌, Text, text, text_eq, is_empty, unwrap_or, to_ascii_lowercase, ◌==◌,
  leb,
}
use central_core.Errors.{Error, ProviderError, Result, ok, err, ◌>>=◌, ◌>>◌, reject}

-- Four octets, and eight segments of sixteen bits.
pub data IpAddr : Type 0 where
  v4 : (a b c d : ℕ) → IpAddr
  v6 : (a b c d e f g h : ℕ) → IpAddr

-- `Ipv4Addr::is_private`, `is_loopback`, `is_link_local` and `is_unspecified`, and the rest
unfoldable pub is_private_v4 : (a b c d : ℕ) → Bool
is_private_v4 a b c d =
    a == 10
    || (a == 172 && (leb 16 b && leb b 31))
    || (a == 192 && b == 168)
    || a == 127
    || (a == 169 && b == 254)
    || (a == 0 && b == 0 && c == 0 && d == 0)
    || a == 0
    || leb 224 a

-- The masks clear the low nine and the low six bits.
unfoldable pub is_private_v6 : (a b c d e f g h : ℕ) → Bool
is_private_v6 a b c d e f g h =
    (a == 0 && b == 0 && c == 0 && d == 0 && e == 0 && f == 0 && g == 0 && h == 1)
    || (a == 0 && b == 0 && c == 0 && d == 0 && e == 0 && f == 0 && g == 0 && h == 0)
    || (a / 0x200) * 0x200 == 0xfc00
    || (a / 0x40) * 0x40 == 0xfe80

unfoldable pub is_private_address : IpAddr → Bool
unfolding is_private_v4 is_private_v6
is_private_address (v4 a b c d) = is_private_v4 a b c d
is_private_address (v6 a b c d e f g h) = is_private_v6 a b c d e f g h

-- What the crate `url` tells of a URL, and the parser and the resolver of the system.
pub record UrlOps (Url : Type 0) : Type 0 where
  pub scheme : Url → Text
  pub username : Url → Text
  pub password : Url → Option Text
  pub host_str : Url → Option Text
  pub path : Url → Text
  pub query : Url → Option Text
  pub fragment : Url → Option Text
  pub port_or_known_default : Url → Option ℕ
  pub parse_ip : Text → Option IpAddr
  pub lookup_host : Text → ℕ → Result (List IpAddr)

pub record NetworkPolicy : Type 0 where
  pub allow_insecure_http : Bool
  pub allowed_hosts : List Text
  pub allow_private_networks : Bool

unfoldable pub eq_ignore_ascii_case : Text → Text → Bool
eq_ignore_ascii_case s t = text_eq (to_ascii_lowercase s) (to_ascii_lowercase t)

-- `str::ends_with`
unfoldable pub ends_with : Text → Text → Bool
ends_with [] part = text_eq [] part
ends_with (c ∷ s) part = text_eq (c ∷ s) part || ends_with s part

module _ {Url : Type 0} (ops : UrlOps Url) (policy : NetworkPolicy) where
  unfoldable pub safe_url : Url → Text
  safe_url url =
      ops.scheme url
      ++ text "://"
      ++ unwrap_or (ops.host_str url) (text "<missing-host>")
      ++ ops.path url

  abbrev url_policy : Url → Error
  url_policy url = Error.static_provider (ProviderError.url_policy (safe_url url))

  unfoldable pub scheme_allowed : Url → Bool
  scheme_allowed url =
      text_eq (ops.scheme url) (text "https")
      || (text_eq (ops.scheme url) (text "http") && policy.allow_insecure_http)

  -- The test of a literal host.
  unfoldable pub is_private_host : Text → Bool
  unfolding is_private_address eq_ignore_ascii_case ends_with
  is_private_host host =
      eq_ignore_ascii_case host (text "localhost")
      || ends_with host (text ".localhost")
      || is_some_and (ops.parse_ip host) is_private_address

  unfoldable pub validate_remote_url_syntax : Url → Result (Unit {0})
  unfolding scheme_allowed is_private_host safe_url
  validate_remote_url_syntax url =
      let host = unwrap_or (ops.host_str url) [] in
      do
        reject (not (scheme_allowed url)) (url_policy url)
        reject
            (not (is_empty (ops.username url))
              || is_some (ops.password url)
              || not (is_some (ops.host_str url)))
            (url_policy url)
        reject (is_some (ops.query url) || is_some (ops.fragment url)) (url_policy url)
        reject
            (not (is_empty policy.allowed_hosts)
              && not (any (λ allowed. eq_ignore_ascii_case allowed host) policy.allowed_hosts))
            (url_policy url)
        reject (not policy.allow_private_networks && is_private_host host) (url_policy url)

  unfoldable pub check_addresses : Url → List IpAddr → Result (Unit {0})
  check_addresses url addresses = reject (any is_private_address addresses) (url_policy url)

  abbrev pub resolved_access : Url → Result (List IpAddr) → Result (Unit {0})
  resolved_access url (err e) = err (url_policy url)
  resolved_access url (ok addresses) = check_addresses url addresses

  abbrev pub access_of : Bool → Url → Result (Unit {0})
  access_of true url = ok tt
  access_of false url = resolved_access url (
      ops.lookup_host (unwrap_or (ops.host_str url) [])
        (unwrap_or (ops.port_or_known_default url) 443))

  unfoldable pub validate_remote_access : Url → Result (Unit {0})
  unfolding check_addresses validate_remote_url_syntax
  validate_remote_access url =
      validate_remote_url_syntax url >> access_of policy.allow_private_networks url
