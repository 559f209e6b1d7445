-- ===== src/Providers/Network/Laws.antt =====
-- Which URLs are accepted, and which addresses are taken for public.
use central_core.Prelude.{
  Any, Bool-cases, to_ascii_lowercase, ℕ, ◌*◌, ◌+◌, ◌≡◌, ◌≢◌, ◌⊎◌, ◌↔◌, inl, inr, refl, subst, Bool,
  true, false, ◌&&◌, ◌||◌, not, any, is_some, none, List, [], ◌∷◌, arith, All, text, text_eq_iff,
  is_empty, unwrap_or,
}
use central_core.Errors.{Error, Result, ok, err, reject, reject-eq-ok, >>=-eq-ok}
use central_core.Providers.Network.Addresses.{
  IsPrivateHost, IsPublic, IsPublic-any, is_private_address_iff, is_private_host_iff, listed_iff,
}
use central_core.Providers.Network.{
  IpAddr, v4, v6, UrlOps, NetworkPolicy, is_private_address, eq_ignore_ascii_case, scheme_allowed,
  is_private_host, validate_remote_url_syntax, check_addresses, resolved_access, access_of,
  validate_remote_access,
}

reject-eq-false : (b : Bool) (e : Error) → reject b e ≡ ok tt → b ≡ false
reject-eq-false false e h = refl
reject-eq-false true e h = absurd (cc h)

module _ {Url : Type 0} (ops : UrlOps Url) (policy : NetworkPolicy) where
  -- What a URL that a provider may name is like.
  pub record IsAllowed (url : Url) : Type 0 where
    pub scheme :
        (ops.scheme url ≡ text "https")
        ⊎ ((ops.scheme url ≡ text "http") × (policy.allow_insecure_http ≡ true))
    pub userinfo : (ops.username url ≡ []) × (ops.password url ≡ none)
    pub host : is_some (ops.host_str url) ≡ true
    pub nothing_after : (ops.query url ≡ none) × (ops.fragment url ≡ none)
    pub listed :
        (policy.allowed_hosts ≡ [])
        ⊎ Any
            (λ allowed.
              to_ascii_lowercase allowed ≡ to_ascii_lowercase (unwrap_or (ops.host_str url) []))
            policy.allowed_hosts
    pub not_private :
        (policy.allow_private_networks ≡ true)
        ⊎ (IsPrivateHost ops policy (unwrap_or (ops.host_str url) []) → ⊥)

  closed_host :
      (url : Url)
      → (not policy.allow_private_networks
          && is_private_host ops policy (unwrap_or (ops.host_str url) []))
        ≡ false
      → (policy.allow_private_networks ≡ true)
        ⊎ (IsPrivateHost ops policy (unwrap_or (ops.host_str url) []) → ⊥)
  closed_host url h = elim (Bool-cases policy.allow_private_networks) [
    | inl e ↦ inl e
    | inr e ↦ inr (λ private. absurd (
        ground
          (arith, (is_private_host_iff ops policy (unwrap_or (ops.host_str url) [])).1 private)))
  ]

  open_host :
      (url : Url)
      → (policy.allow_private_networks ≡ true)
        ⊎ (IsPrivateHost ops policy (unwrap_or (ops.host_str url) []) → ⊥)
      → (not policy.allow_private_networks
          && is_private_host ops policy (unwrap_or (ops.host_str url) []))
        ≡ false
  open_host url h =
      elim (Bool-cases (is_private_host ops policy (unwrap_or (ops.host_str url) []))) [
        | inl e ↦ elim h [
          | inl opened ↦ ground arith
          | inr public ↦
              absurd
                (public ((is_private_host_iff ops policy (unwrap_or (ops.host_str url) [])).0 e))
        ]
        | inr e ↦ ground arith
      ]

  pub IsAllowed-validate_remote_url_syntax :
      (url : Url) → validate_remote_url_syntax ops policy url ≡ ok tt → IsAllowed url
  unfolding validate_remote_url_syntax scheme_allowed
  IsAllowed-validate_remote_url_syntax url h =
      let (scheme, h1) = reject-eq-ok (not (scheme_allowed ops policy url)) _ _ h in
      let (user, h2) =
        reject-eq-ok
          (not (is_empty (ops.username url))
            || is_some (ops.password url)
            || not (is_some (ops.host_str url)))
          _ _ h1 in
      let (after, h3) =
        reject-eq-ok (is_some (ops.query url) || is_some (ops.fragment url)) _ _ h2 in
      let (listed, h4) =
        reject-eq-ok
          (not (is_empty policy.allowed_hosts)
            && not (
                any (λ allowed. eq_ignore_ascii_case allowed (unwrap_or (ops.host_str url) []))
                  policy.allowed_hosts))
          _ _ h3 in
      let open_network =
        reject-eq-false
          (not policy.allow_private_networks
            && is_private_host ops policy (unwrap_or (ops.host_str url) []))
          _ h4 in
      record {
        scheme = ground (
          arith,
          text_eq_iff (ops.scheme url) (text "https"),
          text_eq_iff (ops.scheme url) (text "http"),
        );
        userinfo = ground arith;
        host = ground arith;
        nothing_after = ground arith;
        listed =
            ground (arith, (listed_iff (unwrap_or (ops.host_str url) []) policy.allowed_hosts).0);
        not_private = closed_host url open_network;
      }

  validate_remote_url_syntax-IsAllowed :
      (url : Url) → IsAllowed url → validate_remote_url_syntax ops policy url ≡ ok tt
  unfolding validate_remote_url_syntax scheme_allowed
  validate_remote_url_syntax-IsAllowed url a = ground (
    arith,
    a.scheme,
    a.userinfo,
    a.host,
    a.nothing_after,
    a.listed,
    (listed_iff (unwrap_or (ops.host_str url) []) policy.allowed_hosts).1,
    open_host url a.not_private,
    text_eq_iff (ops.scheme url) (text "https"),
    text_eq_iff (ops.scheme url) (text "http"),
  )

module _ {Url : Type 0} (ops : UrlOps Url) (policy : NetworkPolicy) where
  abbrev pub found : Url → Result (List IpAddr)
  found url =
      ops.lookup_host (unwrap_or (ops.host_str url) [])
        (unwrap_or (ops.port_or_known_default url) 443)

  ok-resolved_access :
      (url : Url) (r : Result (List IpAddr))
      → (resolved_access ops policy url r ≡ ok tt)
        ↔ ((addresses : List IpAddr) × (r ≡ ok addresses) × All IsPublic addresses)
  unfolding check_addresses
  ok-resolved_access url (err e) = (λ h. absurd (cc h), λ (addresses, h, a). absurd (cc h))
  ok-resolved_access url (ok addresses) = (
    λ h. (addresses, refl, (IsPublic-any addresses).0 (reject-eq-false _ _ h)),
    λ (others, same, a).
        let e : addresses ≡ others = cc same in rw ((IsPublic-any addresses).1 (rw e a)) refl,
  )

  ok-access_of :
      (open_network : Bool) (url : Url)
      → (access_of ops policy open_network url ≡ ok tt) ↔ (
          (open_network ≡ true)
          ⊎ ((addresses : List IpAddr) × (found url ≡ ok addresses) × All IsPublic addresses))
  ok-access_of true url = (λ h. inl refl, λ h. refl)
  ok-access_of false url = (
    λ h. inr ((ok-resolved_access url (found url)).0 h),
    λ h. elim h [ inl e ↦ absurd (cc e) | inr r ↦ (ok-resolved_access url (found url)).1 r ],
  )

  -- A remote URL is accepted exactly when its scheme is https, or http where that is allowed, it has a
  -- host but no user, password, query or fragment, the host is among the allowed ones if there are
  -- any, and, unless private networks are allowed, the host is no name of the own machine and no
  -- private address, and it resolves to addresses of which none is private: in the ranges of
  -- `IsPrivate`, in which an address of IPv4 that is mapped into IPv6 is not.
  pub validate_remote_access_iff :
      (url : Url)
      → (validate_remote_access ops policy url ≡ ok tt) ↔ (
          IsAllowed ops policy url
          × ((policy.allow_private_networks ≡ true)
              ⊎ ((addresses : List IpAddr) × (found url ≡ ok addresses) × All IsPublic addresses)))
  unfolding validate_remote_access
  validate_remote_access_iff url = (
    λ h.
        let (u, syntax, access) = >>=-eq-ok (validate_remote_url_syntax ops policy url) _ h in
        (
          IsAllowed-validate_remote_url_syntax ops policy url syntax,
          (ok-access_of policy.allow_private_networks url).0 access,
        ),
    λ (allowed, access).
        rw (validate_remote_url_syntax-IsAllowed ops policy url allowed)
          ((ok-access_of policy.allow_private_networks url).1 access),
  )

-- An address of the old protocol inside one of the new, `::ffff:a.b.c.d`.
abbrev pub mapped : (a b c d : ℕ) → IpAddr
mapped a b c d = v6 0 0 0 0 0 0xffff (a * 256 + b) (c * 256 + d)

IsPublic-mapped : (a b c d : ℕ) → IsPublic (mapped a b c d)
IsPublic-mapped a b c d h = ground arith

-- A host that resolves to a loopback or private address written in the form `::ffff:a.b.c.d` is
-- accepted, although private networks are not allowed and the address `a.b.c.d` itself is refused.
pub validate_remote_access-mapped :
    {Url : Type 0} (ops : UrlOps Url) (policy : NetworkPolicy) (url : Url) (a b c d : ℕ)
    → IsAllowed ops policy url
    → policy.allow_private_networks ≡ false
    → is_private_address (v4 a b c d) ≡ true
    → (found ops policy url ≡ ok (mapped a b c d ∷ [])
        → validate_remote_access ops policy url ≡ ok tt)
      × (found ops policy url ≡ ok (v4 a b c d ∷ [])
          → validate_remote_access ops policy url ≢ ok tt)
validate_remote_access-mapped ops policy url a b c d allowed closed private = (
  λ here.
      (validate_remote_access_iff ops policy url).1
        (allowed, inr (mapped a b c d ∷ [], here, (IsPublic-mapped a b c d, tt))),
  λ here accepted. elim ((validate_remote_access_iff ops policy url).0 accepted).1 [
    | inl opened ↦ absurd (cc (closed, opened))
    | inr (addresses, e, public) ↦
        let same : addresses ≡ v4 a b c d ∷ [] = cc (here, e) in
        let first : IsPublic (v4 a b c d) = (subst (All IsPublic) same public).0 in
        absurd (first ((is_private_address_iff (v4 a b c d)).0 private))
  ],
)
