-- ===== src/Providers/Network/Addresses.antt =====
-- The addresses and the host names that count as private, told by ranges and by spelling.
use central_core.Prelude.{
  ◌≡◌, ◌≤◌, ◌<◌, ◌⊎◌, ◌↔◌, inl, inr, refl, ap, true, false, any, Option, none, some, List, [], ◌∷◌,
  ◌++◌, arith, All, Any, any_iff, Text, text, text_eq, text_eq_iff, to_ascii_lowercase, is_some_and,
  Bool-cases,
}
use central_core.Providers.Network.{
  IpAddr, v4, v6, UrlOps, NetworkPolicy, is_private_v4, is_private_v6, is_private_address,
  eq_ignore_ascii_case, ends_with, is_private_host,
}

-- 0.0.0.0/8, 10.0.0.0/8, 127.0.0.0/8, 169.254.0.0/16, 172.16.0.0/12, 192.168.0.0/16, and all from
-- 224.0.0.0 on; ::, ::1, fc00::/7 and fe80::/10. An address of the old protocol that is written in
-- the new one counts as one of the new.
abbrev pub IsPrivate : IpAddr → Type 0
IsPrivate (v4 a b c d) =
    (a ≡ 0)
    ⊎ (a ≡ 10)
    ⊎ (a ≡ 127)
    ⊎ ((a ≡ 169) × (b ≡ 254))
    ⊎ ((a ≡ 172) × (16 ≤ b) × (b ≤ 31))
    ⊎ ((a ≡ 192) × (b ≡ 168))
    ⊎ (224 ≤ a)
IsPrivate (v6 a b c d e f g h) =
    ((a ≡ 0) × (b ≡ 0) × (c ≡ 0) × (d ≡ 0) × (e ≡ 0) × (f ≡ 0) × (g ≡ 0) × (h ≤ 1))
    ⊎ ((0xfc00 ≤ a) × (a < 0xfe00))
    ⊎ ((0xfe80 ≤ a) × (a < 0xfec0))

abbrev pub IsPublic : IpAddr → Type 0
IsPublic address = IsPrivate address → ⊥

pub is_private_address_iff :
    (address : IpAddr) → (is_private_address address ≡ true) ↔ IsPrivate address
unfolding is_private_address is_private_v4 is_private_v6
is_private_address_iff (v4 a b c d) = (λ h. ground arith, λ h. ground arith)
is_private_address_iff (v6 a b c d e f g h) = (λ k. ground arith, λ k. ground arith)

pub IsPublic-any :
    (addresses : List IpAddr) → (any is_private_address addresses ≡ false) ↔ All IsPublic addresses
IsPublic-any [] = (λ e. tt, λ h. refl)
IsPublic-any (x ∷ xs) = (
  λ e. (
    λ private. absurd (ground (arith, (is_private_address_iff x).1 private)),
    (IsPublic-any xs).0 (ground arith),
  ),
  λ h. elim (Bool-cases (is_private_address x)) [
    | inl yes_it ↦ absurd (h.0 ((is_private_address_iff x).0 yes_it))
    | inr no_it ↦ ground (arith, (IsPublic-any xs).1 h.1)
  ],
)

ends_with-prefix : (s part : Text) → ends_with s part ≡ true → (name : Text) × (s ≡ name ++ part)
unfolding ends_with
ends_with-prefix [] part h = ([], (text_eq_iff [] part).0 h)
ends_with-prefix (c ∷ s) part h = elim (Bool-cases (text_eq (c ∷ s) part)) [
  | inl same ↦ ([], (text_eq_iff (c ∷ s) part).0 same)
  | inr other ↦
      let (name, e) = ends_with-prefix s part (ground arith) in
      (c ∷ name, ap (λ (t : Text). c ∷ t) e)
]

ends_with-append : (s part name : Text) → s ≡ name ++ part → ends_with s part ≡ true
unfolding ends_with
ends_with-append [] part [] e = (text_eq_iff [] part).1 e
ends_with-append [] part (d ∷ name) e = absurd (cc e)
ends_with-append (c ∷ s) part [] e = ground (arith, (text_eq_iff (c ∷ s) part).1 e)
ends_with-append (c ∷ s) part (d ∷ name) e =
    let rest : s ≡ name ++ part = cc e in ground (arith, ends_with-append s part name rest)

IsPrivate-literal :
    (parsed : Option IpAddr)
    → is_some_and parsed is_private_address ≡ true
    → (address : IpAddr) × (parsed ≡ some address) × IsPrivate address
IsPrivate-literal none h = absurd (cc h)
IsPrivate-literal (some address) h = (address, refl, (is_private_address_iff address).0 h)

module _ {Url : Type 0} (ops : UrlOps Url) (policy : NetworkPolicy) where
  -- "localhost" in any case, a name that ends in ".localhost", or a private address.
  abbrev pub IsPrivateHost : Text → Type 0
  IsPrivateHost host =
      (to_ascii_lowercase host ≡ to_ascii_lowercase (text "localhost"))
      ⊎ ((name : Text) × (host ≡ name ++ text ".localhost"))
      ⊎ ((address : IpAddr) × (ops.parse_ip host ≡ some address) × IsPrivate address)

  pub is_private_host_iff :
      (host : Text) → (is_private_host ops policy host ≡ true) ↔ IsPrivateHost host
  unfolding is_private_host eq_ignore_ascii_case
  is_private_host_iff host = (
    λ h.
        elim (Bool-cases
          (text_eq (to_ascii_lowercase host) (to_ascii_lowercase (text "localhost")))) [
            | inl e ↦ inl ((text_eq_iff _ _).0 e)
            | inr e ↦ elim (Bool-cases (ends_with host (text ".localhost"))) [
              | inl suffix ↦ inr (inl (ends_with-prefix host (text ".localhost") suffix))
              | inr other ↦ inr (inr (IsPrivate-literal (ops.parse_ip host) (ground arith)))
            ]
          ],
    λ h. elim h [
      | inl e ↦ ground (
        arith,
        (text_eq_iff (to_ascii_lowercase host) (to_ascii_lowercase (text "localhost"))).1 e,
      )
      | inr (inl (name, e)) ↦ ground (arith, ends_with-append host (text ".localhost") name e)
      | inr (inr (address, parsed, private)) ↦
          ground (arith, parsed, (is_private_address_iff address).1 private)
    ],
  )

pub listed_iff :
    (host : Text) (hosts : List Text)
    → (any (λ allowed. eq_ignore_ascii_case allowed host) hosts ≡ true)
      ↔ Any (λ allowed. to_ascii_lowercase allowed ≡ to_ascii_lowercase host) hosts
unfolding eq_ignore_ascii_case
listed_iff host hosts =
    any_iff _ _ (λ allowed. text_eq_iff (to_ascii_lowercase allowed) (to_ascii_lowercase host))
      hosts
