-- ===== src/Providers/Registry/Laws.antt =====
-- What every registration of a registry has.
use central_core.Prelude.{
  ℕ, ◌≡◌, ◌&&◌, ◌==◌, inl, inr, refl, sym, ◌∙◌, subst, not, true, Option, none, some, is_some, [],
  arith, Text, TextMap, text_eq, text_eq_iff, get, insert, remove_key, get-insert, get-remove_key,
  Bool-cases,
}
use mathlib.Core.Option.{some-injective}
use central_core.Errors.{Error, Result, ok, >>=-eq-ok, reject-eq-ok}
use central_core.Trust.Store.{Store}
use central_core.Providers.Verification.{SignaturePolicy}
use central_core.Providers.Network.{UrlOps, NetworkPolicy, validate_remote_url_syntax}
use central_core.Providers.Network.Laws.{IsAllowed, IsAllowed-validate_remote_url_syntax}
use central_core.Providers.Registry.{
  ProviderSource, local, remote, ProviderRegistration, RegistryDocument, Registry, is_required,
  registry_format_version, load_registry, found_or, known_key, registration_of, checked_source,
  get_provider, remove_provider, add_with_trust,
}

module _ {Url : Type 0} (ops : UrlOps Url) (policy : NetworkPolicy) where
  abbrev pub IsAllowedSource : ProviderSource Url → Type 0
  IsAllowedSource (local path) = Unit
  IsAllowedSource (remote url) = IsAllowed ops policy url

  -- It stands under its id, has a key if signatures are required, and an allowed URL if it is remote.
  pub record IsSound (id : Text) (r : ProviderRegistration Url) : Type 0 where
    pub same_id : r.id ≡ id
    pub key : is_required r.signature_policy ≡ true → is_some r.trusted_key_id ≡ true
    pub source : IsAllowedSource r.source

  AllSound : TextMap (ProviderRegistration Url) → Type 0
  AllSound m = (id : Text) (r : ProviderRegistration Url) → get id m ≡ some r → IsSound id r

  -- The registries that additions and removals make, each with a trust store, a disk and a clock of
  -- its own.
  pub data Reach (s : Registry Url) : Registry Url → Type 0 where
    here : Reach s s
    added :
        (t u : Registry Url) (canonicalize : Text → Result Text) (now : ℕ) (trust : Store)
        (id : Text) (source : ProviderSource Url) (signature_policy : SignaturePolicy)
        (key : Option Text) (r : ProviderRegistration Url)
        → Reach s t
        → add_with_trust ops policy canonicalize now trust id source signature_policy key t
          ≡ ok (r, u)
        → Reach s u
    removed :
        (t u : Registry Url) (id : Text) (r : ProviderRegistration Url)
        → Reach s t
        → remove_provider id t ≡ ok (r, u)
        → Reach s u

  -- What can be read of a registry is sound.
  Reads : Registry Url → Type 0
  Reads s =
      (document : RegistryDocument Url)
      → load_registry s ≡ ok document
      → AllSound document.providers

  IsAllowedSource-checked_source :
      (canonicalize : Text → Result Text) (now : ℕ) (trust : Store)
      (source accepted : ProviderSource Url)
      → checked_source ops policy canonicalize now trust source ≡ ok accepted
      → IsAllowedSource accepted
  unfolding checked_source
  IsAllowedSource-checked_source canonicalize now trust (local path) accepted h =
      let (real_path, e, made) = >>=-eq-ok (canonicalize path) _ h in
      let same : ◌≡◌ {A = ProviderSource Url} (local real_path) accepted = cc made in
      subst IsAllowedSource same tt
  IsAllowedSource-checked_source canonicalize now trust (remote url) accepted h =
      let (u, e, made) = >>=-eq-ok (validate_remote_url_syntax ops policy url) _ h in
      let same : ◌≡◌ {A = ProviderSource Url} (remote url) accepted = cc made in
      subst IsAllowedSource same (IsAllowed-validate_remote_url_syntax ops policy url e)

  AllSound-insert :
      (m : TextMap (ProviderRegistration Url)) (id : Text) (r : ProviderRegistration Url)
      → AllSound m
      → IsSound id r
      → AllSound (insert id r m)
  unfolding AllSound
  AllSound-insert m id r h sound j q there = elim (Bool-cases (text_eq id j)) [
    | inl e ↦
        let same = some-injective r q (sym (get-insert id j r m ∙ (rw e refl)) ∙ there) in
        subst (IsSound j) same (subst (λ (k : Text). IsSound k r) ((text_eq_iff id j).0 e) sound)
    | inr e ↦ h j q (ground (arith, get-insert id j r m))
  ]

  AllSound-remove_key :
      (m : TextMap (ProviderRegistration Url)) (id : Text) → AllSound m → AllSound (remove_key id m)
  unfolding AllSound
  AllSound-remove_key m id h j q there = h j q (ground (arith, get-remove_key id j m))

  written_document :
      (q r : ProviderRegistration Url) (s t : Registry Url)
      → ◌≡◌ {A = Result (ProviderRegistration Url × Registry Url)} (ok (q, s)) (ok (r, t))
      → t.document ≡ s.document
  written_document q r s t made = cc made

  Reads-document :
      (s t : Registry Url) (document : RegistryDocument Url)
      → t.document ≡ some document
      → AllSound document.providers
      → Reads t
  unfolding Reads load_registry
  Reads-document s t document written sound read h =
      let (u, made) =
        reject-eq-ok (not (document.format_version == registry_format_version))
          (Error.unsupported_format "provider registry" document.format_version) (ok document)
          (rw written at h) in
      let same : document ≡ read = cc made in
      subst (λ (d : RegistryDocument Url). AllSound d.providers) same sound

  Reads-add_with_trust :
      (canonicalize : Text → Result Text) (now : ℕ) (trust : Store) (id : Text)
      (source : ProviderSource Url) (signature_policy : SignaturePolicy) (key : Option Text)
      (r : ProviderRegistration Url) (s t : Registry Url)
      → Reads s
      → add_with_trust ops policy canonicalize now trust id source signature_policy key s
        ≡ ok (r, t)
      → Reads t
  unfolding add_with_trust Reads
  Reads-add_with_trust canonicalize now trust id source signature_policy key r s t reads h =
      let (keyed, h1) = reject-eq-ok (is_required signature_policy && not (is_some key)) _ _ h in
      let (u, known, h2) = >>=-eq-ok (known_key key trust) _ h1 in
      let (accepted, checked, h3) =
        >>=-eq-ok (checked_source ops policy canonicalize now trust source) _ h2 in
      let (document, loaded, h4) = >>=-eq-ok (load_registry s) _ h3 in
      let (free, made) = reject-eq-ok (is_some (get id document.providers)) _ _ h4 in
      let registration =
        registration_of ops policy canonicalize now trust id accepted signature_policy key in
      let after : RegistryDocument Url = record document {
        providers = insert id registration document.providers;
      } in
      let sound : IsSound id registration = record {
        same_id = refl;
        key = λ e. ground arith;
        source = IsAllowedSource-checked_source canonicalize now trust source accepted checked;
      } in
      let written : t.document ≡ some after = written_document _ r _ t made in
      Reads-document s t after written
        (AllSound-insert document.providers id registration (reads document loaded) sound)

  Reads-remove_provider :
      (id : Text) (r : ProviderRegistration Url) (s t : Registry Url)
      → Reads s
      → remove_provider id s ≡ ok (r, t)
      → Reads t
  unfolding remove_provider Reads
  Reads-remove_provider id r s t reads h =
      let (document, loaded, h1) = >>=-eq-ok (load_registry s) _ h in
      let (registration, there, made) = >>=-eq-ok (found_or id (get id document.providers)) _ h1 in
      let after : RegistryDocument Url = record document {
        providers = remove_key id document.providers;
      } in
      let written : t.document ≡ some after = written_document _ r _ t made in
      Reads-document s t after written
        (AllSound-remove_key document.providers id (reads document loaded))

  Reads-Reach : (s t : Registry Url) → Reads s → Reach s t → Reads t
  Reads-Reach s _ reads here = reads
  Reads-Reach s _ reads
        (added t u canonicalize now trust id source signature_policy key r before e) =
      Reads-add_with_trust canonicalize now trust id source signature_policy key r t u
        (Reads-Reach s t reads before) e
  Reads-Reach s _ reads (removed t u id r before e) =
      Reads-remove_provider id r t u (Reads-Reach s t reads before) e

  empty-Reads : (s : Registry Url) → s.document ≡ none → Reads s
  unfolding Reads load_registry AllSound get
  empty-Reads s fresh read h id r there =
      let loaded : ◌≡◌ {A = Result (RegistryDocument Url)}
          (ok (record { format_version = registry_format_version; providers = [] })) (ok read) =
        (rw fresh at h) in
      let none_there : [] ≡ read.providers = cc loaded in absurd (cc (rw (← none_there) at there))

  found_or-eq-ok :
      (id : Text) (o : Option (ProviderRegistration Url)) (r : ProviderRegistration Url)
      → found_or id o ≡ ok r
      → o ≡ some r
  found_or-eq-ok id none r h = absurd (cc h)
  found_or-eq-ok id (some q) r h = cc h

  -- In every registry that additions and removals make from none, a provider that is found stands
  -- under its own id; if its signatures are required it has a trusted key, and if it is remote its URL
  -- is one that the network policy allows.
  pub get_provider-IsSound :
      (s t : Registry Url) (id : Text) (r : ProviderRegistration Url)
      → s.document ≡ none
      → Reach s t
      → get_provider id t ≡ ok r
      → IsSound id r
  unfolding get_provider Reads load_registry AllSound
  get_provider-IsSound s t id r fresh reached h =
      let (document, loaded, h1) = >>=-eq-ok (load_registry t) _ h in
      Reads-Reach s t (empty-Reads s fresh) reached document loaded id r (found_or-eq-ok id _ r h1)
