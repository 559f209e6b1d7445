-- ===== src/Providers/Registry.antt =====
-- providers/service.rs: the registry of providers, `add`, `add_with_trust`, `remove`, `list` and `get`.
-- The document on disk is the state; a local source is what `canonicalize` gave, if its entry is a
-- real file. The lock is left out.
pub mod Laws
mod Tests
use central_core.Prelude.{
  ℕ, ◌&&◌, not, Bool, true, false, Option, none, some, is_some, List, [], ◌∷◌, ◌++◌, Text, TextMap,
  get, insert, remove_key, values, text, ◌==◌,
}
use central_core.Errors.{Error, TrustError, Result, ok, err, ◌>>=◌, ◌>>◌, reject}
use central_core.Trust.Store as Trust_
use central_core.Trust.Store.{Store}
use central_core.Providers.Verification.{SignaturePolicy}
use central_core.Providers.Network.{UrlOps, NetworkPolicy, validate_remote_url_syntax}

pub data ProviderSource (Url : Type 0) : Type 0 where
  local : (path : Text) → ProviderSource Url
  remote : Url → ProviderSource Url

module _ (Url : Type 0) where
  pub record ProviderRegistration : Type 0 where
    pub id : Text
    pub source : ProviderSource Url
    pub added_unix_seconds : ℕ
    pub signature_policy : SignaturePolicy
    pub trusted_key_id : Option Text

  pub record RegistryDocument : Type 0 where
    pub format_version : ℕ
    pub providers : TextMap (ProviderRegistration)

  pub data RegistryEvent : Type 0 where
    provider_added provider_removed : Text → RegistryEvent

  -- The file `registry.json`, if it is there, and the events.
  pub record Registry : Type 0 where
    pub document : Option RegistryDocument
    pub events : List RegistryEvent

abbrev pub registry_format_version : ℕ
registry_format_version = 1

abbrev pub is_required : SignaturePolicy → Bool
is_required SignaturePolicy.required = true
is_required SignaturePolicy.optional = false
is_required SignaturePolicy.disabled = false

module _ {Url : Type 0} where
  unfoldable pub load_registry : Registry Url → Result (RegistryDocument Url)
  load_registry s = elim s.document [
    | none ↦ ok (record { format_version = registry_format_version; providers = [] })
    | some document ↦ do
      reject (not (document.format_version == registry_format_version))
          (Error.unsupported_format "provider registry" document.format_version)
      ok document
  ]

  abbrev pub write_registry : RegistryDocument Url → RegistryEvent Url → Registry Url → Registry Url
  write_registry document event s = record {
    document = some document;
    events = s.events ++ (event ∷ []);
  }

  abbrev pub found_or : Text → Option (ProviderRegistration Url) → Result (ProviderRegistration Url)
  found_or id none = err (Error.not_found "provider" id)
  found_or id (some registration) = ok registration

  unfoldable pub get_provider : Text → Registry Url → Result (ProviderRegistration Url)
  unfolding load_registry
  get_provider id s = do document ← load_registry s; found_or id (get id document.providers)

  unfoldable pub list_providers : Registry Url → Result (List (ProviderRegistration Url))
  unfolding load_registry
  list_providers s = do document ← load_registry s; ok (values document.providers)

  unfoldable pub remove_provider :
      Text → Registry Url → Result (ProviderRegistration Url × Registry Url)
  unfolding load_registry
  remove_provider id s = do
    document ← load_registry s
    registration ← found_or id (get id document.providers)
    ok (
      registration,
      write_registry (record document { providers = remove_key id document.providers })
          (provider_removed id) s,
    )

-- The check of the trusted key with the trust store.
abbrev pub known_key : Option Text → Store → Result (Unit {0})
known_key none trust = ok tt
known_key (some key_id) trust = Trust_.get_key key_id trust >>= (λ key. ok tt)

module _ {Url : Type 0} (ops : UrlOps Url) (policy : NetworkPolicy)
    (canonicalize : Text → Result Text) (now : ℕ) (trust : Store) where
  -- `canonicalize` fails unless the path is a real file.
  unfoldable pub checked_source : ProviderSource Url → Result (ProviderSource Url)
  unfolding validate_remote_url_syntax
  checked_source (local path) = do real_path ← canonicalize path; ok (local real_path)
  checked_source (remote url) = do validate_remote_url_syntax ops policy url; ok (remote url)

  abbrev pub registration_of :
      Text → ProviderSource Url → SignaturePolicy → Option Text → ProviderRegistration Url
  registration_of id source signature_policy trusted_key_id = record {
    id = id;
    source = source;
    added_unix_seconds = now;
    signature_policy = signature_policy;
    trusted_key_id = trusted_key_id;
  }

  unfoldable pub add_with_trust :
      Text
      → ProviderSource Url
      → SignaturePolicy
      → Option Text
      → Registry Url
      → Result (ProviderRegistration Url × Registry Url)
  unfolding checked_source load_registry
  add_with_trust id source signature_policy trusted_key_id s = do
    reject (is_required signature_policy && not (is_some trusted_key_id))
        (Error.trust TrustError.trust_store_error)
    known_key trusted_key_id trust
    accepted ← checked_source source
    document ← load_registry s
    reject (is_some (get id document.providers)) (Error.already_exists "provider" id)
    let registration = registration_of id accepted signature_policy trusted_key_id
    ok (
      registration,
      write_registry (record document { providers = insert id registration document.providers })
          (provider_added id) s,
    )

  unfoldable pub add :
      Text → ProviderSource Url → Registry Url → Result (ProviderRegistration Url × Registry Url)
  unfolding add_with_trust
  add id (remote url) s = err (Error.trust TrustError.trust_store_error)
  add id (local path) s = add_with_trust id (local path) SignaturePolicy.optional none s
