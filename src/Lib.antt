-- ===== src/Lib.antt =====
-- CentralCore keeps the instances of a game launcher: providers publish signed manifests of what
-- an instance holds, and the core checks, resolves, installs and launches it. This library models
-- the part of crates/centralcore that decides what is accepted: paths, hashes, identifiers,
-- manifests, component resolution, trust, rollback protection, and the interpretation of Mojang
-- metadata; and the update of an instance: its plan, its transaction of files, and the recovery
-- from a stop.
--
-- Modules and sources (all sources below crates/centralcore/src):
--   Prelude          text as lists of code points, sorted maps and sets, Boolean tests, lemmas
--   Errors           errors/mod.rs and the error enums it wraps; Result, and Run for code that may
--                    panic or loop
--   Files            files/mod.rs: Path (SafeRelativePath), Hash (FileHash), Manifest (FileManifest)
--   Platform         platform/mod.rs: the data types
--   Loaders          loaders/mod.rs: LoaderKind, LoaderConfig
--   Instances        instance/mod.rs: ServerConfig, InstanceAuthPolicy
--   Trust            trust/mod.rs: Keys (key ids, key files, signatures), Store (TrustStore and
--                    authorize), Verifier (SignatureVerifier)
--   Providers.Ids    providers/manifest.rs and instance/mod.rs: the identifiers
--   Providers.Model  providers/manifest.rs: validated files and components
--   Providers.Manifest    providers/manifest.rs: RawInstanceManifest::validate and its loops
--   Providers.Components  providers/components.rs: Selection, Graph (the check for cycles), Closure
--                    (the loop that enables requirements), Resolve (resolve_components)
--   Providers.Rollback    providers/service.rs: enforce_and_record_revisions
--   Providers.Storage     providers/service.rs: atomic_json, read_with_previous
--   Providers.Network     providers/service.rs: validate_remote_url_syntax, validate_remote_access
--   Providers.Resources   providers/service.rs: resolve_local
--   Providers.Verification    providers/service.rs: verify_provider_index
--   Providers.Registry    providers/service.rs: add, add_with_trust, remove, list, get
--   Providers.Update      providers/service.rs and update.rs: Desired (the files wanted and those
--                    owned), Plan (plan_update_with), Tree (the file tree), Transaction (the moves and
--                    their rollback), Apply (apply_update, its finalization included);
--                    minecraft/recovery.rs: Recovery
--   Cache            cache/mod.rs: the data types of the index of managed files
--   Minecraft        minecraft/rules.rs, arguments.rs, libraries.rs, natives.rs
--
-- How they interact: a registered provider (Providers.Registry) has a source that the network
-- policy allows (Providers.Network). By the policy of its registration (Providers.Verification) a
-- provider document is verified (Trust.Verifier) with a key that the store authorises
-- (Trust.Store); its revisions are held against the marks (Providers.Rollback); its instance
-- manifests are validated (Providers.Manifest), which uses Files and Ids; the components of a
-- validated definition are resolved with the user's choices (Providers.Components); native
-- archives are extracted below a directory by Files.Path (Minecraft.Natives). The definition and
-- the resolved components give the files that an update wants (Providers.Update.Desired); the
-- plan that compares them with the index (Cache) tells what the transaction moves, and recovery
-- reads the directory that an update leaves.
--
-- Correspondence: a definition has the name of the Rust function or of the step of it that it is,
-- and errors are raised in the order of the source. A state that a method changes is an argument
-- and part of the result. The disk of an instance is a tree of files for each of the instance,
-- the staged files and the backups, and values for its documents. A validated identifier is its
-- text. Sets and maps are sorted lists.
--
-- Bounds and fuel: a sum of sizes in a plan wraps at 2^64, as in a release build; other sizes,
-- revisions and versions are natural numbers, since the modelled code only compares them; the sum
-- of native sizes saturates at 2^64 - 1 as in the source. The loop of the graph check has the
-- number of components as fuel, that of the closure the number of components and of the selected
-- ones: every component is queued at most once after the start. Without fuel the result is none,
-- the same as for an index on a missing key.
--
-- Parameters: cryptography, base64 and canonical JSON (Trust.Keys.Crypto), the crates url and
-- regex, the resolver of resource URLs, the entries that the crate zip reports, and the clock; of
-- an update the downloads, the installation of a changed base game, the snapshot of the new files,
-- their verification, and the results of the writes and of the removal at its end; how the write of
-- the rollback document ends (Storage.Write); the resolver of host names, the parser of addresses and that of
-- signature documents.
--
-- Not modelled: failures of the disk other than those named, such as a rename that fails after the
-- old selections or specification are removed, what lies behind a link to a directory, links in documents, locks, downloads
-- and HTTP, JSON decoding, the installation, launch and repair of games, Java discovery,
-- authentication flows, the cache, processes, events other than those named, and the command-line
-- tools. They are I/O, or await a later stage.
pub mod Prelude
pub mod Cache
pub mod Errors
pub mod Files
pub mod Platform
pub mod Loaders
pub mod Instances
pub mod Trust
pub mod Providers
pub mod Minecraft
