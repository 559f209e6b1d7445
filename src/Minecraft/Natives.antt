-- ===== src/Minecraft/Natives.antt =====
-- minecraft/natives.rs: the extraction of native archives. The crate zip is left out: an archive
-- is what it reports, with `none` where opening the archive or an entry fails. The result is what
-- is written, in order; failures to write are not modelled.
pub mod Laws
use central_core.Prelude.{
  ℕ, ◌+◌, ◌*◌, ◌-◌, ◌^◌, ◌/◌, ◌%◌, ◌||◌, Bool, Option, none, some, List, [], ◌∷◌, ◌++◌, any, map,
  Text, starts_with, is_some_and, ltb, ◌==◌, if◌then◌else◌,
}
use central_core.Errors.{Error, MinecraftError, Result, ok, err, ◌>>=◌, ◌>>◌, reject, ok_or}
use central_core.Files.Path.{SafeRelativePath, new, join_under}

pub record NativeEntry : Type 0 where
  pub name : Text
  pub is_dir : Bool
  pub unix_mode : Option ℕ
  pub size : ℕ

pub record NativeArchive : Type 0 where
  pub path : Text
  pub exclusions : List Text
  pub contents : Option (List (Option NativeEntry))

pub record Extracted : Type 0 where
  pub output : Text
  pub size : ℕ

-- The total so far, and what was written.
pub record Extraction : Type 0 where
  pub total_size : ℕ
  pub written : List Extracted

abbrev pub max_native_entry_size : ℕ
max_native_entry_size = 268435456

abbrev pub max_native_total_size : ℕ
max_native_total_size = 1073741824

abbrev pub u64_max : ℕ
u64_max = 18446744073709551615

-- `u64::saturating_add`
unfoldable pub saturating_add : ℕ → ℕ → ℕ
saturating_add a b = if ltb u64_max (a + b) then u64_max else a + b

abbrev pub native_error : NativeArchive → Error
native_error native = Error.minecraft (MinecraftError.native_extraction native.path)

-- `name().replace('\\', "/")`
abbrev pub entry_name : NativeEntry → Text
entry_name entry = map (λ c. if c == 0x5c then 0x2f else c) entry.name

-- `mode & 0o170000 == 0o120000`
unfoldable pub is_symlink : ℕ → Bool
is_symlink mode = ((mode / 4096) % 16) == 10

abbrev pub is_skipped : NativeArchive → NativeEntry → Bool
is_skipped native entry =
    any (λ excluded. starts_with (entry_name entry) excluded) native.exclusions || entry.is_dir

unfoldable pub extract_entry : Text → NativeArchive → Extraction → NativeEntry → Result Extraction
unfolding saturating_add is_symlink
extract_entry destination native s entry = if is_skipped native entry then ok s else do
  reject (is_some_and entry.unix_mode is_symlink) (native_error native)
  reject (ltb max_native_entry_size entry.size) (native_error native)
  let total_size = saturating_add s.total_size entry.size
  reject (ltb max_native_total_size total_size) (native_error native)
  safe ← ok_or (native_error native) (new (entry_name entry))
  ok (record {
    total_size = total_size;
    written =
        s.written ++ (record { output = join_under safe destination; size = entry.size } ∷ []);
  })

abbrev read {ℓ} : {A : Type ℓ} → NativeArchive → Option A → Result A
read native none = err (native_error native)
read native (some a) = ok a

unfoldable pub extract_entries :
    Text → NativeArchive → Extraction → List (Option NativeEntry) → Result Extraction
unfolding extract_entry
extract_entries destination native s [] = ok s
extract_entries destination native s (e ∷ entries) = do
  entry ← read native e
  s' ← extract_entry destination native s entry
  extract_entries destination native s' entries

unfoldable pub extract_archives : Text → Extraction → List NativeArchive → Result Extraction
unfolding extract_entries
extract_archives destination s [] = ok s
extract_archives destination s (native ∷ archives) = do
  contents ← read native native.contents
  s' ← extract_entries destination native s contents
  extract_archives destination s' archives

-- `extract_natives_blocking`
unfoldable pub extract_natives : Text → List NativeArchive → Result (List Extracted)
unfolding extract_archives
extract_natives destination archives = do
  s ← extract_archives destination (record { total_size = 0; written = [] }) archives
  ok s.written
