-- ===== src/Sync/Payloads.antt =====
-- scripts/sync_jcc_data.py: what a download reads and writes, up to the manifest. The raw directory is a dictionary of names; an
-- entry that is no directory is `absent` there, a link is one to a directory.
use Prim.Native.Char.{code}
use tsuz_api_jcc.Base.{
  ℕ, String, ◌<>◌, Bool, true, false, ◌&&◌, ◌||◌, none, some, List, [], ◌∷◌, ◌++◌, keep, map, ltb,
  ◌==◌, string_eq, nat_eq, if◌then◌else◌,
}
use tsuz_api_jcc.Base.Dict
use tsuz_api_jcc.Base.Dict.{Dict}
use tsuz_api_jcc.Base.Int.{pos}
use tsuz_api_jcc.Base.Result.{Result, ok, err, ◌>>=◌, ◌>>◌}
use tsuz_api_jcc.Base.Query.{sort_by}
use tsuz_api_jcc.Base.Text.{behind}
use tsuz_api_jcc.Jcc.Json.{Json, Fields, Object, Builtins}
use tsuz_api_jcc.Jcc.Scalars.{get}
use tsuz_api_jcc.Jcc.Adapters.Data.{VersionSpec, RawSnapshot}
use tsuz_api_jcc.Jcc.Reader.{
  Libraries, Read, Location, absent, linked, directory, SnapshotError, value_error, key_error,
  field_names, base_version, or_else, decode_json, validate_payload, object_of,
}
use tsuz_api_jcc.Jcc.Reader.Names.{revision_prefix}
use tsuz_api_jcc.Jcc.Reader.Manifest.{Payloads, record_count, read_snapshot}
use tsuz_api_jcc.Sync.Fetch.{FetchError}

-- A `SyncError`: a download that failed, an error of the validation that is converted, an existing snapshot that cannot be
-- read, a target that exists. Then the held lock, the checks of the arguments, and an exception that is not converted.
pub data SyncError : Type 0 where
  unfetched : FetchError → SyncError
  invalid : SnapshotError → SyncError
  incomplete : String → SyncError
  already_exists : String → SyncError
  lock_unavailable bad_timeout bad_retries : SyncError
  other : SnapshotError → SyncError

pub data SyncStatus : Type 0 where
  skipped matched updated : SyncStatus

pub record SyncResult : Type 0 where
  pub status : SyncStatus
  pub version : String
  pub season : String
  pub directory : String
  pub mode : String
  pub revision : ℕ
  pub content_hash : String

abbrev pub Directories : Type 0
Directories = Dict String Location

abbrev pub Synced {ℓ} : Type ℓ → Type ℓ
Synced A = Result SyncError A

abbrev pub Fetcher : Type 0
Fetcher = String → Result FetchError String

abbrev pub raising {ℓ} : {A : Type ℓ} → (SnapshotError → SyncError) → Read A → Synced A
raising f (err e) = err (f e)
raising f (ok a) = ok a

abbrev pub fetching : Result FetchError String → Synced String
fetching (err e) = err (unfetched e)
fetching (ok raw) = ok raw

-- `is_dir`, and the name of a revision of the base version.
abbrev pub is_dir : Location → Bool
is_dir absent = false
is_dir linked = true
is_dir (directory _) = true

abbrev pub is_revision_name : VersionSpec → String → Bool
is_revision_name spec name =
    name == base_version spec
    || elim (behind (revision_prefix spec) name) [ none ↦ false | some _ ↦ true ]

-- The order of texts, by their characters.
unfoldable pub text_le : String → String → Bool
text_le String.[] t = true
text_le (String.◌∷◌ c s) String.[] = false
text_le (String.◌∷◌ c s) (String.◌∷◌ d t) =
    let rest = text_le s t in ltb (code c) (code d) || (code c == code d && rest)

-- The base version before all others.
abbrev pub name_order : VersionSpec → String × Location → String × Location → Bool
name_order spec (a, _) (b, _) =
    if a == base_version spec then true else if b == base_version spec then false else text_le a b

unfoldable pub matching_directories : VersionSpec → Directories → Directories
unfolding text_le
matching_directories spec dirs =
    sort_by (name_order spec)
      (keep (λ (name, location). is_dir location && is_revision_name spec name) dirs)

-- A resource by its name, as received and decoded.
abbrev pub Downloads : Type 0
Downloads = Dict String (String × Json)

module _ (py : Builtins) (lib : Libraries) where
  -- An existing snapshot; a `ValueError` of the hash is not converted.
  abbrev pub read_error : String → SnapshotError → SyncError
  read_error name value_error = other value_error
  read_error name _ = incomplete name

  unfoldable pub read_each : VersionSpec → Directories → Synced (List RawSnapshot)
  unfolding read_snapshot
  read_each spec [] = ok []
  read_each spec ((name, location) ∷ dirs) = do
    snapshot ←
        raising (read_error name) (read_snapshot py lib spec.mode spec.mode_name name location)
    rest ← read_each spec dirs
    ok (snapshot ∷ rest)

  unfoldable pub read_existing : VersionSpec → Directories → Synced (List RawSnapshot)
  unfolding read_each matching_directories
  read_existing spec dirs = read_each spec (matching_directories spec dirs)

  unfoldable pub download_each : Fetcher → VersionSpec → List String → Synced Downloads
  unfolding Dict.lookup decode_json validate_payload
  download_each fetcher spec [] = ok []
  download_each fetcher spec (name ∷ names) = do
    url ← raising other (or_else key_error (Dict.lookup name spec.urls))
    raw ← fetching (fetcher url)
    value ← raising invalid (decode_json py lib raw)
    raising invalid (validate_payload py lib name value spec)
    rest ← download_each fetcher spec names
    ok ((name, (raw, value)) ∷ rest)

  unfoldable pub download_payloads : Fetcher → VersionSpec → String → Synced Downloads
  unfolding download_each
  download_payloads fetcher spec config_raw = do
    versions ← raising invalid (decode_json py lib config_raw)
    raising invalid (validate_payload py lib "versiondataconfig" versions spec)
    rest ← download_each fetcher spec (field_names ++ "lineup_detail_total" ∷ [])
    ok (("versiondataconfig", (config_raw, versions)) ∷ rest)

  abbrev pub parsed : Downloads → Payloads
  parsed d = map (λ (name, (_, value)). (name, value)) d

  -- The entry of a source in the manifest.
  abbrev pub source_of : String → String → ℕ → Json
  source_of name url n = Json.obj (
      Fields.field "url" (Json.str url) (
        Fields.field "file" (Json.str (name <> ".json"))
          (Fields.field "record_count" (Json.int (pos n)) Fields.end)))

  unfoldable pub build_sources : Payloads → List (String × String) → Read Fields
  unfolding Dict.lookup record_count
  build_sources payloads [] = ok Fields.end
  build_sources payloads ((name, url) ∷ urls) = do
    value ← or_else key_error (Dict.lookup name payloads)
    n ← record_count name value
    rest ← build_sources payloads urls
    ok (Fields.field name (source_of name url n) rest)

  abbrev pub updated_at : Payloads → Json
  updated_at payloads = elim (Dict.lookup "chess" payloads) [
    | none ↦ Json.null
    | some value ↦ elim (object_of value) [ none ↦ Json.null | some o ↦ get "time" o ]
  ]

  unfoldable pub build_manifest :
      VersionSpec → Payloads → ℕ → String → String → String → Read Object
  unfolding build_sources Dict.lookup
  build_manifest spec payloads revision name content_hash generated_at = do
    sources ← build_sources payloads spec.urls
    ok (
        ("mode", Json.str spec.mode)
        ∷ ("mode_name", Json.str spec.mode_name)
        ∷ ("season", Json.str spec.season)
        ∷ ("version", Json.str spec.version)
        ∷ ("base_version", Json.str (base_version spec))
        ∷ ("revision", Json.int (pos revision))
        ∷ ("raw_directory_name", Json.str name)
        ∷ ("content_hash", Json.str content_hash)
        ∷ ("version_start_time", spec.version_start_time)
        ∷ ("set_id", Json.str spec.mode)
        ∷ ("source_updated_at", updated_at payloads)
        ∷ ("generated_at", Json.str generated_at)
        ∷ ("sources", Json.obj sources)
        ∷ [])
