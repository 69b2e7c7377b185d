-- ===== src/Tests/Reader.antt =====
-- A directory of raw payloads, read and downloaded, at a concrete input.
use tsuz_api_jcc.Base.{
  ℕ, String, ◌<>◌, true, false, Option, none, some, List, [], ◌∷◌, ◌++◌, All, ◌≡◌, refl, map,
  string_eq, nat_eq,
}
use tsuz_api_jcc.Base.Dict
use tsuz_api_jcc.Base.Dict.{Dict}
use tsuz_api_jcc.Base.Int.{pos}
use tsuz_api_jcc.Base.Result.{Result, ok, err}
use tsuz_api_jcc.Jcc.Json.{Json, Items, Fields, Object, to_str}
use tsuz_api_jcc.Jcc.Scalars.{get}
use tsuz_api_jcc.Jcc.Adapters.Data.{VersionSpec, RawSnapshot}
use tsuz_api_jcc.Jcc.Reader.{
  Libraries, File, content, directory, field_names, config_url, data_base_url, read_json,
  decode_json, required_scalar, safe_path_component, resource_urls, build_version_spec,
  validate_payload,
}
use tsuz_api_jcc.Jcc.Reader.Names.{directory_revision}
use tsuz_api_jcc.Jcc.Reader.Manifest.{
  Payloads, read_snapshot, read_payloads, validate_payloads, manifest_for, checked_manifest,
  check_sources, record_count, revision_part, snapshot_content_hash, file_hashes,
}
use tsuz_api_jcc.Jcc.Reader.Checked.{HasData, read_snapshot_sound}
use tsuz_api_jcc.Base.Query.{sort_by}
use tsuz_api_jcc.Jcc.Reader.Names.{directory_name}
use tsuz_api_jcc.Sync.Fetch.{FetchError, response, returned}
use tsuz_api_jcc.Sync.Payloads.{
  Fetcher, SyncResult, updated, read_existing, read_each, matching_directories, download_payloads,
  download_each, build_manifest, build_sources,
}
use tsuz_api_jcc.Sync.Latest.{
  sync_latest, sync_unlocked, refresh, write_revision, write_snapshot, publish_snapshot, newest,
  last_revision, with_hash,
}
use tsuz_api_jcc.Sync.Latest.Fresh.{Changes, sync_latest-Changes}
use tsuz_api_jcc.Tests.Streams.{plain}

abbrev object : Object → Json
object entries = Json.obj (entries_of entries)
  where
    entries_of : Object → Fields
    entries_of [] = Fields.end
    entries_of ((k, v) ∷ o) = Fields.field k v (entries_of o)

abbrev version_entry : Object
version_entry =
    ("mode", Json.str "18")
    ∷ ("name", Json.str "forces")
    ∷ ("is_newest_version", Json.str "1")
    ∷ ("version", Json.str "16.11")
    ∷ ("season", Json.str "S18")
    ∷ ("herourl", Json.str "/x")
    ∷ ("raceurl", Json.str "/x")
    ∷ ("joburl", Json.str "/x")
    ∷ ("traiturl", Json.str "/x")
    ∷ ("equipurl", Json.str "/x")
    ∷ ("hexurl", Json.str "/x")
    ∷ ("adventureurl", Json.str "/x")
    ∷ ("galaxyurl", Json.str "/x")
    ∷ []

abbrev versions : Json
versions = Json.arr (Items.item (object version_entry) Items.nil)

abbrev resource : Json
resource = object (
    ("version", Json.str "16.11")
    ∷ ("season", Json.str "S18")
    ∷ ("setId", Json.str "18")
    ∷ ("data", object [])
    ∷ [])

abbrev lineups : Json
lineups = object (("lineup_list", Json.arr Items.nil) ∷ [])

abbrev address : String
address = data_base_url <> "/x"

abbrev lineup_address : String
lineup_address =
    "https://game.gtimg.cn/images/lol/act/jkzlkauto/json/lineupJson/m18/11/18/lineup_detail_total.json"

abbrev source : String → String → ℕ → String × Json
source name url n = (
  name,
  object (
      ("url", Json.str url)
      ∷ ("file", Json.str (name <> ".json"))
      ∷ ("record_count", Json.int (pos n))
      ∷ []),
)

abbrev sources : Object
sources =
    (source "versiondataconfig" config_url 1 ∷ map (λ name. source name address 0) field_names)
    ++ source "lineup_detail_total" lineup_address 0 ∷ []

abbrev manifest : Object
manifest =
    ("mode", Json.str "18")
    ∷ ("mode_name", Json.str "forces")
    ∷ ("season", Json.str "S18")
    ∷ ("version", Json.str "16.11")
    ∷ ("set_id", Json.str "18")
    ∷ ("sources", object sources)
    ∷ []

abbrev decoder : Libraries
decoder = record {
  loads = λ text. Dict.lookup text (
      ("versions", versions)
      ∷ ("resource", resource)
      ∷ ("lineups", lineups)
      ∷ ("manifest", object manifest)
      ∷ []);
  dumps_canonical = λ _. some "";
  sha256 = λ _. "hash";
  equal = λ _ _. true;
  is_digit = λ _. true;
}

abbrev files : Dict String File
files =
    (("manifest.json", content "manifest")
      ∷ ("versiondataconfig.json", content "versions")
      ∷ ("lineup_detail_total.json", content "lineups")
      ∷ [])
    ++ map (λ name. (name <> ".json", content "resource")) field_names

abbrev kept : Payloads
kept =
    (("versiondataconfig", versions) ∷ map (λ name. (name, resource)) field_names)
    ++ ("lineup_detail_total", lineups) ∷ []

abbrev stored : RawSnapshot
stored = record {
  directory = "16.11-S18";
  manifest =
      manifest
      ++ ("base_version", Json.str "16.11-S18")
        ∷ ("revision", Json.int (pos 1))
        ∷ ("raw_directory_name", Json.str "16.11-S18")
        ∷ ("content_hash", Json.str "hash")
        ∷ [];
  payloads = kept;
  revision = 1;
  content_hash = "hash";
  spec = record {
    version = "16.11";
    season = "S18";
    mode = "18";
    mode_name = "forces";
    version_start_time = Json.null;
    urls =
        (("versiondataconfig", config_url) ∷ map (λ name. (name, address)) field_names)
        ++ ("lineup_detail_total", lineup_address) ∷ [];
  };
}

reads : read_snapshot plain decoder "18" "forces" "16.11-S18" (directory files) ≡ ok stored
unfolding read_snapshot read_payloads read_json decode_json validate_payloads validate_payload
    build_version_spec required_scalar safe_path_component resource_urls manifest_for
    checked_manifest check_sources record_count revision_part snapshot_content_hash file_hashes
    directory_revision Dict.lookup to_str string_eq nat_eq get
reads = refl

read_snapshot_sound_example :
    (stored.directory ≡ "16.11-S18")
    × (directory_revision plain "16.11-S18" stored.spec ≡ ok 1)
    × (snapshot_content_hash plain decoder kept ≡ ok "hash")
    × All (HasData plain decoder stored) field_names
read_snapshot_sound_example =
    read_snapshot_sound plain decoder "18" "forces" "16.11-S18" (directory files) stored reads

abbrev answered : Option String → Result FetchError String
answered none = err (returned 404)
answered (some body) = ok body

abbrev server : Fetcher
server url = answered (
    Dict.lookup url
      ((config_url, "versions") ∷ (address, "resource") ∷ (lineup_address, "lineups") ∷ []))

abbrev written : Dict String File
written =
    (("versiondataconfig.json", content "versions")
      ∷ map (λ name. (name <> ".json", content "resource")) field_names)
    ++ ("lineup_detail_total.json", content "lineups") ∷ ("manifest.json", content "manifest") ∷ []

abbrev downloaded : SyncResult
downloaded = record {
  status = updated;
  version = "16.11";
  season = "S18";
  directory = "16.11-S18";
  mode = "18";
  revision = 1;
  content_hash = "hash";
}

downloads :
    sync_latest plain decoder
      (λ _. "manifest")
      "now"
      (λ _ _. response 500 "")
      false
      (some server)
      (pos 30)
      (pos 3)
      false
      "18"
      "forces"
      []
    ≡ ok (downloaded, ("16.11-S18", directory written) ∷ [])
unfolding sync_latest sync_unlocked read_existing read_each matching_directories sort_by refresh
    download_payloads download_each write_revision build_manifest build_sources write_snapshot
    publish_snapshot directory_name newest last_revision with_hash decode_json validate_payload
    build_version_spec required_scalar safe_path_component resource_urls record_count
    snapshot_content_hash file_hashes Dict.lookup to_str string_eq nat_eq get
downloads = refl

sync_latest-Changes_example :
    (false ≡ false)
    × (spec : VersionSpec) × (existing : List RawSnapshot) × (read_existing plain decoder spec []
        ≡ ok existing)
    × Changes existing [] downloaded (("16.11-S18", directory written) ∷ [])
sync_latest-Changes_example =
    sync_latest-Changes plain decoder (λ _. "manifest") "now" (λ _ _. response 500 "") false
      (some server) (pos 30) (pos 3) false "18" "forces" [] (("16.11-S18", directory written) ∷ [])
      downloaded downloads
