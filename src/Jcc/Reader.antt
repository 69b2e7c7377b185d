-- ===== src/Jcc/Reader.antt =====
-- app/jcc_data/snapshot_reader.py and app/jcc_data/canonical_hash.py: reading a directory of raw payloads
-- back as a checked snapshot. Errors carry their reason. The JSON library, SHA-256 and Python's `==` on values are parameters.
pub mod Names
pub mod Manifest
pub mod Checked
use tsuz_api_jcc.Base.{
  ℕ, suc, String, ◌<>◌, Bool, true, false, ◌&&◌, ◌||◌, not, Option, none, some, List, [], ◌∷◌, ◌++◌,
  all, any, contains, keep, map, leb, ltb, ◌==◌, string_eq, nat_eq, if◌then◌else◌, length,
}
use Prim.Native.Char.{Char, code}
use tsuz_api_jcc.Base.Dict
use tsuz_api_jcc.Base.Dict.{Dict}
use tsuz_api_jcc.Base.Int.{ℤ, pos, negsuc}
use tsuz_api_jcc.Base.Result.{Result, ok, err, ◌>>=◌, ◌>>◌, guard}
use tsuz_api_jcc.Base.Text.{behind}
use tsuz_api_jcc.Jcc.Json.{
  Json, Items, Fields, Object, items, Builtins, to_str, is_printable, is_empty, show_ℕ,
}
use tsuz_api_jcc.Jcc.Decimal.{codes, parse_decimal}
use tsuz_api_jcc.Jcc.Scalars.{get, has_key, to_int}
use tsuz_api_jcc.Jcc.Adapters.Data.{VersionSpec, RawSnapshot, int_eq}

-- What the code takes from libraries: `json.loads`, `json.dumps` (as canonical, and as written into a manifest), the hash, `==` on
-- decoded values, and `isdigit` of a character.
pub record Libraries : Type 0 where
  pub loads : String → Option Json
  pub dumps_canonical : Json → Option String
  pub sha256 : String → String
  pub equal : Json → Json → Bool
  pub is_digit : ℕ → Bool

-- `SnapshotError` by its reason; the last three are a `ValueError` of the hash, a `KeyError` and a `TypeError`.
pub data SnapshotError : Type 0 where
  invalid_json symlink cannot_read missing_field invalid_field unsafe_component : SnapshotError
  expected_array wrong_candidates invalid_path invalid_season : SnapshotError
  spec_mismatch expected_object missing_lineups missing_key version_mismatch season_mismatch :
      SnapshotError
  set_mismatch data_not_object invalid_directory first_revision_directory : SnapshotError
  manifest_not_object metadata_mismatch sources_mismatch source_mismatch count_mismatch :
      SnapshotError
  invalid_revision revision_mismatch hash_mismatch base_mismatch name_mismatch : SnapshotError
  no_directory value_error key_error type_error : SnapshotError

abbrev pub Read {ℓ} : Type ℓ → Type ℓ
Read A = Result SnapshotError A

-- A file of a directory, as `is_symlink` and `read_bytes` see it, and a path that should be a directory.
pub data File : Type 0 where
  link unreadable : File
  content : String → File

pub data Location : Type 0 where
  absent linked : Location
  directory : Dict String File → Location

abbrev pub config_url : String
config_url = "https://game.gtimg.cn/images/lol/act/jkzlk/js/config/versiondataconfig.js"

abbrev pub data_base_url : String
data_base_url = "https://game.gtimg.cn/images/lol/act/jkzlk/js"

abbrev pub fields : List (String × String)
fields =
    ("chess", "herourl")
    ∷ ("race", "raceurl")
    ∷ ("job", "joburl")
    ∷ ("trait", "traiturl")
    ∷ ("equip", "equipurl")
    ∷ ("hex", "hexurl")
    ∷ ("adventure", "adventureurl")
    ∷ ("galaxy", "galaxyurl")
    ∷ []

abbrev pub field_names : List String
field_names = map (λ (n, _). n) fields

abbrev pub required_names : List String
required_names = ("versiondataconfig" ∷ field_names) ++ "lineup_detail_total" ∷ []

abbrev pub base_version : VersionSpec → String
base_version spec = spec.version <> ("-" <> spec.season)

-- `value in {".", ".."}`, or a character that does not print or separates paths.
abbrev has_separator : String → Bool
has_separator String.[] = false
has_separator (String.◌∷◌ c s) = contains (47 ∷ 92 ∷ 0 ∷ []) (code c) || has_separator s

abbrev pub first_item : Items → Option Json
first_item Items.nil = none
first_item (Items.item v _) = some v

abbrev pub item_list : Items → List Json
item_list Items.nil = []
item_list (Items.item v rest) = v ∷ item_list rest

-- `isinstance(value, dict)`, with its items.
abbrev pub or_else {ℓ} : {A : Type ℓ} → SnapshotError → Option A → Read A
or_else e none = err e
or_else e (some a) = ok a

abbrev pub object_of : Json → Option Object
object_of (Json.obj fs) = some (items fs)
object_of _ = none

-- `value == text`
abbrev pub is_text : String → Json → Bool
is_text s (Json.str t) = t == s
is_text s _ = false

abbrev starts : String → String → Bool
starts p s = elim (behind p s) [ none ↦ false | some _ ↦ true ]

-- `season.removeprefix("S")`
abbrev season_number : String → String
season_number s = elim (behind "S" s) [ none ↦ s | some rest ↦ rest ]

module _ (py : Builtins) (lib : Libraries) where
  unfoldable pub decode_json : String → Read Json
  decode_json raw = or_else invalid_json (lib.loads raw)

  unfoldable pub read_json : Option File → Read Json
  unfolding decode_json
  read_json none = err cannot_read
  read_json (some link) = err symlink
  read_json (some unreadable) = err cannot_read
  read_json (some (content raw)) = decode_json raw

  abbrev scalar_of : Json → Read String
  scalar_of Json.null = err missing_field
  scalar_of (Json.arr _) = err missing_field
  scalar_of (Json.obj _) = err missing_field
  scalar_of v = ok (to_str py v)

  unfoldable pub required_scalar : Object → String → Read String
  required_scalar entry key = do
    result ← scalar_of (get key entry)
    guard (not (is_empty result) && is_printable py result) invalid_field
    ok result

  unfoldable pub safe_path_component : String → Read (Unit {0})
  safe_path_component value =
      guard
        (not
          (contains ("." ∷ ".." ∷ []) value || not (is_printable py value) || has_separator value))
        unsafe_component

  -- The test on an entry of the version list.
  abbrev pub is_candidate : String → String → Object → Bool
  is_candidate expected_mode expected_mode_name entry =
      to_str py (get "mode" entry) == expected_mode
      && is_text expected_mode_name (get "name" entry)
      && to_str py (get "is_newest_version" entry) == "1"

  abbrev objects_of : List Json → List Object
  objects_of [] = []
  objects_of (Json.obj fs ∷ vs) = items fs ∷ objects_of vs
  objects_of (_ ∷ vs) = objects_of vs

  abbrev only_one : List Object → Read Object
  only_one (entry ∷ []) = ok entry
  only_one _ = err wrong_candidates

  abbrev path_of : Json → Read String
  path_of (Json.str path) =
      if starts "/" path && not (starts "//" path)
      then ok (data_base_url <> path)
      else err invalid_path
  path_of _ = err invalid_path

  -- The addresses of the resources, in order.
  unfoldable pub resource_urls : Object → List (String × String) → Read (List (String × String))
  resource_urls current [] = ok []
  resource_urls current ((name, config_field) ∷ rest) = do
    url ← path_of (get config_field current)
    urls ← resource_urls current rest
    ok ((name, url) ∷ urls)

  abbrev digits_only : String → Bool
  digits_only String.[] = true
  digits_only (String.◌∷◌ c s) = lib.is_digit (code c) && digits_only s

  -- `text.isdigit()`
  abbrev is_digits : String → Bool
  is_digits s = not (is_empty s) && digits_only s

  abbrev pub lineup_url : String → String → String
  lineup_url number mode =
      "https://game.gtimg.cn/images/lol/act/jkzlkauto/json/lineupJson/m"
      <> (number <> ("/11/" <> (mode <> "/lineup_detail_total.json")))

  abbrev pub spec_of : String → String → Object → Read VersionSpec
  unfolding required_scalar safe_path_component resource_urls
  spec_of expected_mode expected_mode_name current = do
    version ← required_scalar current "version"
    season ← required_scalar current "season"
    mode ← required_scalar current "mode"
    mode_name ← required_scalar current "name"
    safe_path_component version
    safe_path_component season
    safe_path_component mode
    urls ← resource_urls current fields
    guard (is_digits (season_number season)) invalid_season
    ok (record {
      version = version;
      season = season;
      mode = mode;
      mode_name = mode_name;
      version_start_time = get "version_start_time" current;
      urls =
          (("versiondataconfig", config_url) ∷ urls)
          ++ ("lineup_detail_total", lineup_url (season_number season) mode) ∷ [];
    })

  unfoldable pub build_version_spec : String → String → Json → Read VersionSpec
  build_version_spec expected_mode expected_mode_name (Json.arr versions) = do
    current ←
        only_one
          (keep (is_candidate expected_mode expected_mode_name) (objects_of (item_list versions)))
    spec_of expected_mode expected_mode_name current
  build_version_spec _ _ _ = err expected_array

  -- `==` of two specifications.
  abbrev same_urls : List (String × String) → List (String × String) → Bool
  same_urls [] [] = true
  same_urls ((n, u) ∷ us) ((m, v) ∷ vs) = n == m && u == v && same_urls us vs
  same_urls _ _ = false

  abbrev pub same_spec : VersionSpec → VersionSpec → Bool
  same_spec a b =
      a.version == b.version
      && a.season == b.season
      && a.mode == b.mode
      && a.mode_name == b.mode_name
      && lib.equal a.version_start_time b.version_start_time
      && same_urls a.urls b.urls

  abbrev is_array : Json → Bool
  is_array (Json.arr _) = true
  is_array _ = false

  abbrev pub is_object : Json → Bool
  is_object (Json.obj _) = true
  is_object _ = false

  abbrev validate_lineups : Json → Read (Unit {0})
  validate_lineups payload = do
    entry ← or_else expected_object (object_of payload)
    guard (is_array (get "lineup_list" entry)) missing_lineups

  abbrev pub validate_resource : VersionSpec → Json → Read (Unit {0})
  validate_resource spec payload = do
    entry ← or_else expected_object (object_of payload)
    guard (all (λ key. has_key key entry) ("version" ∷ "season" ∷ "setId" ∷ "data" ∷ []))
        missing_key
    guard (to_str py (get "version" entry) == spec.version) version_mismatch
    guard (to_str py (get "season" entry) == spec.season) season_mismatch
    guard (to_str py (get "setId" entry) == spec.mode) set_mismatch
    guard (is_object (get "data" entry)) data_not_object

  unfoldable pub validate_payload : String → Json → VersionSpec → Read (Unit {0})
  unfolding build_version_spec
  validate_payload name payload spec =
      if name == "versiondataconfig"
      then (build_version_spec spec.mode spec.mode_name payload >>= λ again.
          guard (same_spec again spec) spec_mismatch)
      else if name == "lineup_detail_total"
      then validate_lineups payload
      else validate_resource spec payload
