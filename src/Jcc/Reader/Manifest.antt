-- ===== src/Jcc/Reader/Manifest.antt =====
-- app/jcc_data/canonical_hash.py and the rest of app/jcc_data/snapshot_reader.py: the content hash, the check of a manifest, and
-- `read_snapshot`.
use tsuz_api_jcc.Base.{
  ℕ, String, ◌<>◌, Bool, true, false, ◌&&◌, Option, none, some, List, [], ◌∷◌, ◌++◌, all, contains,
  length, ltb, ◌==◌, string_eq, nat_eq, if◌then◌else◌,
}
use tsuz_api_jcc.Base.Dict
use tsuz_api_jcc.Base.Dict.{Dict}
use tsuz_api_jcc.Base.Int.{ℤ, pos, negsuc}
use tsuz_api_jcc.Base.Result.{ok, err, ◌>>=◌, ◌>>◌, guard}
use tsuz_api_jcc.Base.Text.{str_length}
use tsuz_api_jcc.Jcc.Json.{Json, Object, items, Builtins}
use tsuz_api_jcc.Jcc.Decimal.{parse_decimal}
use tsuz_api_jcc.Jcc.Scalars.{Checked, get, has_key, to_int}
use tsuz_api_jcc.Jcc.Adapters.Data.{VersionSpec, RawSnapshot, int_eq}
use tsuz_api_jcc.Jcc.Reader.{
  Libraries, Read, File, Location, absent, linked, directory, symlink, manifest_not_object,
  metadata_mismatch, sources_mismatch, source_mismatch, count_mismatch, invalid_revision,
  revision_mismatch, hash_mismatch, base_mismatch, name_mismatch, no_directory, value_error,
  key_error, type_error, required_names, base_version, or_else, object_of, item_list, is_text,
  read_json, build_version_spec, validate_payload,
}
use tsuz_api_jcc.Jcc.Reader.Names.{directory_revision}

abbrev pub Payloads : Type 0
Payloads = Dict String Json

abbrev pub hash_resource_names : List String
hash_resource_names =
    "adventure" ∷ "chess" ∷ "equip" ∷ "galaxy" ∷ "hex" ∷ "job" ∷ "race" ∷ "trait"
    ∷ "versiondataconfig" ∷ []

-- `data[key]`
abbrev pub at_key : String → Object → Read Json
at_key key entry = or_else key_error (Dict.lookup key entry)

-- `len(value)`
abbrev pub len_of : Json → Read ℕ
len_of (Json.arr vs) = ok (length (item_list vs))
len_of (Json.obj fs) = ok (length (items fs))
len_of (Json.str s) = ok (str_length s)
len_of _ = err type_error

abbrev len_at : String → Json → Read ℕ
len_at key payload = do
  entry ← or_else type_error (object_of payload)
  value ← at_key key entry
  len_of value

unfoldable pub record_count : String → Json → Read ℕ
unfolding Dict.lookup
record_count name payload =
    if name == "versiondataconfig"
    then len_of payload
    else if name == "lineup_detail_total"
    then len_at "lineup_list" payload
    else len_at "data" payload

module _ (py : Builtins) (lib : Libraries) where
  abbrev file_hash : String → Json → Option String
  file_hash name payload = elim (lib.dumps_canonical payload) [
    | none ↦ none
    | some text ↦ some (name <> (".json\0" <> (lib.sha256 text <> "\n")))
  ]

  -- The hashes of the resources, put together.
  unfoldable pub file_hashes : List String → Payloads → Read String
  unfolding Dict.lookup
  file_hashes [] payloads = ok ""
  file_hashes (name ∷ names) payloads = do
    payload ← or_else value_error (Dict.lookup name payloads)
    hash ← or_else value_error (file_hash name payload)
    rest ← file_hashes names payloads
    ok (hash <> rest)

  unfoldable pub snapshot_content_hash : Payloads → Read String
  unfolding file_hashes
  snapshot_content_hash payloads = do
    hashes ← file_hashes hash_resource_names payloads
    ok (lib.sha256 hashes)

  abbrev truth : Bool → ℕ
  truth true = 1
  truth false = 0

  abbrev is_pos : ℕ → Option ℤ → Bool
  is_pos n none = false
  is_pos n (some (pos m)) = m == n
  is_pos n (some (negsuc _)) = false

  abbrev integral : Checked ℤ → Option ℤ
  integral (ok i) = some i
  integral (err _) = none

  -- `value == n`, which a truth value and a float satisfy by their number.
  abbrev pub is_number : ℕ → Json → Bool
  is_number n (Json.int i) = is_pos n (some i)
  is_number n (Json.bool b) = truth b == n
  is_number n (Json.float t) = is_pos n (integral (to_int py (parse_decimal py t)))
  is_number n _ = false

  abbrev check_source : VersionSpec → Payloads → Object → String → Read (Unit {0})
  check_source spec payloads sources name = do
    value ← at_key name sources
    source ← or_else source_mismatch (object_of value)
    url ← or_else key_error (Dict.lookup name spec.urls)
    guard (is_text url (get "url" source) && is_text (name <> ".json") (get "file" source))
        source_mismatch
    payload ← or_else key_error (Dict.lookup name payloads)
    n ← record_count name payload
    guard (is_number n (get "record_count" source)) count_mismatch

  unfoldable pub check_sources : VersionSpec → Payloads → Object → List String → Read (Unit {0})
  unfolding record_count Dict.lookup
  check_sources spec payloads sources [] = ok tt
  check_sources spec payloads sources (name ∷ names) =
      check_source spec payloads sources name >> check_sources spec payloads sources names

  -- `isinstance(value, int)`, not a truth value, and at least one.
  abbrev positive : Json → Read ℕ
  positive (Json.int (pos n)) = if ltb 0 n then ok n else err invalid_revision
  positive _ = err invalid_revision

  -- `manifest.get(key, default)`, for a revision.
  abbrev pub declared_revision : ℕ → Option Json → Read ℕ
  declared_revision n none = ok n
  declared_revision n (some value) = positive value

  -- `manifest.get(key, text) != text`
  abbrev pub declares : String → Option Json → Bool
  declares s none = true
  declares s (some value) = is_text s value

  abbrev same_names : Object → Bool
  same_names sources =
      all (λ name. has_key name sources) required_names
      && all (λ (k, _). contains required_names k) sources

  -- `manifest.setdefault(key, value)`
  abbrev set_default : String → Json → Object → Object
  set_default key value entry = if has_key key entry then entry else entry ++ (key, value) ∷ []

  -- `_manifest_for` up to the check of the sources, and from the revision on.
  unfoldable pub checked_manifest : Dict String File → VersionSpec → Payloads → Read Object
  unfolding read_json check_sources
  checked_manifest files spec payloads = do
    value ← read_json py lib (Dict.lookup "manifest.json" files)
    manifest ← or_else manifest_not_object (object_of value)
    guard
        (is_text spec.mode (get "mode" manifest)
          && is_text spec.mode_name (get "mode_name" manifest)
          && is_text spec.season (get "season" manifest)
          && is_text spec.version (get "version" manifest)
          && is_text spec.mode (get "set_id" manifest))
        metadata_mismatch
    sources ← or_else sources_mismatch (object_of (get "sources" manifest))
    guard (same_names sources) sources_mismatch
    check_sources spec payloads sources required_names
    ok manifest

  unfoldable pub revision_part :
      String → VersionSpec → Payloads → Object → Read (Object × ℕ × String)
  unfolding snapshot_content_hash directory_revision
  revision_part name spec payloads manifest = do
    expected ← directory_revision py name spec
    revision ← declared_revision expected (Dict.lookup "revision" manifest)
    guard (revision == expected) revision_mismatch
    content_hash ← snapshot_content_hash payloads
    guard (declares content_hash (Dict.lookup "content_hash" manifest)) hash_mismatch
    guard (declares (base_version spec) (Dict.lookup "base_version" manifest)) base_mismatch
    guard (declares name (Dict.lookup "raw_directory_name" manifest)) name_mismatch
    ok (
      set_default "content_hash" (Json.str content_hash) (
          set_default "raw_directory_name" (Json.str name) (
            set_default "revision" (Json.int (pos revision))
              (set_default "base_version" (Json.str (base_version spec)) manifest))),
      revision,
      content_hash,
    )

  unfoldable pub manifest_for :
      String → Dict String File → VersionSpec → Payloads → Read (Object × ℕ × String)
  unfolding checked_manifest revision_part
  manifest_for name files spec payloads = do
    manifest ← checked_manifest files spec payloads
    revision_part name spec payloads manifest

  -- The payloads by their names.
  unfoldable pub read_payloads : Dict String File → List String → Read Payloads
  unfolding read_json
  read_payloads files [] = ok []
  read_payloads files (name ∷ names) = do
    payload ← read_json py lib (Dict.lookup (name <> ".json") files)
    rest ← read_payloads files names
    ok ((name, payload) ∷ rest)

  unfoldable pub validate_payloads : VersionSpec → Payloads → List String → Read (Unit {0})
  unfolding validate_payload
  validate_payloads spec payloads [] = ok tt
  validate_payloads spec payloads (name ∷ names) = do
    payload ← or_else key_error (Dict.lookup name payloads)
    validate_payload py lib name payload spec
    validate_payloads spec payloads names

  -- `read_snapshot`; `name` is the last component of the path.
  unfoldable pub read_snapshot : String → String → String → Location → Read RawSnapshot
  unfolding read_payloads validate_payloads manifest_for build_version_spec
  read_snapshot expected_mode expected_mode_name name linked = err symlink
  read_snapshot expected_mode expected_mode_name name absent = err no_directory
  read_snapshot expected_mode expected_mode_name name (directory files) = do
    payloads ← read_payloads files required_names
    versions ← or_else key_error (Dict.lookup "versiondataconfig" payloads)
    spec ← build_version_spec py lib expected_mode expected_mode_name versions
    validate_payloads spec payloads required_names
    (manifest, revision, content_hash) ← manifest_for name files spec payloads
    ok (record {
      directory = name;
      manifest = manifest;
      payloads = payloads;
      revision = revision;
      content_hash = content_hash;
      spec = spec;
    })
