-- ===== src/Sync/Latest.antt =====
-- `sync_latest` of scripts/sync_jcc_data.py: the download of a new snapshot into a directory of its own. `dumps` writes the
-- manifest, and `generated_at` is the time in it.
pub mod Fresh
use Prim.Native.Char.{code}
use tsuz_api_jcc.Base.{
  ℕ, suc, String, ◌<>◌, Bool, true, false, ◌&&◌, ◌||◌, not, Option, none, some, List, [], ◌∷◌, ◌++◌,
  keep, map, leb, ltb, ◌==◌, string_eq, nat_eq, if◌then◌else◌,
}
use tsuz_api_jcc.Base.Dict
use tsuz_api_jcc.Base.Dict.{Dict}
use tsuz_api_jcc.Base.Int.{ℤ, pos, negsuc}
use tsuz_api_jcc.Base.Result.{Result, ok, err, ◌>>=◌, ◌>>◌, guard}
use tsuz_api_jcc.Base.Query.{sort_by}
use tsuz_api_jcc.Base.Text.{behind}
use tsuz_api_jcc.Jcc.Json.{Json, Fields, Object, items, Builtins}
use tsuz_api_jcc.Jcc.Scalars.{get}
use tsuz_api_jcc.Jcc.Adapters.Data.{VersionSpec, RawSnapshot}
use tsuz_api_jcc.Jcc.Reader.{
  Libraries, Read, File, content, Location, absent, linked, directory, SnapshotError, value_error,
  key_error, config_url, field_names, base_version, or_else, decode_json, build_version_spec,
  validate_payload, object_of,
}
use tsuz_api_jcc.Jcc.Reader.Names.{revision_prefix, directory_name}
use tsuz_api_jcc.Jcc.Reader.Manifest.{Payloads, record_count, snapshot_content_hash, read_snapshot}
use tsuz_api_jcc.Sync.Fetch.{Attempt, FetchError, fetch_bytes}
use tsuz_api_jcc.Sync.Payloads.{
  SyncError, SyncStatus, SyncResult, Directories, Synced, Fetcher, raising, fetching, is_dir,
  is_revision_name, text_le, name_order, matching_directories, Downloads, read_error, read_each,
  read_existing, download_each, download_payloads, parsed, source_of, build_sources, updated_at,
  build_manifest, unfetched, invalid, incomplete, already_exists, lock_unavailable, bad_timeout,
  bad_retries, other, skipped, matched, updated,
}

module _ (py : Builtins) (lib : Libraries) where
  module _ (dumps : Object → String) (generated_at : String) where
    -- `_write_snapshot`, whose directory `_publish_snapshot` renames where the name is free.
    unfoldable pub write_snapshot : Downloads → Object → Dict String File
    write_snapshot d manifest =
        map (λ (name, (raw, _)). (name <> ".json", content raw)) d
        ++ ("manifest.json", content (dumps manifest)) ∷ []

    abbrev pub unless_taken : String → Directories → Option Location → Synced Directories
    unless_taken name published none = ok published
    unless_taken name published (some _) = err (already_exists name)

    unfoldable pub publish_snapshot : String → Dict String File → Directories → Synced Directories
    unfolding Dict.lookup
    publish_snapshot name files dirs =
        unless_taken name (dirs ++ (name, directory files) ∷ []) (Dict.lookup name dirs)

    -- `max(existing, key=...)`, the first of the greatest.
    unfoldable pub newest : RawSnapshot → List RawSnapshot → RawSnapshot
    newest best [] = best
    newest best (s ∷ rest) = newest (if ltb best.revision s.revision then s else best) rest

    unfoldable pub last_revision : List RawSnapshot → ℕ
    last_revision [] = 0
    last_revision (s ∷ rest) =
        let others = last_revision rest in if leb others s.revision then s.revision else others

    unfoldable pub with_hash : String → List RawSnapshot → Option RawSnapshot
    with_hash h [] = none
    with_hash h (s ∷ rest) =
        let later = with_hash h rest in if s.content_hash == h then some s else later

    abbrev pub result_of : SyncStatus → VersionSpec → String → ℕ → String → SyncResult
    result_of status spec name revision content_hash = record {
      status = status;
      version = spec.version;
      season = spec.season;
      directory = name;
      mode = spec.mode;
      revision = revision;
      content_hash = content_hash;
    }

    -- The part of `_sync_unlocked` from the next revision on.
    unfoldable pub write_revision :
        VersionSpec → Downloads → ℕ → String → Directories → Synced (SyncResult × Directories)
    unfolding build_manifest write_snapshot publish_snapshot directory_name
    write_revision spec d revision content_hash dirs = do
      let name = directory_name spec revision
      manifest ←
          raising other
            (build_manifest py lib spec (parsed py lib d) revision name content_hash generated_at)
      dirs' ← publish_snapshot name (write_snapshot d manifest) dirs
      ok (result_of updated spec name revision content_hash, dirs')

    -- `next(... if snapshot.content_hash == content_hash)`, or a new revision.
    abbrev pub match_or_write :
        VersionSpec
        → Downloads
        → String
        → List RawSnapshot
        → Directories
        → Option RawSnapshot
        → Synced (SyncResult × Directories)
    match_or_write spec d content_hash existing dirs (some s) =
        ok (result_of matched spec s.directory s.revision content_hash, dirs)
    match_or_write spec d content_hash existing dirs none =
        write_revision spec d (suc (last_revision existing)) content_hash dirs

    unfoldable pub refresh :
        Fetcher
        → VersionSpec
        → String
        → List RawSnapshot
        → Directories
        → Synced (SyncResult × Directories)
    unfolding download_payloads snapshot_content_hash with_hash last_revision write_revision
    refresh fetcher spec config_raw existing dirs = do
      d ← download_payloads py lib fetcher spec config_raw
      content_hash ← raising other (snapshot_content_hash py lib (parsed py lib d))
      match_or_write spec d content_hash existing dirs (with_hash content_hash existing)

    abbrev pub choose :
        Fetcher
        → Bool
        → VersionSpec
        → String
        → List RawSnapshot
        → Directories
        → Synced (SyncResult × Directories)
    choose fetcher force spec config_raw [] dirs = refresh fetcher spec config_raw [] dirs
    choose fetcher force spec config_raw (s ∷ rest) dirs =
        let n = newest s rest in
        if force
        then refresh fetcher spec config_raw (s ∷ rest) dirs
        else ok (result_of skipped spec n.directory n.revision n.content_hash, dirs)

    unfoldable pub sync_unlocked :
        Fetcher → Bool → String → String → Directories → Synced (SyncResult × Directories)
    unfolding decode_json build_version_spec read_existing refresh newest
    sync_unlocked fetcher force expected_mode expected_mode_name dirs = do
      config_raw ← fetching (fetcher config_url)
      versions ← raising invalid (decode_json py lib config_raw)
      spec ← raising invalid (build_version_spec py lib expected_mode expected_mode_name versions)
      existing ← read_existing py lib spec dirs
      choose fetcher force spec config_raw existing dirs

    -- `timeout <= 0`, and `retries < 0`
    abbrev pub is_above_zero : ℤ → Bool
    is_above_zero (pos n) = ltb 0 n
    is_above_zero (negsuc _) = false

    abbrev pub is_natural : ℤ → Bool
    is_natural (pos _) = true
    is_natural (negsuc _) = false

    -- The given fetcher, or `fetch_bytes` with what the attempts at an address come to.
    abbrev pub fetcher_or_default : (String → ℕ → Attempt) → ℤ → ℤ → Option Fetcher → Fetcher
    fetcher_or_default opener timeout retries none url =
        (fetch_bytes (opener url) timeout retries).result
    fetcher_or_default opener timeout retries (some fetcher) url = fetcher url

    -- `locked`: whether another process holds the lock.
    unfoldable pub sync_latest :
        (String → ℕ → Attempt)
        → Bool
        → Option Fetcher
        → ℤ
        → ℤ
        → Bool
        → String
        → String
        → Directories
        → Synced (SyncResult × Directories)
    unfolding sync_unlocked
    sync_latest opener locked fetcher timeout retries force expected_mode expected_mode_name dirs =
        do
          guard (is_above_zero timeout) bad_timeout
          guard (is_natural retries) bad_retries
          guard (not locked) lock_unavailable
          sync_unlocked (fetcher_or_default opener timeout retries fetcher) force expected_mode
              expected_mode_name dirs
