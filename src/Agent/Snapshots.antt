-- ===== src/Agent/Snapshots.antt =====
-- `_resolve_snapshot` of app/agent/orchestrator.py: the snapshot that a run works with, written to its row once.
use tsuz_api_jcc.Base.{ℕ, String, Option, none, some, [], ◌∷◌}
use tsuz_api_jcc.Conversations.Rows.{RunStatus, Run, Db}
use tsuz_api_jcc.Conversations.Repository.{RunPatch, run_patch, update_run_status, run_by_id}
use tsuz_api_jcc.Jcc.Store.{Store, SnapshotRow, get_snapshot}
use tsuz_api_jcc.Jcc.Queries.{current_snapshot}

-- app/agent/tools/schemas.py
pub record SnapshotContext : Type 0 where
  pub snapshot_id : ℕ
  pub mode : String
  pub season : String
  pub version : String
  pub revision : ℕ
  pub content_hash : String

abbrev pub context_of : SnapshotRow → SnapshotContext
context_of r = record {
  snapshot_id = r.id;
  mode = r.value.mode;
  season = r.value.season;
  version = r.value.version;
  revision = r.value.revision;
  content_hash = r.value.content_hash;
}

-- `run.snapshot_mode or ""`
abbrev pub mode_or_empty : Option String → String
mode_or_empty none = ""
mode_or_empty (some m) = m

abbrev pub snapshot_of : String → Run → Option ℕ → Store → Option SnapshotRow
snapshot_of data_mode r none store = current_snapshot data_mode store
snapshot_of data_mode r (some i) store = get_snapshot (mode_or_empty r.snapshot_mode) i store

abbrev pub snapshot_patch : SnapshotContext → RunPatch
snapshot_patch c = record (run_patch RunStatus.running) {
  snapshot_id = some c.snapshot_id;
  snapshot_mode = some c.mode;
  snapshot_season = some c.season;
  snapshot_version = some c.version;
  snapshot_revision = some c.revision;
  snapshot_content_hash = some c.content_hash;
}

-- The run's row is written only while it has no snapshot.
abbrev pub pin_snapshot : String → Option ℕ → SnapshotContext → Db → Db
pin_snapshot run_id (some _) c db = db
pin_snapshot run_id none c db =
    (update_run_status run_id (RunStatus.running ∷ []) (snapshot_patch c) db).0

abbrev pub resolved : String → Option ℕ → Option SnapshotRow → Db → Option SnapshotContext × Db
resolved run_id pinned none db = (none, db)
resolved run_id pinned (some row) db =
    (some (context_of row), pin_snapshot run_id pinned (context_of row) db)

abbrev pub resolve_found : String → Store → String → Option Run → Db → Option SnapshotContext × Db
resolve_found data_mode store run_id none db = (none, db)
resolve_found data_mode store run_id (some r) db =
    resolved run_id r.snapshot_id (snapshot_of data_mode r r.snapshot_id store) db

-- `data_mode` is the setting `jcc_data_mode`.
unfoldable pub resolve_snapshot : String → Store → String → Db → Option SnapshotContext × Db
unfolding update_run_status
resolve_snapshot data_mode store run_id db =
    resolve_found data_mode store run_id (run_by_id run_id db) db
