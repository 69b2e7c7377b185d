-- ===== src/Sync.antt =====
-- scripts/sync_jcc_data.py: the download of the raw data. What the server and the network do is a
-- parameter. Times are seconds.
pub mod Fetch
pub mod Payloads
pub mod Latest
