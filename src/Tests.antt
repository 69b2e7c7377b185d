-- ===== src/Tests.antt =====
-- Runs of the definitions at concrete inputs.
mod Messages
mod Runs
mod Limits
mod Official
mod Access
mod Streams
mod Histories
mod Queries
mod Tools
mod Reader
