-- ===== src/Agent.antt =====
-- app/agent: the lifecycle of a run in the database and the events of a conversation.
pub mod Lifecycle
pub mod Snapshots
pub mod Moves
pub mod Follows
pub mod Steps
pub mod Once
pub mod Events
pub mod Runtime
pub mod Summary
pub mod Tools
