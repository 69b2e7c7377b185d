-- ===== src/Conversations.antt =====
-- app/conversations and app/agent/models.py: conversations, their messages and their runs.
pub mod Rows
pub mod Repository
pub mod Service
pub mod Updates
pub mod Idempotency
pub mod Retry
