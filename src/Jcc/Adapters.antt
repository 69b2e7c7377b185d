-- ===== src/Jcc/Adapters.antt =====
-- app/jcc_data/adapters.py: from a raw snapshot to a structured one that no table appears in.
pub mod Data
pub mod Tiers
pub mod Traits
pub mod Entities
pub mod Snapshot
pub mod Closed
pub mod Whole
