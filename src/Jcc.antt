-- ===== src/Jcc.antt =====
-- app/jcc_data: the official game data, from decoded JSON to published tables.
pub mod Json
pub mod Decimal
pub mod Integer
pub mod Scalars
pub mod Adapters
pub mod Store
pub mod Queries
pub mod Reader
