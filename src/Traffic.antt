-- ===== src/Traffic.antt =====
-- internal/traffic: the records of requests, how they are grouped, counted and kept.
pub mod Types
pub mod Wildcard
pub mod Rules
pub mod Config
pub mod Group
pub mod Ids
pub mod Store
pub mod Metrics
pub mod Display
pub mod Series
pub mod Snapshots
