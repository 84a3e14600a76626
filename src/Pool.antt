-- ===== src/Pool.antt =====
-- internal/pool: the node pools, their health, and the selection of an egress.
pub mod Types
pub mod Names
pub mod Region
pub mod Metadata
pub mod Order
pub mod Candidates
pub mod Select
pub mod Health
pub mod Nodes
pub mod Entries
pub mod Subscription
