-- ===== src/Planner.antt =====
-- planner: the planning of a query, in its parts.
pub mod Constants
pub mod Zones
pub mod Walk
pub mod Logical
pub mod Optimizer
