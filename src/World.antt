-- ===== src/World.antt =====
-- The server's world: crates/ashfall-server/src/world.
pub mod Kind
pub mod Cell
pub mod PositionHistory
pub mod Objects
pub mod Registry
