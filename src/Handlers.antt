-- ===== src/Handlers.antt =====
-- crates/ashfall-server/src/handlers: what the server does with the packets of a player.
pub mod Actor
pub mod Rights
pub mod Object
pub mod Auth
pub mod Item
pub mod Physics
pub mod Player
pub mod Game
