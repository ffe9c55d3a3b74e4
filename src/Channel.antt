-- ===== src/Channel.antt =====
-- The channel of a packet: crates/ashfall-core/src/protocol/channel.rs (`enum Channel`).
use ashfall.Prelude.{ℕ}

pub data Channel : Type 0 where
  system game chat : Channel

-- `channel as u8`
abbrev pub as_u8 : Channel → ℕ
as_u8 system = 0
as_u8 game = 1
as_u8 chat = 2
