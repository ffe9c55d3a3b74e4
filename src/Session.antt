-- ===== src/Session.antt =====
-- crates/ashfall-server/src/session.rs: what the server keeps of a connection. An `Instant` is a
-- number of nanoseconds, and the clock is an argument.
use ashfall.Prelude.{
  ℕ, ◌+◌, ◌-◌, ◌/◌, ◌%◌, Bool, true, false, Option, none, some, ltb, get_elem?, replicate,
}
use ashfall.StringCache
use ashfall.StringCache.{Text, StringTable}
use ashfall.Packet.{Packet, Cells, game_end}

pub data SessionState : Type 0 where
  connecting authenticating loading in_game disconnecting : SessionState

pub record Session : Type 0 where
  pub guid : ℕ
  pub addr : ℕ
  pub state : SessionState
  pub player_name : Text
  pub player_id : Option ℕ
  pub current_cell : ℕ
  pub cell_context : Cells
  pub created_at : ℕ
  pub last_recv : ℕ
  pub bytes_sent : ℕ
  pub bytes_recv : ℕ
  pub last_seq : Option ℕ
  pub string_table : StringTable

unfoldable pub new : ℕ → ℕ → Text → ℕ → Session
new guid addr name now = record {
  guid = guid;
  addr = addr;
  state = connecting;
  player_name = name;
  player_id = none;
  current_cell = 0;
  cell_context = replicate 9 0;
  created_at = now;
  last_recv = now;
  bytes_sent = 0;
  bytes_recv = 0;
  last_seq = none;
  string_table = StringCache.new;
}

unfoldable pub transition : Session → SessionState → Session
transition s new_state = record s { state = new_state }

unfoldable pub is_active : Session → Bool
is_active s = elim s.state [ disconnecting ↦ false | _ ↦ true ]

unfoldable pub is_ingame : Session → Bool
is_ingame s = elim s.state [ in_game ↦ true | _ ↦ false ]

-- `elapsed()` is 0 where the clock went back.
unfoldable pub is_stale : Session → ℕ → ℕ → Bool
is_stale s timeout_secs now = ltb timeout_secs ((now - s.last_recv) / 1000000000)

unfoldable pub record_recv : Session → ℕ → ℕ → Session
record_recv s bytes now = record s {
  last_recv = now;
  bytes_recv = (s.bytes_recv + bytes) % 18446744073709551616;
}

unfoldable pub record_sent : Session → ℕ → Session
record_sent s bytes = record s { bytes_sent = (s.bytes_sent + bytes) % 18446744073709551616 }

abbrev or_zero : Option ℕ → ℕ
or_zero none = 0
or_zero (some n) = n

-- The nine cells always have a fifth one.
unfoldable pub update_cell_context : Session → Cells → Session
update_cell_context s cells = record s {
  current_cell = or_zero (get_elem? cells 4);
  cell_context = cells;
}

unfoldable pub end_packet : {F : Type 0} → Session → ℕ → Packet F
end_packet s reason = game_end reason
