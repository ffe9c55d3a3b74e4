-- ===== src/Server/Recv.antt =====
-- `handle_recv` and `handle_auth` of crates/ashfall-server/src/dedicated.rs: a datagram from its arrival to
-- the last packet that it makes the server send.
pub mod Notices
pub mod Kept
pub mod Login
use ashfall.Prelude.{
  ℕ, ◌+◌, Bool, true, false, Option, none, some, List, [], ◌∷◌, ◌++◌, leb, ◌==◌, nat_eq,
  if◌then◌else◌, length, get_elem?,
}
use ashfall.Map
use ashfall.Map.Iter.{other_than}
use ashfall.Reliable.{Bytes}
use ashfall.StringCache.{Text, CachedString, StringTable, resolve}
use ashfall.Network.{try_recv}
use ashfall.Network.Rate.{check_rate}
use ashfall.Packet.{
  Packet, Cells, game_auth, game_chat, game_end, game_time, actor_hit, server_settings,
}
use ashfall.Session.{Session, record_recv, in_game}
use ashfall.Script
use ashfall.Script.{
  Call, ScriptState, on_client_authenticate, on_player_chat, on_hit, on_spawn, on_cell_change, ask,
  spawn_cell,
}
use ashfall.World.Objects.{GameObject, a_player, new_player}
use ashfall.World.Objects.Announce.{player_packet}
use ashfall.World.Registry
use ashfall.World.Registry.{ObjectRegistry}
use ashfall.Dispatch
use ashfall.Dispatch.{DispatchResult, dispatch, handle_connection}
use ashfall.Server.{
  Platform, DedicatedServer, shared, after_scripts, ingame_addrs, notify, send, send_each, send_all,
  set_registry, disconnect,
}
use ashfall.Server.Recv.Notices.{player_id_at, notify_packets, notify_deaths}

abbrev or_zero : Option ℕ → ℕ
or_zero none = 0
or_zero (some n) = n

-- The fifth cell of a context is the one that the player is in.
abbrev pub center_cell : Session → ℕ
center_cell session = or_zero (get_elem? session.cell_context 4)

-- `Reason::Denied`, and the reason that a full server gives
abbrev denied : ℕ
denied = 3

abbrev full : ℕ
full = 5

module _ {F : Type 0} where
  unfoldable pub own_packet : Option (GameObject F) → List (Packet F)
  own_packet (some (a_player player)) = player_packet player ∷ []
  own_packet _ = []

module _ {F D M : Type 0} where
  clock_packet : DedicatedServer F D M → Packet F
  clock_packet s =
      game_time s.game_time.year s.game_time.month s.game_time.day s.game_time.hour s.time_scale

  unfoldable pub with_session : DedicatedServer F D M → ℕ → Session → DedicatedServer F D M
  with_session s addr session = record s { sessions = Map.insert s.sessions addr session }

module _ {F D M : Type 0} (p : Platform F D M) where
  -- A question to the scripts.
  unfoldable pub ask_scripts : DedicatedServer F D M → Call F → Bool × DedicatedServer F D M
  ask_scripts s call =
      let (allowed, w) = ask p.run s.instances call (shared s) in (allowed, after_scripts s w)

  -- Whether a script blocks a message or a hit. A message is read with the session's strings.
  gate : DedicatedServer F D M → ℕ → Session → Packet F → Bool × DedicatedServer F D M
  unfolding ask_scripts with_session
  gate s addr session (game_chat message) =
      let (text, table) = resolve message session.string_table in
      ask_scripts (with_session s addr (record session { string_table = table }))
        (on_player_chat (or_zero session.player_id) text)
  gate s addr session (actor_hit target attacker limb base_damage flags weapon_id projectile) =
      ask_scripts s (on_hit target attacker limb base_damage)
  gate s addr session packet = (true, s)

  end_if : Bool → DedicatedServer F D M → ℕ → (now : ℕ) → DedicatedServer F D M
  end_if true s addr now = disconnect p s addr now
  end_if false s addr now = s

  -- Each broadcast goes to the sessions in the game but the sender.
  unfoldable pub send_others :
      DedicatedServer F D M → ℕ → List (Packet F) → (now : ℕ) → DedicatedServer F D M
  send_others s addr [] now = s
  send_others s addr (packet ∷ packets) now =
      send_others (send_each p s (other_than addr (ingame_addrs s)) packet now) addr packets now

  notify_cell : DedicatedServer F D M → ℕ → (before after : ℕ) → DedicatedServer F D M
  notify_cell s addr before after =
      if before == after then s else notify p s (on_cell_change (player_id_at s addr) after)

  -- What is done with the dispatcher's result: the scripts are told, then the packets are sent.
  deliver :
      DedicatedServer F D M
      → ℕ
      → DispatchResult F
      → (before after : ℕ) → (now : ℕ) → DedicatedServer F D M
  unfolding notify_packets notify_deaths notify_cell end_if send_others
  deliver s addr result before after now =
      let packets = result.responses ++ result.broadcasts in
      let told = notify_packets p s addr packets in
      let moved = notify_cell told addr before after in
      let mourned = notify_deaths p moved packets in
      let answered = send_all p mourned addr result.responses now in
      let relayed = send_others answered addr result.broadcasts now in
      end_if result.disconnect relayed addr now

  dispatched :
      DedicatedServer F D M → ℕ → Packet F → (now : ℕ) → Option Session → DedicatedServer F D M
  unfolding deliver with_session
  dispatched s addr packet now none = s
  dispatched s addr packet now (some session) =
      let (result, (session', d)) = dispatch p.float s.dispatcher session packet now in
      deliver (with_session (record s { dispatcher = d }) addr session') addr result
        (center_cell session) (center_cell session') now

  passed : DedicatedServer F D M → ℕ → Packet F → (now : ℕ) → Bool → DedicatedServer F D M
  unfolding dispatched
  passed s addr packet now false = s
  passed s addr packet now true = dispatched s addr packet now (Map.lookup s.sessions addr)

  -- A packet of a session that is there; any other is dropped.
  pub routed :
      DedicatedServer F D M
      → ℕ
      → Packet F
      → (bytes : ℕ) → (now : ℕ) → Option Session
      → DedicatedServer F D M
  unfolding gate passed with_session
  routed s addr packet bytes now none = s
  routed s addr packet bytes now (some session) =
      let session' = record_recv session bytes now in
      let (allowed, s') = gate (with_session s addr session') addr session' packet in
      passed s' addr packet now allowed

  -- The last part of a login: the player object, the session, and what the newcomer and the others are
  -- sent.
  welcome : DedicatedServer F D M → ℕ → Session → (now : ℕ) → DedicatedServer F D M
  unfolding with_session own_packet clock_packet
  welcome s addr session now =
      let (player_id, r) = Registry.allocate_id s.dispatcher.registry in
      let allocated = set_registry s r in
      let (cell, w) = spawn_cell p.run allocated.instances player_id (shared allocated) in
      let asked = after_scripts allocated w in
      let r' =
        (Registry.insert asked.dispatcher.registry
          (a_player (new_player p.float player_id 0x14 0x07 cell))).1 in
      let inserted = set_registry asked r' in
      let session' = record session { player_id = some player_id; state = in_game } in
      let spawned = notify p inserted (on_spawn player_id) in
      let introduced =
        send_all p spawned addr (own_packet (Registry.get spawned.dispatcher.registry player_id))
          now in
      let world = Dispatch.send_world_state p.float introduced.dispatcher session' in
      let entered =
        send_all p (with_session introduced addr session') addr
          (world ++ server_settings introduced.config.pvp_enabled ∷ clock_packet introduced ∷ [])
          now in
      send_others entered addr (own_packet (Registry.get entered.dispatcher.registry player_id)) now

  opened :
      DedicatedServer F D M
      → ℕ
      → (now : ℕ) → Option Session × List (Packet F)
      → DedicatedServer F D M
  unfolding welcome
  opened s addr now (none, responses) = send_all p s addr responses now
  opened s addr now (some session, responses) =
      welcome (send_all p s addr responses now) addr session now

  voted :
      DedicatedServer F D M
      → ℕ
      → (name password version : Text) → (session_id now : ℕ) → Bool
      → DedicatedServer F D M
  unfolding opened
  voted s addr name password version session_id now false = send p s addr (game_end denied) now
  voted s addr name password version session_id now true =
      opened s addr now
        (handle_connection p.float s.dispatcher addr name password version session_id now)

  unfoldable pub handle_auth :
      DedicatedServer F D M → ℕ → (name password version : Text) → (now : ℕ) → DedicatedServer F D M
  unfolding voted ask_scripts
  handle_auth s addr name password version now =
      if leb s.config.connections (length s.sessions.entries)
      then send p s addr (game_end full) now
      else let (allowed, s') =
          ask_scripts (record s { next_guid = s.next_guid + 1 })
            (on_client_authenticate name password) in
        voted s' addr name password version s.next_guid now allowed

  received :
      DedicatedServer F D M
      → ℕ
      → (bytes : ℕ) → (now : ℕ) → Option (Packet F)
      → DedicatedServer F D M
  unfolding handle_auth routed
  received s addr bytes now none = s
  received s addr bytes now (some (game_auth name password version)) =
      handle_auth s addr name password version now
  received s addr bytes now (some packet) =
      routed s addr packet bytes now (Map.lookup s.sessions addr)

  unfoldable pub handle_recv : DedicatedServer F D M → ℕ → Bytes → (now : ℕ) → DedicatedServer F D M
  unfolding received
  handle_recv s addr bytes now =
      let (passes, limiters) = check_rate p.double s.rate_limiters addr now in
      let limited = record s { rate_limiters = limiters } in
      let (packet, network) = try_recv p.codec limited.network addr bytes now in
      if passes
      then received (record limited { network = network }) addr (length bytes) now packet
      else limited
