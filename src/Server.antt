-- ===== src/Server.antt =====
-- `DedicatedServer` of crates/ashfall-server/src/dedicated.rs: the sessions, what is sent to them, and how
-- one ends. What is handed to the socket is the list `out`. The scripts, which share the dispatcher's
-- world, are those of Script.antt; the database, which only the start reads, is left out.
pub mod Recv
pub mod Tick
pub mod Frame
pub mod Leave
pub mod Sends
pub mod Room
use ashfall.Prelude.{
  ℕ, ◌+◌, Bool, true, false, Option, none, some, List, [], ◌∷◌, ◌++◌, ◌==◌, nat_eq, if◌then◌else◌,
}
use ashfall.Map
use ashfall.Map.{Map}
use ashfall.Map.Iter.{keys_where}
use ashfall.Float.{Float}
use ashfall.Reliable.{Bytes}
use ashfall.StringCache.{Text, plain}
use ashfall.Network
use ashfall.Network.{Codec, NetworkManager, Sent, ok, err, send_reliable}
use ashfall.Network.Rate.{RateLimiter}
use ashfall.Packet.{Packet, game_end, game_chat, game_weather, quest_stage, ownership_released}
use ashfall.Packet.Strings.{finalize_strings}
use ashfall.Session.{Session, is_ingame}
use ashfall.Script
use ashfall.Script.{
  GameTime, ScriptEffect, private_chat, broadcast_chat, kick, broadcast_packet, TimerManager,
  ScriptState, Call, Runtime, on_player_disconnect, on_quest_stage, ask, spawn_cell,
}
use ashfall.World.Registry
use ashfall.World.Registry.{release_player_owned}
use ashfall.Dispatch.{Dispatcher}

-- What the server is built on: the arithmetic, the serialisation, and the scripts' runtime.
pub record Platform (F D M : Type 0) : Type 0 where
  pub float : Float F
  pub double : Float D
  pub codec : Codec F
  pub run : Runtime F M

pub record Config : Type 0 where
  pub connections : ℕ
  pub pvp_enabled : Bool
  pub tick_interval_ms : ℕ

-- The announcer to the master server.
pub record MasterAnnouncer : Type 0 where
  pub master_addr : ℕ
  pub server_name : Text
  pub server_map : Text
  pub game_type : Text
  pub max_players : ℕ
  pub last_announce : ℕ

pub record DedicatedServer (F D M : Type 0) : Type 0 where
  pub config : Config
  pub dispatcher : Dispatcher F
  pub network : NetworkManager
  pub rate_limiters : Map ℕ (RateLimiter D)
  pub instances : List M
  pub timers : TimerManager
  pub game_time : GameTime
  pub time_scale : F
  pub effects : List (ScriptEffect F)
  pub player_count : ℕ
  pub master_announcer : MasterAnnouncer
  pub sessions : Map ℕ Session
  pub next_guid : ℕ
  pub last_weather : ℕ
  pub last_quest_stages : Map ℕ ℕ
  pub last_game_time : Option GameTime
  pub time_accum : F
  pub out : List (ℕ × Bytes)

-- `Reason::Quit`
abbrev quit : ℕ
quit = 4

-- The sessions of a player.
abbrev is_player : ℕ → Session → Bool
is_player player_id session = elim session.player_id [ none ↦ false | some p ↦ p == player_id ]

module _ {F D M : Type 0} where
  -- What the scripts see of a server, and what they leave of it.
  unfoldable pub shared : DedicatedServer F D M → ScriptState F
  shared s = record {
    registry = s.dispatcher.registry;
    weather = s.dispatcher.weather;
    globals = s.dispatcher.globals;
    quests = s.dispatcher.quests;
    timers = s.timers;
    game_time = s.game_time;
    time_scale = s.time_scale;
    effects = s.effects;
    player_count = s.player_count;
  }

  unfoldable pub after_scripts :
      DedicatedServer F D M → List M × ScriptState F → DedicatedServer F D M
  after_scripts s (instances, w) = record s {
    dispatcher = record s.dispatcher {
      registry = w.registry;
      weather = w.weather;
      globals = w.globals;
      quests = w.quests;
    };
    instances = instances;
    timers = w.timers;
    game_time = w.game_time;
    time_scale = w.time_scale;
    effects = w.effects;
    player_count = w.player_count;
  }

  unfoldable pub set_registry :
      DedicatedServer F D M → Registry.ObjectRegistry F → DedicatedServer F D M
  set_registry s r = record s { dispatcher = record s.dispatcher { registry = r } }

  unfoldable pub ingame_addrs : DedicatedServer F D M → List ℕ
  ingame_addrs s = keys_where is_ingame s.sessions

  unfoldable pub addrs_of : DedicatedServer F D M → ℕ → List ℕ
  addrs_of s player_id = keys_where (is_player player_id) s.sessions

  -- A session's strings are bound where there is a session.
  bind_for :
      DedicatedServer F D M → ℕ → Packet F → Option Session → Packet F × DedicatedServer F D M
  bind_for s addr packet none = (packet, s)
  bind_for s addr packet (some session) =
      let (packet', table) = finalize_strings packet session.string_table in
      (
        packet',
        record s {
          sessions = Map.insert s.sessions addr (record session { string_table = table });
        },
      )

  hand_over : DedicatedServer F D M → ℕ → Sent (Bytes × NetworkManager) → DedicatedServer F D M
  hand_over s addr (ok (frame, network)) = record s {
    network = network;
    out = s.out ++ (addr, frame) ∷ [];
  }
  hand_over s addr (err e) = s

module _ {F D M : Type 0} (p : Platform F D M) where
  unfoldable pub notify : DedicatedServer F D M → Call F → DedicatedServer F D M
  notify s call = after_scripts s (Script.notify p.run s.instances call (shared s))

  -- A failure to send is ignored.
  unfoldable pub send : DedicatedServer F D M → ℕ → Packet F → (now : ℕ) → DedicatedServer F D M
  unfolding bind_for hand_over
  send s addr packet now =
      let (packet', s') = bind_for s addr packet (Map.lookup s.sessions addr) in
      hand_over s' addr (send_reliable p.codec s'.network addr packet' now)

  unfoldable pub send_each :
      DedicatedServer F D M → List ℕ → Packet F → (now : ℕ) → DedicatedServer F D M
  unfolding send
  send_each s [] packet now = s
  send_each s (addr ∷ addrs) packet now = send_each (send s addr packet now) addrs packet now

  unfoldable pub send_all :
      DedicatedServer F D M → ℕ → List (Packet F) → (now : ℕ) → DedicatedServer F D M
  unfolding send
  send_all s addr [] now = s
  send_all s addr (packet ∷ packets) now = send_all (send s addr packet now) addr packets now

  unfoldable pub release_each :
      DedicatedServer F D M → List ℕ → List ℕ → (now : ℕ) → DedicatedServer F D M
  unfolding send_each
  release_each s [] addrs now = s
  release_each s (id ∷ ids) addrs now =
      release_each (send_each s addrs (ownership_released id) now) ids addrs now

  -- What the end of a session does about its player: the scripts are told, the actors that it owned
  -- are released, and its object is removed.
  unfoldable pub leave : DedicatedServer F D M → Option ℕ → (now : ℕ) → DedicatedServer F D M
  unfolding notify release_each set_registry
  leave s none now = s
  leave s (some player_id) now =
      let told = notify s (on_player_disconnect player_id 4) in
      let (released, r) = release_player_owned told.dispatcher.registry player_id in
      let freed = set_registry told r in
      let sent = release_each freed released (ingame_addrs freed) now in
      set_registry sent (Registry.remove sent.dispatcher.registry player_id).1

  end_session : DedicatedServer F D M → ℕ → Option Session → (now : ℕ) → DedicatedServer F D M
  unfolding leave
  end_session s addr none now = s
  end_session s addr (some session) now =
      let left = leave (record s { sessions = Map.remove s.sessions addr }) session.player_id now in
      record left {
        network = Network.remove_session left.network addr;
        rate_limiters = Map.remove left.rate_limiters addr;
      }

  unfoldable pub disconnect : DedicatedServer F D M → ℕ → (now : ℕ) → DedicatedServer F D M
  unfolding end_session
  disconnect s addr now = end_session s addr (Map.lookup s.sessions addr) now

  unfoldable pub kick_each : DedicatedServer F D M → List ℕ → (now : ℕ) → DedicatedServer F D M
  unfolding send disconnect
  kick_each s [] now = s
  kick_each s (addr ∷ addrs) now =
      kick_each (disconnect (send s addr (game_end quit) now) addr now) addrs now

  unfoldable pub apply_effect :
      DedicatedServer F D M → ScriptEffect F → (now : ℕ) → DedicatedServer F D M
  unfolding send_each kick_each
  apply_effect s (private_chat player_id message) now =
      send_each s (addrs_of s player_id) (game_chat (plain message)) now
  apply_effect s (broadcast_chat message) now =
      send_each s (ingame_addrs s) (game_chat (plain message)) now
  apply_effect s (kick player_id) now = kick_each s (addrs_of s player_id) now
  apply_effect s (broadcast_packet packet) now = send_each s (ingame_addrs s) packet now

  unfoldable pub apply_effects :
      DedicatedServer F D M → List (ScriptEffect F) → (now : ℕ) → DedicatedServer F D M
  unfolding apply_effect
  apply_effects s [] now = s
  apply_effects s (e ∷ es) now = apply_effects (apply_effect s e now) es now
