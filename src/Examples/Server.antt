-- ===== src/Examples/Server.antt =====
-- Runs of the server: a login, a tick, and the end of a session whose player owns an actor.
use ashfall.Prelude.{
  ℕ, ◌≡◌, ◌≤◌, ◌<◌, ◌+◌, refl, true, false, none, some, List, [], ◌∷◌, ◌++◌, arith, nat_eq, All,
}
use ashfall.Examples.Numbers.{numbers}
use ashfall.Map
use ashfall.Reliable.{Bytes}
use ashfall.Packet.{game_auth}
use ashfall.Session
use ashfall.Session.{Session, in_game}
use ashfall.Script.{GameTime, advance_hour, default_time, no_timers}
use ashfall.Script.Clock.{hours_of, advance_hour-hours_of}
use ashfall.World.Objects.{a_player, new_player}
use ashfall.World.Registry
use ashfall.Dispatch.{new_dispatcher}
use ashfall.Server.{Platform, DedicatedServer, disconnect}
use ashfall.Server.Leave.{Forgotten, LeftBy, disconnect-gone}
use ashfall.Server.Recv.{handle_recv}
use ashfall.Server.Room.{here, next, receives, ticks, Fits, Runs-Fits}
use ashfall.Server.Sends.{may_hear, handle_recv-recipients}
use ashfall.Server.Tick.{tick}

-- Every datagram is a login.
abbrev platform : Platform ℕ ℕ ℕ
platform = record {
  float = numbers;
  double = numbers;
  codec = record {
    to_stdvec = λ packet. some (7 ∷ []);
    from_bytes = λ bytes. some (game_auth (65 ∷ []) [] []);
  };
  run = λ memory call given. (none, (memory, given));
}

abbrev empty_server : DedicatedServer ℕ ℕ ℕ
empty_server = record {
  config = record { connections = 1; pvp_enabled = false; tick_interval_ms = 50 };
  dispatcher = new_dispatcher;
  network = record { reliable = Map.empty; resend_queue = [] };
  rate_limiters = Map.empty;
  instances = 0 ∷ [];
  timers = no_timers;
  game_time = default_time;
  time_scale = 1;
  effects = [];
  player_count = 0;
  master_announcer = record {
    master_addr = 0;
    server_name = [];
    server_map = [];
    game_type = [];
    max_players = 1;
    last_announce = 0;
  };
  sessions = Map.empty;
  next_guid = 1;
  last_weather = 0;
  last_quest_stages = Map.empty;
  last_game_time = none;
  time_accum = 0;
  out = [];
}

abbrev player_session : Session
player_session = record (Session.new 1 2 (87 ∷ []) 0) { player_id = some 9; state = in_game }

abbrev playing : DedicatedServer ℕ ℕ ℕ
playing = record empty_server {
  sessions = Map.insert Map.empty 2 player_session;
  dispatcher = record new_dispatcher {
    registry =
        (Registry.set_owner
          (Registry.insert Registry.new (a_player (new_player numbers 9 20 7 5))).1 30 9).1;
  };
}

abbrev new_year_eve : GameTime
new_year_eve = record { year = 2277; month = 12; day = 30; hour = 23 }

advance_hour-hours_of_example :
    (hours_of (advance_hour new_year_eve) ≡ hours_of new_year_eve + 1)
    × (((1 ≤ (advance_hour new_year_eve).month) × ((advance_hour new_year_eve).month ≤ 12))
        × (((1 ≤ (advance_hour new_year_eve).day) × ((advance_hour new_year_eve).day ≤ 30))
            × ((advance_hour new_year_eve).hour < 24)))
advance_hour-hours_of_example = advance_hour-hours_of new_year_eve (ground arith)

empty_server-Fits : Fits empty_server
unfolding Map.empty
empty_server-Fits = omega arith

Runs-Fits_example :
    Fits (tick platform (handle_recv platform empty_server 5 (1 ∷ 2 ∷ 3 ∷ []) 10) 20)
Runs-Fits_example = Runs-Fits platform {s = empty_server} empty_server-Fits (
    next (next here (receives empty_server 5 (1 ∷ 2 ∷ 3 ∷ []) 10))
      (ticks (handle_recv platform empty_server 5 (1 ∷ 2 ∷ 3 ∷ []) 10) 20))

handle_recv-recipients_example :
    (new : List (ℕ × Bytes)) × ((handle_recv platform playing 2 (1 ∷ 2 ∷ 3 ∷ []) 10).out
      ≡ playing.out ++ new)
    × All (λ e. may_hear playing 2 e.0 ≡ true) new
handle_recv-recipients_example = handle_recv-recipients platform playing 2 (1 ∷ 2 ∷ 3 ∷ []) 10

disconnect-gone_example :
    Forgotten 2 (disconnect platform playing 2 10)
    × LeftBy player_session.player_id (disconnect platform playing 2 10).dispatcher.registry
unfolding Map.lookup Map.insert Map.empty
disconnect-gone_example = disconnect-gone platform playing 2 player_session 10 refl
