-- ===== src/Server/Tick.antt =====
-- `tick` of crates/ashfall-server/src/dedicated.rs, with `sync_world_state`, and the announcer of master.rs:
-- what the server does between datagrams.
pub mod Kept
use ashfall.Prelude.{
  ℕ, ◌+◌, ◌-◌, ◌/◌, Bool, true, false, Option, none, some, List, [], ◌∷◌, ◌++◌, ltb, ◌==◌, nat_eq,
  if◌then◌else◌, length, u16, u32, to_le_bytes,
}
use ashfall.Map
use ashfall.Map.{Map}
use ashfall.Reliable.{Bytes}
use ashfall.StringCache.{Text}
use ashfall.Network
use ashfall.Packet.{Packet, game_weather, quest_stage, game_time, master_announce}
use ashfall.Session.{Session, is_stale}
use ashfall.Script
use ashfall.Script.{
  GameTime, same_time, advance_hour, Call, timer_callback, on_quest_stage, on_game_time_change,
}
use ashfall.Server.{
  Platform, Config, DedicatedServer, MasterAnnouncer, ingame_addrs, notify, send_each,
  apply_effects,
}

module _ {F D M : Type 0} (p : Platform F D M) where
  fire_timers : DedicatedServer F D M → List (ℕ × Text) → DedicatedServer F D M
  fire_timers s [] = s
  fire_timers s ((id, callback) ∷ timers) =
      fire_timers (notify p s (timer_callback callback id)) timers

  sync_weather : DedicatedServer F D M → (now : ℕ) → DedicatedServer F D M
  sync_weather s now =
      let weather = s.dispatcher.weather in
      if weather == s.last_weather
      then s
      else send_each p (record s { last_weather = weather }) (ingame_addrs s) (game_weather weather)
          now

  abbrev is_stage : ℕ → Option ℕ → Bool
  is_stage stage none = false
  is_stage stage (some last) = last == stage

  sync_quests : DedicatedServer F D M → List (ℕ × ℕ) → (now : ℕ) → DedicatedServer F D M
  sync_quests s [] now = s
  sync_quests s ((quest_id, stage) ∷ stages) now =
      let marked = record s { last_quest_stages = Map.insert s.last_quest_stages quest_id stage } in
      let sent = send_each p marked (ingame_addrs s) (quest_stage quest_id stage) now in
      let told = notify p sent (on_quest_stage quest_id stage) in
      sync_quests (if is_stage stage (Map.lookup s.last_quest_stages quest_id) then s else told)
        stages now

  -- The weather, and the quest stages as they are when the weather has been sent.
  unfoldable pub sync_world_state : DedicatedServer F D M → (now : ℕ) → DedicatedServer F D M
  unfolding sync_weather sync_quests
  sync_world_state s now =
      let s' = sync_weather s now in sync_quests s' s'.dispatcher.quests.stages.entries now

  -- The part of an hour that a tick adds is kept until it makes an hour.
  unfoldable pub advance_clock : DedicatedServer F D M → DedicatedServer F D M
  advance_clock s =
      let f = p.float in
      let delta_secs = f.div (f.of_nat s.config.tick_interval_ms) (f.literal 1000 1) in
      let accum = f.add s.time_accum (f.div (f.mul delta_secs s.time_scale) (f.literal 3600 1)) in
      if f.le f.one accum
      then record s { time_accum = f.sub accum f.one; game_time = advance_hour s.game_time }
      else record s { time_accum = accum }

  abbrev seen_before : GameTime → Option GameTime → Bool
  seen_before t none = false
  seen_before t (some last) = same_time last t

  announce_clock : DedicatedServer F D M → (now : ℕ) → DedicatedServer F D M
  announce_clock s now =
      let t = s.game_time in
      let told = notify p (record s { last_game_time = some t }) (on_game_time_change t) in
      if seen_before t s.last_game_time
      then s
      else send_each p told (ingame_addrs told)
          (game_time t.year t.month t.day t.hour told.time_scale) now

  count_players : DedicatedServer F D M → DedicatedServer F D M
  count_players s = record s { player_count = u32 (length (ingame_addrs s)) }

  flush : DedicatedServer F D M → (now : ℕ) → DedicatedServer F D M
  flush s now =
      let (network, frames) = Network.tick s.network now in
      record s { network = network; out = s.out ++ frames }

  announcement : MasterAnnouncer → ℕ → Packet F
  announcement a players =
      master_announce a.server_name a.server_map players a.max_players Map.empty [] a.game_type

  framed : ℕ → Option Bytes → List (ℕ × Bytes)
  framed addr none = []
  framed addr (some payload) = (addr, to_le_bytes (u16 (length payload)) ++ 0 ∷ payload) ∷ []

  -- Every sixty seconds; a failure is logged.
  unfoldable pub heartbeat : DedicatedServer F D M → ℕ → (now : ℕ) → DedicatedServer F D M
  unfolding announcement framed
  heartbeat s players now =
      let a = s.master_announcer in
      if ltb ((now - a.last_announce) / 1000000000) 60 then s else record s {
        master_announcer = record a { last_announce = now };
        out = s.out ++ framed a.master_addr (p.codec.to_stdvec (announcement a players));
      }

  cull_entries : DedicatedServer F D M → List (ℕ × Session) → (now : ℕ) → DedicatedServer F D M
  cull_entries s [] now = s
  cull_entries s ((addr, session) ∷ entries) now =
      cull_entries
        (if is_stale session 30 now
          then record s {
            sessions = Map.remove s.sessions addr;
            network = Network.remove_session s.network addr;
            rate_limiters = Map.remove s.rate_limiters addr;
          }
          else s)
        entries now

  -- Sessions that have been silent for more than thirty seconds go, and nothing else with them.
  unfoldable pub cull_stale : DedicatedServer F D M → (now : ℕ) → DedicatedServer F D M
  unfolding cull_entries
  cull_stale s now = cull_entries s s.sessions.entries now

  unfoldable pub tick : DedicatedServer F D M → (now : ℕ) → DedicatedServer F D M
  unfolding fire_timers sync_world_state announce_clock count_players flush
  tick s now =
      let (due, timers) = Script.tick_timers s.timers now in
      let fired = fire_timers (record s { timers = timers }) due in
      let applied = apply_effects p (record fired { effects = [] }) fired.effects now in
      let synced = sync_world_state applied now in
      let clocked = announce_clock (advance_clock synced) now in
      let counted = count_players clocked in
      cull_stale (heartbeat (flush counted now) counted.player_count now) now
