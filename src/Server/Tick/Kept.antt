-- ===== src/Server/Tick/Kept.antt =====
-- What a tick keeps that anyone may hear from: `tick` of crates/ashfall-server/src/dedicated.rs.
use ashfall.Prelude.{
  ℕ, ◌≡◌, refl, Bool, true, false, some, List, [], ◌∷◌, ◌++◌, ◌==◌, ltb, ◌-◌, ◌/◌, nat_eq,
  if◌then◌else◌, All,
}
use ashfall.Map
use ashfall.Reliable.{Bytes}
use ashfall.StringCache.{Text, plain}
use ashfall.Packet.{Packet, game_end, game_chat, game_weather, quest_stage, game_time}
use ashfall.Session.{Session, is_stale}
use ashfall.Network
use ashfall.Script
use ashfall.Script.{
  GameTime, advance_hour, ScriptEffect, private_chat, broadcast_chat, kick, broadcast_packet,
  on_quest_stage, timer_callback, on_game_time_change,
}
use ashfall.Server.{
  Platform, DedicatedServer, ingame_addrs, addrs_of, notify, send, send_each, disconnect, kick_each,
  apply_effect, apply_effects, quit,
}
use ashfall.Server.Frame.{Kept, notify-Kept, send-Kept, send_each-Kept, disconnect-Kept}
use ashfall.Server.Tick.{
  fire_timers, sync_weather, sync_quests, sync_world_state, advance_clock, announce_clock,
  count_players, flush, heartbeat, cull_entries, cull_stale, tick, is_stage, seen_before,
}

module _ {F D M : Type 0} (p : Platform F D M) {P : DedicatedServer F D M → Type 0}
    {allowed : ℕ → Bool} (k : Kept P allowed)
    (everyone : (addrs : List ℕ) → All (λ addr. allowed addr ≡ true) addrs)
    (outs : (s : DedicatedServer F D M) (out : List (ℕ × Bytes))
      → P s
      → P (record s { out = out })) where
  either : (b : Bool) (s t : DedicatedServer F D M) → P s → P t → P (if b then s else t)
  either true s t h g = h
  either false s t h g = g

  timers-Kept :
      (s : DedicatedServer F D M) (timers : List (ℕ × Text)) → P s → P (fire_timers p s timers)
  unfolding fire_timers
  timers-Kept s [] h = h
  timers-Kept s ((id, callback) ∷ timers) h =
      timers-Kept (notify p s (timer_callback callback id)) timers
        (notify-Kept p k s (timer_callback callback id) h)

  allowed_any : (addr : ℕ) → allowed addr ≡ true
  allowed_any addr = (everyone (addr ∷ [])).0

  each-Kept :
      (s : DedicatedServer F D M) (addrs : List ℕ) (packet : Packet F) (now : ℕ)
      → P s
      → P (send_each p s addrs packet now)
  each-Kept s addrs packet now h = send_each-Kept p k s addrs packet now (everyone addrs) h

  kick-Kept :
      (s : DedicatedServer F D M) (addrs : List ℕ) (now : ℕ) → P s → P (kick_each p s addrs now)
  unfolding kick_each
  kick-Kept s [] now h = h
  kick-Kept s (addr ∷ addrs) now h =
      let sent = send p s addr (game_end quit) now in
      kick-Kept (disconnect p sent addr now) addrs now (
        disconnect-Kept p k sent addr now
          (send-Kept p k s addr (game_end quit) now (allowed_any addr) h))

  effect-Kept :
      (s : DedicatedServer F D M) (e : ScriptEffect F) (now : ℕ) → P s → P (apply_effect p s e now)
  unfolding apply_effect
  effect-Kept s (private_chat player_id message) now h =
      each-Kept s (addrs_of s player_id) (game_chat (plain message)) now h
  effect-Kept s (broadcast_chat message) now h =
      each-Kept s (ingame_addrs s) (game_chat (plain message)) now h
  effect-Kept s (kick player_id) now h = kick-Kept s (addrs_of s player_id) now h
  effect-Kept s (broadcast_packet packet) now h = each-Kept s (ingame_addrs s) packet now h

  effects-Kept :
      (s : DedicatedServer F D M) (es : List (ScriptEffect F)) (now : ℕ)
      → P s
      → P (apply_effects p s es now)
  unfolding apply_effects
  effects-Kept s [] now h = h
  effects-Kept s (e ∷ es) now h =
      effects-Kept (apply_effect p s e now) es now (effect-Kept s e now h)

  weather-Kept : (s : DedicatedServer F D M) (now : ℕ) → P s → P (sync_weather p s now)
  unfolding sync_weather
  weather-Kept s now h =
      let marked = record s { last_weather = s.dispatcher.weather } in
      either (s.dispatcher.weather == s.last_weather) s _ h (
        each-Kept marked (ingame_addrs s) (game_weather s.dispatcher.weather) now
          (k.same s marked refl refl refl h))

  quests-Kept :
      (s : DedicatedServer F D M) (stages : List (ℕ × ℕ)) (now : ℕ)
      → P s
      → P (sync_quests p s stages now)
  unfolding sync_quests
  quests-Kept s [] now h = h
  quests-Kept s ((quest_id, stage) ∷ stages) now h =
      let marked = record s { last_quest_stages = Map.insert s.last_quest_stages quest_id stage } in
      let sent = send_each p marked (ingame_addrs s) (quest_stage quest_id stage) now in
      let told = notify p sent (on_quest_stage quest_id stage) in
      let test = is_stage p stage (Map.lookup s.last_quest_stages quest_id) in
      quests-Kept (if test then s else told) stages now (
        either test s told h (
          notify-Kept p k sent (on_quest_stage quest_id stage) (
            each-Kept marked (ingame_addrs s) (quest_stage quest_id stage) now
              (k.same s marked refl refl refl h))))

  clock-Kept : (s : DedicatedServer F D M) → P s → P (advance_clock p s)
  unfolding advance_clock
  clock-Kept s h = either _ _ _ (k.same s _ refl refl refl h) (k.same s _ refl refl refl h)

  announce-Kept : (s : DedicatedServer F D M) (now : ℕ) → P s → P (announce_clock p s now)
  unfolding announce_clock
  announce-Kept s now h =
      let t = s.game_time in
      let marked = record s { last_game_time = some t } in
      let told = notify p marked (on_game_time_change t) in
      either (seen_before p t s.last_game_time) s _ h (
        each-Kept told (ingame_addrs told) (game_time t.year t.month t.day t.hour told.time_scale)
          now (notify-Kept p k marked (on_game_time_change t) (k.same s marked refl refl refl h)))

  flush-Kept : (s : DedicatedServer F D M) (now : ℕ) → P s → P (flush p s now)
  unfolding flush
  flush-Kept s now h =
      let (network, frames) = Network.tick s.network now in
      let wired = record s { network = network } in
      outs wired (s.out ++ frames) (k.same s wired refl refl refl h)

  beat-Kept : (s : DedicatedServer F D M) (players now : ℕ) → P s → P (heartbeat p s players now)
  unfolding heartbeat
  beat-Kept s players now h =
      let marked = record s {
        master_announcer = record s.master_announcer { last_announce = now };
      } in
      either (ltb ((now - s.master_announcer.last_announce) / 1000000000) 60) s _ h
        (outs marked _ (k.same s marked refl refl refl h))

  cull-Kept :
      (s : DedicatedServer F D M) (entries : List (ℕ × Session)) (now : ℕ)
      → P s
      → P (cull_entries p s entries now)
  unfolding cull_entries
  cull-Kept s [] now h = h
  cull-Kept s ((addr, session) ∷ entries) now h =
      let gone = record s {
        sessions = Map.remove s.sessions addr;
        network = Network.remove_session s.network addr;
        rate_limiters = Map.remove s.rate_limiters addr;
      } in
      cull-Kept (if is_stale session 30 now then gone else s) entries now (
        either (is_stale session 30 now) gone s
          (k.same (record s { sessions = Map.remove s.sessions addr }) gone refl refl refl
            (k.removes s addr h))
          h)

  pub tick-Kept : (s : DedicatedServer F D M) (now : ℕ) → P s → P (tick p s now)
  unfolding tick sync_world_state cull_stale count_players
  tick-Kept s now h =
      let (due, timers) = Script.tick_timers s.timers now in
      let armed = record s { timers = timers } in
      let fired = fire_timers p armed due in
      let drained = record fired { effects = [] } in
      let applied = apply_effects p drained fired.effects now in
      let weathered = sync_weather p applied now in
      let synced = sync_quests p weathered weathered.dispatcher.quests.stages.entries now in
      let advanced = advance_clock p synced in
      let clocked = announce_clock p advanced now in
      let counted = count_players p clocked in
      let flushed = flush p counted now in
      let beaten = heartbeat p flushed counted.player_count now in
      let h1 : P fired = timers-Kept armed due (k.same s armed refl refl refl h) in
      let h2 : P applied =
        effects-Kept drained fired.effects now (k.same fired drained refl refl refl h1) in
      let h3 : P synced =
        quests-Kept weathered weathered.dispatcher.quests.stages.entries now
          (weather-Kept applied now h2) in
      let h4 : P clocked = announce-Kept advanced now (clock-Kept synced h3) in
      let h5 : P beaten =
        beat-Kept flushed counted.player_count now
          (flush-Kept counted now (k.same clocked counted refl refl refl h4)) in
      cull-Kept beaten beaten.sessions.entries now h5
