-- ===== src/Script.antt =====
-- crates/ashfall-server/src/script: what the server keeps for its scripts (state.rs, timer.rs) and how it
-- asks and tells them (engine.rs). A script is a module that wasmtime runs: a call of its exports is a
-- parameter, which sees and changes what a script is given. An `Instant` is a number of nanoseconds.
pub mod Clock
use ashfall.Prelude.{
  ℕ, suc, ◌+◌, ◌*◌, Bool, true, false, Option, none, some, List, [], ◌∷◌, ◌++◌, ltb, leb, ◌==◌,
  nat_eq, if◌then◌else◌, u32,
}
use ashfall.Prelude.Int.{ℤ}
use ashfall.Map
use ashfall.Map.{Map, is_some}
use ashfall.StringCache.{Text}
use ashfall.Float.{Float}
use ashfall.Packet.{Packet}
use ashfall.World.Registry.{ObjectRegistry}
use ashfall.Handlers.Game.{GlobalState, QuestManager}

pub record GameTime : Type 0 where
  pub year : ℕ
  pub month : ℕ
  pub day : ℕ
  pub hour : ℕ

unfoldable pub default_time : GameTime
default_time = record { year = 2277; month = 8; day = 17; hour = 9 }

-- An hour on: months have thirty days.
unfoldable pub advance_hour : GameTime → GameTime
advance_hour t =
    let hour = u32 (t.hour + 1) in
    let day = u32 (t.day + 1) in
    let month = u32 (t.month + 1) in
    if ltb hour 24
    then record t { hour = hour }
    else if leb day 30
    then record t { hour = 0; day = day }
    else if leb month 12
    then record t { hour = 0; day = 1; month = month }
    else record { hour = 0; day = 1; month = 1; year = u32 (t.year + 1) }

abbrev pub same_time : GameTime → GameTime → Bool
same_time a b =
    if a.year == b.year
    then if a.month == b.month then if a.day == b.day then a.hour == b.hour else false else false
    else false

pub data ScriptEffect (F : Type 0) : Type 0 where
  private_chat : (player_id : ℕ) (message : Text) → ScriptEffect F
  broadcast_chat : (message : Text) → ScriptEffect F
  kick : (player_id : ℕ) → ScriptEffect F
  broadcast_packet : Packet F → ScriptEffect F

pub record TimerEntry : Type 0 where
  pub id : ℕ
  pub interval_ms : ℕ
  pub callback_name : Text
  pub next_fire : ℕ
  pub repeating : Bool

pub record TimerManager : Type 0 where
  pub timers : Map ℕ TimerEntry
  pub next_id : ℕ

unfoldable pub no_timers : TimerManager
no_timers = record { timers = Map.empty; next_id = 1 }

unfoldable pub create_timer : TimerManager → ℕ → Text → Bool → (now : ℕ) → ℕ × TimerManager
create_timer m interval_ms callback repeating now =
    let id = m.next_id in
    (
      id,
      record {
        next_id = u32 (id + 1);
        timers = Map.insert m.timers id (record {
          id = id;
          interval_ms = interval_ms;
          callback_name = callback;
          next_fire = now + interval_ms * 1000000;
          repeating = repeating;
        });
      },
    )

unfoldable pub kill_timer : TimerManager → ℕ → Bool × TimerManager
kill_timer m id = (is_some (Map.lookup m.timers id), record m { timers = Map.remove m.timers id })

unfoldable pub is_due : ℕ → TimerEntry → Bool
is_due now t = leb t.next_fire now

-- The timers after a tick: one that is due fires again, or is gone.
unfoldable pub rearm : ℕ → List (ℕ × TimerEntry) → List (ℕ × TimerEntry)
unfolding is_due
rearm now [] = []
rearm now ((k, t) ∷ ts) =
    let rest = rearm now ts in
    if is_due now t
    then if t.repeating
      then (k, record t { next_fire = now + t.interval_ms * 1000000 }) ∷ rest
      else rest
    else (k, t) ∷ rest

unfoldable pub ready : ℕ → List (ℕ × TimerEntry) → List (ℕ × Text)
unfolding is_due
ready now [] = []
ready now ((k, t) ∷ ts) =
    let rest = ready now ts in if is_due now t then (t.id, t.callback_name) ∷ rest else rest

-- A timer stands under its own id.
unfoldable pub tick_timers : TimerManager → ℕ → List (ℕ × Text) × TimerManager
unfolding ready rearm
tick_timers m now = (
  ready now m.timers.entries,
  record m { timers = record { entries = rearm now m.timers.entries } },
)

-- What a script is given: the world, which the handlers change too, and the server's script state.
pub record ScriptState (F : Type 0) : Type 0 where
  pub registry : ObjectRegistry F
  pub weather : ℕ
  pub globals : GlobalState
  pub quests : QuestManager
  pub timers : TimerManager
  pub game_time : GameTime
  pub time_scale : F
  pub effects : List (ScriptEffect F)
  pub player_count : ℕ

-- The exports that the server calls.
pub data Call (F : Type 0) : Type 0 where
  on_client_authenticate : (name password : Text) → Call F
  on_player_chat : (player_id : ℕ) (message : Text) → Call F
  on_hit : (target attacker limb : ℕ) (damage : F) → Call F
  on_player_request_game : (player_id : ℕ) → Call F
  on_spawn on_create on_destroy : (id : ℕ) → Call F
  on_player_disconnect : (player_id reason : ℕ) → Call F
  on_actor_death : (actor killer limbs : ℕ) (cause : ℤ) → Call F
  on_quest_stage : (quest_id stage : ℕ) → Call F
  on_equip : (actor item : ℕ) (equipped : Bool) → Call F
  on_item_count_change : (item count : ℕ) → Call F
  on_activate : (ref_id actor : ℕ) → Call F
  on_cell_change : (id cell : ℕ) → Call F
  on_window_click on_window_return : (player window : ℕ) → Call F
  on_window_text_change : (player window : ℕ) (text : Text) → Call F
  on_checkbox_select on_list_item_select : (player item : ℕ) (selected : Bool) → Call F
  on_radio_button_select : (player radio previous : ℕ) → Call F
  on_actor_punch : (actor : ℕ) (power : Bool) → Call F
  on_actor_fire_weapon : (actor weapon : ℕ) → Call F
  on_item_condition_change : (item : ℕ) (condition : F) → Call F
  on_actor_alert on_actor_sneak : (actor : ℕ) (state : Bool) → Call F
  on_actor_value_change on_actor_base_value_change : (actor index : ℕ) (value : F) → Call F
  on_window_mode : (player : ℕ) (enabled : Bool) → Call F
  on_dialogue_choice : (player flag_id choice : ℕ) → Call F
  on_lock_change : (id actor lock : ℕ) → Call F
  on_game_time_change : GameTime → Call F
  timer_callback : (callback : Text) (id : ℕ) → Call F

-- One module's answer to a call, if it has the export and returns, its memory after it, and what it
-- made of what it was given.
abbrev pub Runtime : Type 0 → Type 0 → Type 0
Runtime F M = M → Call F → ScriptState F → Option ℕ × (M × ScriptState F)

-- A cell outside Megaton.
abbrev pub default_spawn_cell : ℕ
default_spawn_cell = 0x0001A26E

module _ {F M : Type 0} (run : Runtime F M) where
  abbrev continue : M → Bool × (List M × ScriptState F) → Bool × (List M × ScriptState F)
  continue i (b, (is, s)) = (b, (i ∷ is, s))

  abbrev denies : Option ℕ → Bool
  denies none = false
  denies (some n) = n == 0

  -- `dispatch_auth`, `dispatch_chat` and `dispatch_hit`: the first 0 denies, and ends the round.
  unfoldable pub ask : List M → Call F → ScriptState F → Bool × (List M × ScriptState F)
  ask [] call s = (true, ([], s))
  ask (i ∷ is) call s =
      let (answer, (i', s')) = run i call s in
      let rest = continue i' (ask is call s') in
      if denies answer then (false, (i' ∷ is, s')) else rest

  -- `notify_*` and `dispatch_timer`: every module is told.
  unfoldable pub notify : List M → Call F → ScriptState F → List M × ScriptState F
  notify [] call s = ([], s)
  notify (i ∷ is) call s =
      let (answer, (i', s')) = run i call s in let (is', s'') = notify is call s' in (i' ∷ is', s'')

  abbrev kept : M → ℕ × (List M × ScriptState F) → ℕ × (List M × ScriptState F)
  kept i (c, (is, s)) = (c, (i ∷ is, s))

  -- The first answer counts.
  unfoldable pub spawn_cell : List M → ℕ → ScriptState F → ℕ × (List M × ScriptState F)
  spawn_cell [] player_id s = (default_spawn_cell, ([], s))
  spawn_cell (i ∷ is) player_id s =
      let (answer, (i', s')) = run i (on_player_request_game player_id) s in
      let rest = kept i' (spawn_cell is player_id s') in
      elim answer [ some cell ↦ (cell, (i' ∷ is, s')) | none ↦ rest ]
