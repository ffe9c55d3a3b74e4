-- ===== src/Handlers/Player.antt =====
-- crates/ashfall-server/src/handlers/player.rs: a player's arrival, its controls, and the cells that
-- it sees. A handler returns what is sent, and the state after it.
pub mod View
use ashfall.Prelude.{
  ℕ, Bool, true, false, Option, none, some, List, [], ◌∷◌, ◌++◌, ◌==◌, nat_eq, if◌then◌else◌,
  contains, flatten, map, get_elem?,
}
use ashfall.Map
use ashfall.Float.{Float}
use ashfall.Session.{Session, update_cell_context}
use ashfall.Packet.{
  Packet, Cells, player_new, update_control, update_context, update_console, object_remove,
}
use ashfall.World.Objects.{
  Player, GameObject, a_reference, an_object, an_item, a_container, an_actor, a_player, new_player,
}
use ashfall.World.Objects.Announce.{object_packet, item_packet, actor_packet, player_packet}
use ashfall.World.Registry.{ObjectRegistry, insert, get, write, is_deleted, get_by_cell}
use ashfall.World.Cell.{CellContext, diff}
use ashfall.Handlers.Actor.{same_id}

unfoldable pub still_visible : Cells → Option ℕ → Bool
still_visible cells none = false
still_visible cells (some c) = contains cells c

abbrev or_zero : Option ℕ → ℕ
or_zero none = 0
or_zero (some n) = n

abbrev pub left_cells : Session → Cells → List ℕ
left_cells session cells =
    (diff (record { cells = session.cell_context }) (record { cells = cells })).1

abbrev pub entered_cells : Session → Cells → List ℕ
entered_cells session cells =
    (diff (record { cells = session.cell_context }) (record { cells = cells })).0

module _ {F : Type 0} (f : Float F) where
  unfoldable pub handle_player_new :
      ObjectRegistry F → Packet F → Option (Packet F) × ObjectRegistry F
  handle_player_new r (player_new id ref_id base_id controls scale) =
      let p = new_player f id ref_id base_id 0 in
      let c = p.actor.container in
      if is_deleted r id then (none, r) else (
        some (player_new id ref_id base_id controls scale),
        (insert r (
            a_player (record p {
              controls = controls;
              actor = record p.actor {
                container = record c { object = record c.object { scale = scale } };
              };
            }))).1,
      )
  handle_player_new r _ = (none, r)

module _ {F : Type 0} where
  -- A change of a player; other objects stay.
  unfoldable pub on_player : (Player F → Player F) → GameObject F → GameObject F
  on_player g (a_player p) = a_player (g p)
  on_player g o = o

  change_found :
      ObjectRegistry F → ℕ → (Player F → Player F) → Option (GameObject F) → ObjectRegistry F
  unfolding on_player
  change_found r id g (some o) = write r id (on_player g o)
  change_found r id g none = r

  unfoldable pub change_player : ObjectRegistry F → ℕ → (Player F → Player F) → ObjectRegistry F
  unfolding change_found
  change_player r id g = change_found r id g (get r id)

  unfoldable pub handle_update_control :
      ObjectRegistry F → Session → (id control key : ℕ) → Option (Packet F) × ObjectRegistry F
  handle_update_control r session id control key =
      if same_id session.player_id (some id)
      then (
        some (update_control id control key),
        change_player r id (λ p. record p { controls = Map.insert p.controls control (key, true) }),
      )
      else (none, r)

  new_packet : Option (GameObject F) → Option (Packet F)
  new_packet (some (an_object o)) = some (object_packet o)
  new_packet (some (a_container c)) = some (object_packet c.object)
  new_packet (some (an_item i)) = some (item_packet i)
  new_packet (some (an_actor a)) = some (actor_packet a)
  new_packet (some (a_player p)) = some (player_packet p)
  new_packet (some (a_reference _)) = none
  new_packet none = none

  unfoldable pub entity_new_packet : ObjectRegistry F → ℕ → Option (Packet F)
  unfolding new_packet
  entity_new_packet r id = new_packet (get r id)

  unfoldable pub cell_in : Option (GameObject F) → Option ℕ
  cell_in (some (an_object o)) = some o.cell
  cell_in (some (an_actor a)) = some a.container.object.cell
  cell_in (some (a_player p)) = some p.actor.container.object.cell
  cell_in _ = none

  unfoldable pub entity_cell : ObjectRegistry F → ℕ → Option ℕ
  unfolding cell_in
  entity_cell r id = cell_in (get r id)

  unfoldable pub with_some : Option (Packet F) → List (Packet F) → List (Packet F)
  with_some none ps = ps
  with_some (some p) ps = p ∷ ps

  -- The announcements of the entities listed in the entered cells, but of the player itself.
  unfoldable pub announce : ObjectRegistry F → ℕ → List ℕ → List (Packet F)
  announce r id [] = []
  announce r id (x ∷ xs) =
      let rest = announce r id xs in
      if x == id then rest else with_some (entity_new_packet r x) rest

  -- The removals of the entities listed in the left cells that are not seen any more.
  unfoldable pub withdraw : ObjectRegistry F → Cells → List ℕ → List (Packet F)
  withdraw r cells [] = []
  withdraw r cells (x ∷ xs) =
      let rest = withdraw r cells xs in
      if still_visible cells (entity_cell r x) then rest else object_remove x true ∷ rest

  unfoldable pub listed : ObjectRegistry F → List ℕ → List ℕ
  listed r cells = flatten (map (get_by_cell r) cells)

  -- The fifth cell is the player's own.
  unfoldable pub set_cell : Cells → Player F → Player F
  set_cell cells p =
      let c = p.actor.container in
      record p {
        actor = record p.actor {
          container = record c { object = record c.object { cell = or_zero (get_elem? cells 4) } };
        };
      }

  unfoldable pub handle_update_context :
      ObjectRegistry F
      → Session
      → (id : ℕ) → Cells
      → (spawn : Bool) → List (Packet F) × (Session × ObjectRegistry F)
  handle_update_context r session id cells spawn =
      let r' = change_player r id (set_cell cells) in
      if same_id session.player_id (some id)
      then (
        announce r' id (listed r' (entered_cells session cells))
            ++ withdraw r' cells (listed r' (left_cells session cells))
            ++ update_context id cells spawn ∷ [],
        (update_cell_context session cells, r'),
      )
      else ([], (session, r))

  -- The dispatcher does not call it.
  unfoldable pub handle_console : ObjectRegistry F → ℕ → Bool → Option (Packet F) × ObjectRegistry F
  handle_console r id enabled = (
    some (update_console id enabled),
    change_player r id (λ p. record p { console_enabled = enabled }),
  )
