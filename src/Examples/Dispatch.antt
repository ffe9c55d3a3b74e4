-- ===== src/Examples/Dispatch.antt =====
-- A run of the dispatcher: player 9 walks one cell on, and object 20 falls out of its view. Numbers
-- stand for floats.
use ashfall.Prelude.{ℕ, ◌≡◌, refl, true, false, not, ◌&&◌, some, [], ◌∷◌, nat_eq}
use ashfall.Examples.Numbers.{numbers}
use ashfall.Session
use ashfall.Session.{Session}
use ashfall.Packet.{Cells, update_context, update_console, game_end}
use ashfall.World.Objects.{an_object, a_player, new_player, new_object}
use ashfall.World.Registry
use ashfall.World.Registry.{insert, add_to_cell, get}
use ashfall.Handlers.Player.View.{removes}
use ashfall.Dispatch.{
  Dispatcher, dispatch, new_dispatcher, handle_packet, add_response, nothing, with_disconnect,
}
use ashfall.Dispatch.Context.{left_behind, stands_in, dispatch-update_context}

abbrev old_cells : Cells
old_cells = 1 ∷ 2 ∷ 3 ∷ 4 ∷ 5 ∷ 6 ∷ 7 ∷ 8 ∷ 9 ∷ []

abbrev new_cells : Cells
new_cells = 2 ∷ 3 ∷ 4 ∷ 5 ∷ 6 ∷ 7 ∷ 8 ∷ 9 ∷ 10 ∷ []

abbrev walker : Session
walker = record (Session.new 1 2 (87 ∷ []) 0) { player_id = some 9; cell_context = old_cells }

abbrev server : Dispatcher ℕ
server = record new_dispatcher {
  registry =
      add_to_cell
        (insert (insert Registry.new (a_player (new_player numbers 9 256 7 5))).1
          (an_object (new_object numbers 20 512 8 1))).1
        1 20;
}

console_toggled :
    (dispatch numbers server walker (update_console 9 true) 5).0.responses
    ≡ update_console 9 true ∷ []
unfolding dispatch new_dispatcher handle_packet add_response nothing
console_toggled = refl

game_left : (dispatch numbers server walker (game_end 1) 5).0.disconnect ≡ true
unfolding dispatch new_dispatcher handle_packet with_disconnect
game_left = refl

dispatch-update_context_example :
    (removes 20 (dispatch numbers server walker (update_context 9 new_cells false) 5).0.responses
      ≡ left_behind
          (dispatch numbers server walker (update_context 9 new_cells false) 5).1.1.registry
          walker.cell_context
          new_cells
          20
        && not (
            stands_in
              (get
                (dispatch numbers server walker (update_context 9 new_cells false) 5).1.1.registry
                20)
              new_cells))
    × ((dispatch numbers server walker (update_context 9 new_cells false) 5).0.broadcasts ≡ [])
    × ((dispatch numbers server walker (update_context 9 new_cells false) 5).1.0.cell_context
        ≡ new_cells)
unfolding Session.new
dispatch-update_context_example =
    dispatch-update_context numbers server walker 9 new_cells false 5 20 refl
