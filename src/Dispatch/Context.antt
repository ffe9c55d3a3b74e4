-- ===== src/Dispatch/Context.antt =====
-- crates/ashfall-server/src/dispatch.rs and handlers/player.rs: what a change of the cell context tells
-- the client.
use ashfall.Prelude.{
  ℕ, ◌≡◌, refl, ap, ◌∙◌, inl, inr, Bool-cases, Option, none, arith, Bool, true, false, not, ◌&&◌,
  ◌||◌, some, List, [], ◌∷◌, ◌++◌, nat_eq, nat_beq_iff, contains,
}
use ashfall.Float.{Float}
use ashfall.Session.{Session, update_cell_context}
use ashfall.Packet.{Cells, update_context}
use ashfall.World.Registry.{ObjectRegistry, get, get_by_cell}
use ashfall.World.Cell.{diff, without_all}
use ashfall.World.Objects.{
  GameObject, a_reference, an_object, an_item, a_container, an_actor, a_player,
}
use ashfall.Handlers.Actor.{same_id}
use ashfall.Handlers.Player.{
  announce, withdraw, listed, left_cells, entered_cells, still_visible, cell_in, entity_cell,
  change_player, set_cell, handle_update_context,
}
use ashfall.Handlers.Player.View.{
  removes, is_removal, removes-append, removes-announce, removes-withdraw,
}
use ashfall.Dispatch.{Dispatcher, dispatch, add_responses, nothing}

or_false : (b : Bool) → b || false ≡ b
or_false true = refl
or_false false = refl

same_id_refl : (id : ℕ) → same_id (some id) (some id) ≡ true
same_id_refl id = (nat_beq_iff id id).1 refl

contains_both : (xs ys : List ℕ) (x : ℕ) → contains (xs ++ ys) x ≡ contains xs x || contains ys x
contains_both [] ys x = refl
contains_both (y ∷ xs) ys x = ground (arith, contains_both xs ys x)

module _ {F : Type 0} where
  -- Whether one of the old cells that is not among the new ones lists an entity.
  unfoldable pub left_behind : ObjectRegistry F → (old new : Cells) → ℕ → Bool
  left_behind r [] new x = false
  left_behind r (c ∷ old) new x =
      (not (contains new c) && contains (get_by_cell r c) x) || left_behind r old new x

  -- Whether an object, an actor or a player is in one of these cells itself.
  unfoldable pub stands_in : Option (GameObject F) → Cells → Bool
  stands_in none cells = false
  stands_in (some (a_reference x)) cells = false
  stands_in (some (an_object o)) cells = contains cells o.cell
  stands_in (some (an_item i)) cells = false
  stands_in (some (a_container c)) cells = false
  stands_in (some (an_actor a)) cells = contains cells a.container.object.cell
  stands_in (some (a_player p)) cells = contains cells p.actor.container.object.cell

  listed-left_behind :
      (r : ObjectRegistry F) (old new : Cells) (x : ℕ)
      → contains (listed r (without_all new old)) x ≡ left_behind r old new x
  unfolding left_behind listed
  listed-left_behind r [] new x = refl
  listed-left_behind r (c ∷ old) new x = elim (Bool-cases (contains new c)) [
    | inl e ↦ rw e (listed-left_behind r old new x)
    | inr e ↦ rw e (
        contains_both (get_by_cell r c) (listed r (without_all new old)) x
        ∙ ap (λ b. contains (get_by_cell r c) x || b) (listed-left_behind r old new x))
  ]

  left_cells-left_behind :
      (r : ObjectRegistry F) (s : Session) (cells : Cells) (x : ℕ)
      → contains (listed r (left_cells s cells)) x ≡ left_behind r s.cell_context cells x
  unfolding diff
  left_cells-left_behind r s cells x = listed-left_behind r s.cell_context cells x

  cell_in-stands_in :
      (o : Option (GameObject F)) (cells : Cells)
      → still_visible cells (cell_in o) ≡ stands_in o cells
  unfolding still_visible cell_in stands_in
  cell_in-stands_in none cells = refl
  cell_in-stands_in (some (a_reference x)) cells = refl
  cell_in-stands_in (some (an_object x)) cells = refl
  cell_in-stands_in (some (an_item x)) cells = refl
  cell_in-stands_in (some (a_container x)) cells = refl
  cell_in-stands_in (some (an_actor x)) cells = refl
  cell_in-stands_in (some (a_player x)) cells = refl

  still_visible-stands_in :
      (r : ObjectRegistry F) (cells : Cells) (x : ℕ)
      → still_visible cells (entity_cell r x) ≡ stands_in (get r x) cells
  unfolding entity_cell
  still_visible-stands_in r cells x = cell_in-stands_in (get r x) cells

  removes-answer :
      (r : ObjectRegistry F) (id x : ℕ) (cells : Cells) (spawn : Bool) (entered left : List ℕ)
      → removes x
          (announce r id entered ++ withdraw r cells left ++ update_context id cells spawn ∷ [])
        ≡ contains left x && not (still_visible cells (entity_cell r x))
  unfolding removes is_removal
  removes-answer r id x cells spawn entered left =
      removes-append x (announce r id entered ++ withdraw r cells left)
        (update_context id cells spawn ∷ [])
      ∙ or_false _
      ∙ removes-append x (announce r id entered) (withdraw r cells left)
      ∙ rw (removes-announce r id x entered) (removes-withdraw r cells x left)

  removes-left :
      (r : ObjectRegistry F) (s : Session) (id x : ℕ) (cells : Cells) (spawn : Bool)
      (entered : List ℕ)
      → removes x (
          announce r id entered
          ++ withdraw r cells (listed r (left_cells s cells))
          ++ update_context id cells spawn ∷ [])
        ≡ left_behind r s.cell_context cells x && not (stands_in (get r x) cells)
  removes-left r s id x cells spawn entered =
      removes-answer r id x cells spawn entered (listed r (left_cells s cells))
      ∙ rw (left_cells-left_behind r s cells x, still_visible-stands_in r cells x) refl

  own-answer :
      (r : ObjectRegistry F) (s : Session) (id : ℕ) (cells : Cells) (spawn : Bool)
      → s.player_id ≡ some id
      → handle_update_context r s id cells spawn ≡ (
        announce
              (change_player r id (set_cell cells))
              id
              (listed (change_player r id (set_cell cells)) (entered_cells s cells))
            ++ withdraw
                (change_player r id (set_cell cells))
                cells
                (listed (change_player r id (set_cell cells)) (left_cells s cells))
            ++ update_context id cells spawn ∷ [],
        (update_cell_context s cells, change_player r id (set_cell cells)),
      )
  unfolding handle_update_context
  own-answer r s id cells spawn own = rw (own, same_id_refl id) refl

module _ {F : Type 0} (f : Float F) where
  -- When a session moves the cell context of its own player, the packets that it is answered remove
  -- exactly the entities that are listed, as the registry is then, in a cell of the old context that is
  -- not in the new one, and that are not objects, actors or players in a cell of the new one; nothing is
  -- sent to the others, and its context is the new one.
  pub dispatch-update_context :
      (d : Dispatcher F) (s : Session) (id : ℕ) (cells : Cells) (spawn : Bool) (now x : ℕ)
      → s.player_id ≡ some id
      → (removes x (dispatch f d s (update_context id cells spawn) now).0.responses
          ≡ left_behind
              (dispatch f d s (update_context id cells spawn) now).1.1.registry
              s.cell_context
              cells
              x
            && not (
                stands_in
                  (get (dispatch f d s (update_context id cells spawn) now).1.1.registry x)
                  cells))
        × ((dispatch f d s (update_context id cells spawn) now).0.broadcasts ≡ [])
        × ((dispatch f d s (update_context id cells spawn) now).1.0.cell_context ≡ cells)
  unfolding dispatch add_responses nothing update_cell_context
  dispatch-update_context d s id cells spawn now x own =
      rw (own-answer d.registry s id cells spawn own)
        (removes-left _ s id x cells spawn _, refl, refl)
