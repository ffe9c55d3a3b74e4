-- ===== src/Handlers/Item.antt =====
-- crates/ashfall-server/src/handlers/item.rs: what a player may do to the items it carries. A handler
-- returns what is relayed, if anything, and the registry after it.
pub mod Owned
use ashfall.Prelude.{ℕ, Bool, true, false, Option, none, some, ◌==◌, nat_eq, if◌then◌else◌}
use ashfall.Float.{Float}
use ashfall.Session.{Session}
use ashfall.AntiCheat.{validate_item_count, validate_item_condition}
use ashfall.Packet.{Packet, update_item_count, update_item_condition, update_item_equipped}
use ashfall.World.Objects.{Item, GameObject, an_item, a_player}
use ashfall.World.Registry.{ObjectRegistry, get, write}

module _ {F : Type 0} where
  is_player : ℕ → Option (GameObject F) → Bool
  is_player owner (some (a_player p)) = p.actor.container.object.ref_data.id == owner
  is_player owner _ = false

  holds : ObjectRegistry F → ℕ → Option (GameObject F) → Bool
  unfolding is_player
  holds r owner (some (an_item i)) =
      if i.container == owner then true else is_player owner (get r i.container)
  holds r owner _ = false

  owned_by : ObjectRegistry F → Option ℕ → ℕ → Bool
  unfolding holds
  owned_by r none id = false
  owned_by r (some owner) id = holds r owner (get r id)

  -- The item is in the player, or in an object that is that player.
  unfoldable pub owned : ObjectRegistry F → Session → ℕ → Bool
  unfolding owned_by
  owned r session id = owned_by r session.player_id id

  change_found : ObjectRegistry F → ℕ → (Item F → Item F) → Option (GameObject F) → ObjectRegistry F
  change_found r id g (some (an_item i)) = write r id (an_item (g i))
  change_found r id g _ = r

  unfoldable pub change_item : ObjectRegistry F → ℕ → (Item F → Item F) → ObjectRegistry F
  unfolding change_found
  change_item r id g = change_found r id g (get r id)

  -- Creating an item is left to the server.
  unfoldable pub handle_item_new :
      ObjectRegistry F → Session → Packet F → Option (Packet F) × ObjectRegistry F
  handle_item_new r session packet = (none, r)

  unfoldable pub handle_item_count :
      ObjectRegistry F
      → Session
      → (id count : ℕ) (silent : Bool) → Option (Packet F) × ObjectRegistry F
  handle_item_count r session id count silent =
      if owned r session id
      then if validate_item_count count
        then (
          some (update_item_count id count silent),
          change_item r id (λ i. record i { count = count }),
        )
        else (none, r)
      else (none, r)

  unfoldable pub handle_item_equipped :
      ObjectRegistry F
      → Session
      → (id : ℕ) (equipped silent stick : Bool) → Option (Packet F) × ObjectRegistry F
  handle_item_equipped r session id equipped silent stick =
      if owned r session id
      then (
        some (update_item_equipped id equipped silent stick),
        change_item r id (λ i. record i { equipped = equipped; silent = silent; stick = stick }),
      )
      else (none, r)

module _ {F : Type 0} (f : Float F) where
  unfoldable pub handle_item_condition :
      ObjectRegistry F
      → Session
      → (id : ℕ) (condition : F) (health : ℕ) → Option (Packet F) × ObjectRegistry F
  handle_item_condition r session id condition health =
      if owned r session id
      then if validate_item_condition f condition
        then (
          some (update_item_condition id condition health),
          change_item r id (λ i. record i { condition = condition }),
        )
        else (none, r)
      else (none, r)
