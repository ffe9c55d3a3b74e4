-- ===== src/Handlers/Item/Owned.antt =====
-- What the item packets of crates/ashfall-server/src/handlers/item.rs can reach.
use ashfall.Prelude.{
  ℕ, ◌≡◌, ◌⊎◌, ◌≤◌, refl, inl, inr, Bool, true, false, Bool-cases, Option, none, some, arith, ◌==◌,
  nat_eq, nat_beq_iff, if◌then◌else◌,
}
use ashfall.Map.{is_some}
use ashfall.Session.{Session}
use ashfall.AntiCheat.{validate_item_count}
use ashfall.World.Objects.{
  Item, Player, GameObject, a_reference, an_object, an_item, a_container, an_actor, a_player,
}
use ashfall.World.Registry.{ObjectRegistry, get}
use ashfall.Handlers.Actor.Guard.{get-write}
use ashfall.Handlers.Item.{
  is_player, holds, owned_by, owned, change_found, change_item, handle_item_count,
}

small : (n : ℕ) → validate_item_count n ≡ true → n ≤ 65535
unfolding validate_item_count
small n h = ground arith

not_here : (b c : Bool) → b ≡ false → (if b then true else c) ≡ true → c ≡ true
not_here true c e h = cc
not_here false c e h = h

module _ {F : Type 0} where
  -- A container is a player: it has the player's id, or is an object that is that player.
  abbrev pub IsIn : ObjectRegistry F → (player container : ℕ) → Type 0
  IsIn r player container =
      (container ≡ player)
      ⊎ ((p : Player F) × ((get r container ≡ some (a_player p))
            × (p.actor.container.object.ref_data.id ≡ player)))

  is_player_inv :
      (owner : ℕ) (o : Option (GameObject F))
      → is_player owner o ≡ true
      → (p : Player F) × ((o ≡ some (a_player p)) × (p.actor.container.object.ref_data.id ≡ owner))
  unfolding is_player
  is_player_inv owner (some (a_player p)) h = (p, (refl, (nat_beq_iff _ _).0 h))
  is_player_inv owner none h = cc
  is_player_inv owner (some (an_item x)) h = cc
  is_player_inv owner (some (a_reference x)) h = cc
  is_player_inv owner (some (an_object x)) h = cc
  is_player_inv owner (some (a_container x)) h = cc
  is_player_inv owner (some (an_actor x)) h = cc

  holds_inv :
      (r : ObjectRegistry F) (owner : ℕ) (o : Option (GameObject F))
      → holds r owner o ≡ true
      → (i : Item F) × ((o ≡ some (an_item i)) × IsIn r owner i.container)
  unfolding holds
  holds_inv r owner none h = cc
  holds_inv r owner (some (an_item i)) h = (
    i,
    (
      refl,
      elim (Bool-cases (i.container == owner)) [
        | inl e ↦ inl ((nat_beq_iff _ _).0 e)
        | inr e ↦
            inr (is_player_inv owner (get r i.container) (not_here (i.container == owner) _ e h))
      ],
    ),
  )
  holds_inv r owner (some (a_reference x)) h = cc
  holds_inv r owner (some (an_object x)) h = cc
  holds_inv r owner (some (a_container x)) h = cc
  holds_inv r owner (some (an_actor x)) h = cc
  holds_inv r owner (some (a_player x)) h = cc

  owned_by_inv :
      (r : ObjectRegistry F) (p : Option ℕ) (id : ℕ)
      → owned_by r p id ≡ true
      → (owner : ℕ) × ((p ≡ some owner)
          × ((i : Item F) × ((get r id ≡ some (an_item i)) × IsIn r owner i.container)))
  unfolding owned_by
  owned_by_inv r none id h = cc
  owned_by_inv r (some owner) id h = (owner, (refl, holds_inv r owner (get r id) h))

  counted :
      (r : ObjectRegistry F) (s : Session) (id count : ℕ) (silent : Bool)
      → is_some (handle_item_count r s id count silent).0 ≡ true
      → (owned r s id ≡ true) × (validate_item_count count ≡ true)
  unfolding handle_item_count
  counted r s id count silent h = ground arith

  get-change_item :
      (r : ObjectRegistry F) (id j : ℕ) (g : Item F → Item F) (i : Item F)
      → get r id ≡ some (an_item i)
      → get (change_item r id g) j ≡ (if id == j then some (an_item (g i)) else get r j)
  unfolding change_item change_found
  get-change_item r id j g i e = rw e (get-write r id j (an_item (g i)) (an_item i) e)

  -- A count that is relayed is at most a full stack and of an item whose container is the session's
  -- player, by the container's id or as the player object that has it; and it is the only thing about
  -- the objects that changes.
  pub handle_item_count-relayed :
      (r : ObjectRegistry F) (s : Session) (id j count : ℕ) (silent : Bool)
      → is_some (handle_item_count r s id count silent).0 ≡ true
      → (owner : ℕ) × ((s.player_id ≡ some owner)
          × ((count ≤ 65535)
              × ((i : Item F) × ((get r id ≡ some (an_item i))
                    × (IsIn r owner i.container
                        × (get (handle_item_count r s id count silent).1 j ≡ (
                            if id == j
                            then some (an_item (record i { count = count }))
                            else get r j)))))))
  unfolding handle_item_count owned
  handle_item_count-relayed r s id j count silent h =
      let (o, v) = counted r s id count silent h in
      let (owner, (p, (i, (e, carried)))) = owned_by_inv r s.player_id id o in
      let kept = get-change_item r id j (λ (x : Item F). record x { count = count }) i e in
      (owner, (p, (small count v, (i, (e, (carried, rw (o, v) kept))))))
