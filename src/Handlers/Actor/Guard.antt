-- ===== src/Handlers/Actor/Guard.antt =====
-- crates/ashfall-server/src/dispatch.rs sends the packets on actors to the handlers of
-- handlers/actor.rs: what a packet may change, whatever its handler.
use ashfall.Prelude.{
  ℕ, ◌≡◌, refl, ◌∙◌, ◌&&◌, inl, inr, Bool, true, false, Option, none, some, arith, ◌==◌, nat_eq,
  nat_beq_iff, if◌then◌else◌, Option-cases,
}
use ashfall.Prelude.Int.{ℤ}
use ashfall.Map
use ashfall.Map.{is_some}
use ashfall.Map.Laws.{lookup-insert}
use ashfall.Session.{Session}
use ashfall.Packet.{
  Packet, update_actor_state, actor_state_delta, update_actor_value, update_actor_dead,
  update_fire_weapon, spell_cast,
}
use ashfall.World.Objects.{
  Actor, GameObject, a_reference, an_object, an_item, a_container, an_actor, a_player, set_value,
}
use ashfall.World.Registry.{ObjectRegistry, get, write, is_deleted, owner_of}
use ashfall.Handlers.Rights.{may_change, can_mutate_eq}
use ashfall.Handlers.Actor.{
  can_mutate, or_keep, change_actor, on_actor, handle_actor_state, handle_actor_state_delta,
  handle_actor_value, handle_actor_dead, handle_fire_weapon, handle_spell_cast, set_state,
  apply_delta, set_dead,
}

pub data ActorRequest (F : Type 0) : Type 0 where
  state : (id idle moving moving_xy weapon : ℕ) (alerted sneaking firing : Bool) → ActorRequest F
  delta :
      (id : ℕ) (idle moving moving_xy weapon : Option ℕ) (alerted sneaking firing : Option Bool)
      → ActorRequest F
  actor_value : (id : ℕ) (is_base : Bool) (index : ℕ) (value : F) → ActorRequest F
  dead : (id : ℕ) (dies : Bool) (limbs : ℕ) (cause : ℤ) → ActorRequest F
  fire : (id weapon : ℕ) → ActorRequest F
  spell : (id spell : ℕ) (source : ℤ) (dual : Bool) (at : ℕ) → ActorRequest F

module _ {F : Type 0} where
  unfoldable pub target : ActorRequest F → ℕ
  target (state id idle moving moving_xy weapon alerted sneaking firing) = id
  target (delta id idle moving moving_xy weapon alerted sneaking firing) = id
  target (actor_value id is_base index value) = id
  target (dead id dies limbs cause) = id
  target (fire id weapon) = id
  target (spell id s source dual at) = id

  -- The handler that a packet is sent to.
  unfoldable pub answer :
      ObjectRegistry F → Session → ActorRequest F → Option (Packet F) × ObjectRegistry F
  answer r s (state id idle moving moving_xy weapon alerted sneaking firing) =
      handle_actor_state r s id idle moving moving_xy weapon alerted sneaking firing
  answer r s (delta id idle moving moving_xy weapon alerted sneaking firing) =
      handle_actor_state_delta r s id idle moving moving_xy weapon alerted sneaking firing
  answer r s (actor_value id is_base index value) = handle_actor_value r s id is_base index value
  answer r s (dead id dies limbs cause) = handle_actor_dead r s id dies limbs cause
  answer r s (fire id weapon) = (handle_fire_weapon r s id weapon, r)
  answer r s (spell id sp source dual at) = (handle_spell_cast r s id sp source dual at, r)

  -- What the others are told of a permitted request.
  unfoldable pub packet_of : ActorRequest F → Packet F
  packet_of (state id idle moving moving_xy weapon alerted sneaking firing) =
      update_actor_state id idle moving moving_xy weapon alerted sneaking firing
  packet_of (delta id idle moving moving_xy weapon alerted sneaking firing) =
      actor_state_delta id idle moving moving_xy weapon alerted sneaking firing
  packet_of (actor_value id is_base index value) = update_actor_value id is_base index value
  packet_of (dead id dies limbs cause) = update_actor_dead id dies limbs cause
  packet_of (fire id weapon) = update_fire_weapon id weapon
  packet_of (spell id sp source dual at) = spell_cast id sp source dual at

  -- The change that a permitted request makes to its actor.
  unfoldable pub change : ActorRequest F → Actor F → Actor F
  change (state id idle moving moving_xy weapon alerted sneaking firing) a = record a {
    idle_anim = idle;
    moving_anim = moving;
    moving_xy = moving_xy;
    weapon_anim = weapon;
    alerted = alerted;
    sneaking = sneaking;
  }
  change (delta id idle moving moving_xy weapon alerted sneaking firing) a = record a {
    idle_anim = or_keep a.idle_anim idle;
    moving_anim = or_keep a.moving_anim moving;
    moving_xy = or_keep a.moving_xy moving_xy;
    weapon_anim = or_keep a.weapon_anim weapon;
    alerted = or_keep a.alerted alerted;
    sneaking = or_keep a.sneaking sneaking;
  }
  change (actor_value id true index value) a = record a {
    base_values = Map.insert a.base_values index value;
  }
  change (actor_value id false index value) a = record a {
    values = Map.insert a.values index value;
  }
  change (dead id dies limbs cause) a = record a {
    dead = dies;
    death_limbs = limbs;
    death_cause = cause;
  }
  change (fire id weapon) a = a
  change (spell id sp source dual at) a = a

  abbrev pub map_option :
      (GameObject F → GameObject F) → Option (GameObject F) → Option (GameObject F)
  map_option f none = none
  map_option f (some o) = some (f o)

  pub get-write :
      (r : ObjectRegistry F) (id j : ℕ) (o x : GameObject F)
      → get r id ≡ some x
      → get (write r id o) j ≡ (if id == j then some o else get r j)
  unfolding get write is_deleted
  get-write r id j o x h = ground (arith, lookup-insert r.objects id j o, nat_beq_iff id j)

  pub get-change_actor :
      (r : ObjectRegistry F) (id j : ℕ) (f : Actor F → Actor F)
      → get (change_actor r id f) j
        ≡ (if id == j then map_option (on_actor f) (get r j) else get r j)
  unfolding change_actor
  get-change_actor r id j f = elim (Option-cases (get r id)) [
    | inl e ↦ rw e (ground (arith, nat_beq_iff id j))
    | inr (o, e) ↦ rw e (get-write r id j (on_actor f o) o e ∙ (ground (arith, nat_beq_iff id j)))
  ]

  pub owner_of-change_actor :
      (r : ObjectRegistry F) (id j : ℕ) (f : Actor F → Actor F)
      → owner_of (change_actor r id f) j ≡ owner_of r j
  unfolding change_actor owner_of write
  owner_of-change_actor r id j f = elim (Option-cases (get r id)) [
    | inl e ↦ rw e refl
    | inr (o, e) ↦ rw e refl
  ]

  on_actor-same : (o : GameObject F) → on_actor (λ a. a) o ≡ o
  unfolding on_actor
  on_actor-same (a_reference x) = refl
  on_actor-same (an_object x) = refl
  on_actor-same (an_item x) = refl
  on_actor-same (a_container x) = refl
  on_actor-same (an_actor x) = refl
  on_actor-same (a_player x) = refl

  get-same :
      (r : ObjectRegistry F) (id j : ℕ) (b : Bool)
      → get r j ≡ (if b && (id == j) then map_option (on_actor (λ a. a)) (get r j) else get r j)
  get-same r id j b = elim (Option-cases (get r j)) [
    | inl e ↦ rw e (ground arith)
    | inr (o, e) ↦ rw (e, on_actor-same o) (ground arith)
  ]

  abbrev outcome :
      Bool → Packet F → ObjectRegistry F → ObjectRegistry F → Option (Packet F) × ObjectRegistry F
  outcome b p r' r = if b then (some p, r') else (none, r)

  changes :
      (r : ObjectRegistry F) (id j : ℕ) (b : Bool) (p : Packet F) (f : Actor F → Actor F)
      → (is_some (outcome b p (change_actor r id f) r).0 ≡ b)
        × ((get (outcome b p (change_actor r id f) r).1 j
              ≡ (if b && (id == j) then map_option (on_actor f) (get r j) else get r j))
            × (owner_of (outcome b p (change_actor r id f) r).1 j ≡ owner_of r j))
  changes r id j true p f = (refl, (get-change_actor r id j f, owner_of-change_actor r id j f))
  changes r id j false p f = (refl, (refl, refl))

  relays :
      (r : ObjectRegistry F) (id j : ℕ) (b : Bool) (p : Packet F)
      → (is_some (if b then some p else none) ≡ b)
        × ((get r j
              ≡ (if b && (id == j) then map_option (on_actor (λ a. a)) (get r j) else get r j))
            × (owner_of r j ≡ owner_of r j))
  relays r id j true p = (refl, (get-same r id j true, refl))
  relays r id j false p = (refl, (refl, refl))

  pub answer_guarded :
      (r : ObjectRegistry F) (s : Session) (q : ActorRequest F) (j : ℕ)
      → (is_some (answer r s q).0 ≡ can_mutate r s (target q))
        × ((get (answer r s q).1 j ≡ (
              if can_mutate r s (target q) && (target q == j)
              then map_option (on_actor (change q)) (get r j)
              else get r j))
            × (owner_of (answer r s q).1 j ≡ owner_of r j))
  unfolding answer target change handle_actor_state handle_actor_state_delta handle_actor_value
      handle_actor_dead handle_fire_weapon handle_spell_cast set_state apply_delta set_dead
      set_value
  answer_guarded r s (state id idle moving moving_xy weapon alerted sneaking firing) j =
      changes r id j (can_mutate r s id) _ _
  answer_guarded r s (delta id idle moving moving_xy weapon alerted sneaking firing) j =
      changes r id j (can_mutate r s id) _ _
  answer_guarded r s (actor_value id true index value) j = changes r id j (can_mutate r s id) _ _
  answer_guarded r s (actor_value id false index value) j = changes r id j (can_mutate r s id) _ _
  answer_guarded r s (dead id dies limbs cause) j = changes r id j (can_mutate r s id) _ _
  answer_guarded r s (fire id weapon) j = relays r id j (can_mutate r s id) _
  answer_guarded r s (spell id sp source dual at) j = relays r id j (can_mutate r s id) _

  told :
      (b : Bool) (p : Packet F) (r r' : ObjectRegistry F)
      → (outcome b p r' r).0 ≡ (if b then some p else none)
  told true p r r' = refl
  told false p r r' = refl

  answer-packet_of :
      (r : ObjectRegistry F) (s : Session) (q : ActorRequest F)
      → (answer r s q).0 ≡ (if can_mutate r s (target q) then some (packet_of q) else none)
  unfolding answer target packet_of handle_actor_state handle_actor_state_delta handle_actor_value
      handle_actor_dead handle_fire_weapon handle_spell_cast
  answer-packet_of r s (state id idle moving moving_xy weapon alerted sneaking firing) =
      told (can_mutate r s id) _ r _
  answer-packet_of r s (delta id idle moving moving_xy weapon alerted sneaking firing) =
      told (can_mutate r s id) _ r _
  answer-packet_of r s (actor_value id is_base index value) = told (can_mutate r s id) _ r _
  answer-packet_of r s (dead id dies limbs cause) = told (can_mutate r s id) _ r _
  answer-packet_of r s (fire id weapon) = refl
  answer-packet_of r s (spell id sp source dual at) = refl

  -- A packet of one of the six kinds of `ActorRequest` (state, delta of it, value, death, shot, spell) is
  -- relayed, as it was sent, just when the session's player is the actor or its owner, or the session has
  -- no player and the actor no owner. Then the actor alone is changed, as the packet says; else no object
  -- is; and no owner changes.
  pub answer_lem :
      (r : ObjectRegistry F) (s : Session) (q : ActorRequest F) (j : ℕ)
      → ((answer r s q).0 ≡ (
          if may_change s.player_id (owner_of r (target q)) (target q)
          then some (packet_of q)
          else none))
        × ((get (answer r s q).1 j ≡ (
              if may_change s.player_id (owner_of r (target q)) (target q) && (target q == j)
              then map_option (on_actor (change q)) (get r j)
              else get r j))
            × (owner_of (answer r s q).1 j ≡ owner_of r j))
  answer_lem r s q j =
      rw (← can_mutate_eq r s (target q)) (answer-packet_of r s q, (answer_guarded r s q j).1)
