-- ===== src/ClientWorld/Mirror.antt =====
-- The client's registry (crates/ashfall-client/src/world/registry.rs) follows the server's actors
-- (crates/ashfall-server/src/handlers/actor.rs), packet by packet.
use ashfall.Prelude.{
  ℕ, ◌≡◌, ◌≢◌, refl, ◌∙◌, ◌⊎◌, inl, inr, Bool, true, false, Bool-cases, Option, none, some, arith,
  ◌==◌, nat_eq, nat_beq_iff, if◌then◌else◌,
}
use ashfall.Map
use ashfall.Map.{Map, is_some}
use ashfall.Map.Laws.{lookup-insert}
use ashfall.Float.{Float}
use ashfall.Session.{Session}
use ashfall.StringCache.{Text}
use ashfall.Packet.{Packet}
use ashfall.World.Objects
use ashfall.World.Objects.{Actor, set_value}
use ashfall.World.Registry.{ObjectRegistry, get}
use ashfall.Handlers.Actor
use ashfall.Handlers.Actor.{
  or_keep, can_mutate, set_state, apply_delta, set_dead, handle_actor_state,
  handle_actor_state_delta, handle_actor_value, handle_actor_dead, handle_fire_weapon,
  handle_spell_cast,
}
use ashfall.Handlers.Actor.Guard.{
  ActorRequest, state, delta, actor_value, dead, fire, spell, target, answer, change,
  answer_guarded,
}
use ashfall.ClientWorld.{
  ClientObject, ClientRegistry, ActorView, an_actor, or_default, change_object, on_actor, see_delta,
  apply_packet,
}

module _ {F : Type 0} (f : Float F) where
  -- What a client shows of an actor: its health is value 0x14, or 100 where the server has none.
  pub record Mirrors (a : Actor F) (v : ActorView F) : Type 0 where
    pub dead : v.dead ≡ a.dead
    pub alerted : v.alerted ≡ a.alerted
    pub sneaking : v.sneaking ≡ a.sneaking
    pub moving : v.moving ≡ a.moving_anim
    pub weapon : v.weapon ≡ a.weapon_anim
    pub health : v.health ≡ or_default (f.literal 100 1) (Map.lookup a.values 0x14)

-- A change of a value is one of the current values, or not one of the health.
abbrev pub IsCurrent : {F : Type 0} → ActorRequest F → Type 0
IsCurrent (actor_value id is_base index value) = (is_base ≡ false) ⊎ (index ≢ 0x14)
IsCurrent _ = Unit

-- What a packet on an actor does to the client's view of it.
abbrev see : {F : Type 0} → ActorRequest F → ActorView F → ActorView F
see (state id idle moving moving_xy weapon alerted sneaking firing) =
    λ v. record v { alerted = alerted; sneaking = sneaking; moving = moving; weapon = weapon }
see (delta id idle moving moving_xy weapon alerted sneaking firing) =
    see_delta moving weapon alerted sneaking
see (actor_value id is_base index value) =
    λ v. if index == 0x14 then record v { health = value } else v
see (dead id dies limbs cause) = λ v. record v { dead = dies }
see (fire id weapon) = λ v. v
see (spell id s source dual at) = λ v. v

or_default-or_keep : {A : Type 0} (a b : A) (o : Option A) → a ≡ b → or_default a o ≡ or_keep b o
or_default-or_keep a b none h = h
or_default-or_keep a b (some c) h = refl

module _ {F : Type 0} (f : Float F) where
  Mirrors-value :
      (id : ℕ) (is_base : Bool) (index : ℕ) (value : F) (a : Actor F) (v : ActorView F)
      → IsCurrent (actor_value id is_base index value)
      → Mirrors f a v
      → Mirrors f (set_value a index value is_base) (see (actor_value id is_base index value) v)
  unfolding set_value
  Mirrors-value id true index value a v current m = ground (arith, nat_beq_iff index 0x14)
  Mirrors-value id false index value a v current m = elim (Bool-cases (index == 0x14)) [
    | inl health ↦ rw health (record {
      dead = m.dead;
      alerted = m.alerted;
      sneaking = m.sneaking;
      moving = m.moving;
      weapon = m.weapon;
      health = rw (lookup-insert a.values index 0x14 value, health) refl;
    })
    | inr other ↦ rw other (record {
      dead = m.dead;
      alerted = m.alerted;
      sneaking = m.sneaking;
      moving = m.moving;
      weapon = m.weapon;
      health = rw (lookup-insert a.values index 0x14 value, other) m.health;
    })
  ]

  -- The view of the changed actor is the changed view.
  Mirrors-change :
      (q : ActorRequest F) (a : Actor F) (v : ActorView F)
      → IsCurrent q
      → Mirrors f a v
      → Mirrors f (change q a) (see q v)
  unfolding change set_state apply_delta set_dead set_value see_delta
  Mirrors-change (state id idle moving moving_xy weapon alerted sneaking firing) a v current m =
      ground arith
  Mirrors-change (delta id idle moving moving_xy weapon alerted sneaking firing) a v current m =
      record {
        dead = m.dead;
        alerted = or_default-or_keep _ _ alerted m.alerted;
        sneaking = or_default-or_keep _ _ sneaking m.sneaking;
        moving = or_default-or_keep _ _ moving m.moving;
        weapon = or_default-or_keep _ _ weapon m.weapon;
        health = m.health;
      }
  Mirrors-change (actor_value id true index value) a v current m =
      Mirrors-value id true index value a v current m
  Mirrors-change (actor_value id false index value) a v current m =
      Mirrors-value id false index value a v current m
  Mirrors-change (dead id dies limbs cause) a v current m = ground arith
  Mirrors-change (fire id weapon) a v current m = m
  Mirrors-change (spell id s source dual at) a v current m = m

  module _ (player_name : ℕ → Text) (now : F) where
    lookup-change_object :
        (c : ClientRegistry F) (id : ℕ) (g : ClientObject F → ClientObject F) (o : ClientObject F)
        → Map.lookup c.objects id ≡ some o
        → Map.lookup (change_object c id g).objects id ≡ some (g o)
    unfolding change_object
    lookup-change_object c id g o h =
        rw h (lookup-insert c.objects id id (g o) ∙ ground (arith, nat_beq_iff id id))

    abbrev outcome :
        Bool → Packet F → ObjectRegistry F → ObjectRegistry F → Option (Packet F) × ObjectRegistry F
    outcome b q r' r = if b then (some q, r') else (none, r)

    sent :
        (b : Bool) (p q : Packet F) (r r' : ObjectRegistry F)
        → (outcome b q r' r).0 ≡ some p
        → q ≡ p
    sent true p q r r' h = ground arith
    sent false p q r r' h = cc

    relayed : (b : Bool) (p q : Packet F) → (if b then some q else none) ≡ some p → q ≡ p
    relayed true p q h = ground arith
    relayed false p q h = cc

    -- What the packet that is relayed does to the client's view.
    view_seen :
        (r : ObjectRegistry F) (s : Session) (q : ActorRequest F) (p : Packet F)
        (c : ClientRegistry F) (v : ActorView F)
        → (answer r s q).0 ≡ some p
        → Map.lookup c.objects (target q) ≡ some (an_actor v)
        → Map.lookup (apply_packet f player_name c now p).objects (target q)
          ≡ some (an_actor (see q v))
    unfolding answer target handle_actor_state handle_actor_state_delta handle_actor_value
        handle_actor_dead handle_fire_weapon handle_spell_cast apply_packet on_actor
    view_seen r s (state id idle moving moving_xy weapon alerted sneaking firing) p c v h found =
        rw (← sent (can_mutate r s id) p _ r _ h) (lookup-change_object c id _ _ found)
    view_seen r s (delta id idle moving moving_xy weapon alerted sneaking firing) p c v h found =
        rw (← sent (can_mutate r s id) p _ r _ h) (lookup-change_object c id _ _ found)
    view_seen r s (actor_value id is_base index value) p c v h found =
        rw (← sent (can_mutate r s id) p _ r _ h) (lookup-change_object c id _ _ found)
    view_seen r s (dead id dies limbs cause) p c v h found =
        rw (← sent (can_mutate r s id) p _ r _ h) (lookup-change_object c id _ _ found)
    view_seen r s (fire id weapon) p c v h found = rw (← relayed (can_mutate r s id) p _ h) found
    view_seen r s (spell id sp source dual at) p c v h found =
        rw (← relayed (can_mutate r s id) p _ h) found

    changed :
        (r : ObjectRegistry F) (s : Session) (q : ActorRequest F) (p : Packet F) (a : Actor F)
        → (answer r s q).0 ≡ some p
        → get r (target q) ≡ some (Objects.an_actor a)
        → get (answer r s q).1 (target q) ≡ some (Objects.an_actor (change q a))
    unfolding Actor.on_actor
    changed r s q p a h here =
        let (relays, (becomes, owner)) = answer_guarded r s q (target q) in
        becomes ∙ rw (← relays, h, here) (ground (arith, nat_beq_iff (target q) (target q)))

    -- A packet of one of the six kinds of `ActorRequest` (state, delta of it, value, death, shot, spell) on
    -- an actor, that the server relays, and that does not set the base value of the health: where a
    -- client's view mirrors the actor before, its view mirrors the actor after, on each side what the
    -- packet made of it.
    pub Mirrors-answer :
        (r : ObjectRegistry F) (s : Session) (q : ActorRequest F) (p : Packet F)
        (c : ClientRegistry F) (a : Actor F) (v : ActorView F)
        → (answer r s q).0 ≡ some p
        → IsCurrent q
        → get r (target q) ≡ some (Objects.an_actor a)
        → Map.lookup c.objects (target q) ≡ some (an_actor v)
        → Mirrors f a v
        → (b : Actor F) × ((w : ActorView F) × ((get (answer r s q).1 (target q)
                ≡ some (Objects.an_actor b))
              × ((Map.lookup (apply_packet f player_name c now p).objects (target q)
                    ≡ some (an_actor w))
                  × Mirrors f b w)))
    Mirrors-answer r s q p c a v h current here there m = (
      change q a,
      (
        see q v,
        (changed r s q p a h here, (view_seen r s q p c v h there, Mirrors-change q a v current m)),
      ),
    )
