-- ===== src/Handlers/Actor/Grant.antt =====
-- crates/ashfall-server/src/handlers/actor.rs: a player who reports an actor first simulates it.
use ashfall.Prelude.{
  ◌⊎◌, ℕ, ◌≡◌, refl, sym, ap, inl, inr, true, false, Option, none, some, arith, ◌==◌, nat_eq,
  nat_beq_iff, contains, Option-cases, Bool-cases,
}
use ashfall.Map.{is_some}
use ashfall.Map.Laws.{lookup-insert}
use ashfall.Float.{Float}
use ashfall.Session.{Session}
use ashfall.Packet.{Packet, ownership_granted}
use ashfall.World.Objects
use ashfall.World.Objects.{Actor, GameObject, an_actor, new_actor}
use ashfall.World.Objects.Announce.{actor_packet}
use ashfall.World.Registry.{
  ObjectRegistry, get, insert, set_owner, map_ref, lookup_ref, add_to_cell, get_by_cell, is_deleted,
  owner_of,
}
use ashfall.World.Registry.Cells.{get_by_cell-add_to_cell}
use ashfall.Handlers.Actor.{taken_by_other, register_actor, handle_actor_new}

module _ {F : Type 0} where
  abbrev pub actor_id : Actor F → ℕ
  actor_id a = a.container.object.ref_data.id

  abbrev pub actor_ref : Actor F → ℕ
  actor_ref a = a.container.object.ref_data.ref_id

  -- The actor is registered for the session's player, as the packet says.
  abbrev pub IsRegistered : ObjectRegistry F → Session → Actor F → Type 0
  IsRegistered r s a =
      (owner_of r (actor_id a) ≡ s.player_id)
      × ((lookup_ref r (actor_ref a) ≡ some (actor_id a))
          × ((contains (get_by_cell r s.current_cell) (actor_id a) ≡ true)
              × ((b : Actor F) × ((get r (actor_id a) ≡ some (an_actor b))
                    × (actor_packet b ≡ actor_packet a)))))

module _ {F : Type 0} (f : Float F) where
  -- The reported actor as it is stored: as a new one with the fields of the packet.
  unfoldable pub stored : ℕ → Actor F → Actor F
  stored cell a =
      let b = new_actor f (actor_id a) (actor_ref a) a.container.object.ref_data.base_id 0 in
      record b {
        container = record b.container {
          object = record b.container.object { scale = a.container.object.scale; cell = cell };
        };
        values = a.values;
        base_values = a.base_values;
        race = a.race;
        age = a.age;
        idle_anim = a.idle_anim;
        moving_anim = a.moving_anim;
        moving_xy = a.moving_xy;
        weapon_anim = a.weapon_anim;
        female = a.female;
        alerted = a.alerted;
        sneaking = a.sneaking;
        dead = a.dead;
        death_limbs = a.death_limbs;
        death_cause = a.death_cause;
      }

  owner_of-set_owner :
      (r : ObjectRegistry F) (id p : ℕ)
      → is_some (owner_of r id) ≡ false
      → owner_of (set_owner r id p).1 id ≡ some p
  unfolding owner_of set_owner
  owner_of-set_owner r id p free =
      rw free (ground (arith, lookup-insert r.owners id id p, nat_beq_iff id id))

  get-set_owner :
      (r : ObjectRegistry F) (id p j : ℕ) → is_deleted (set_owner r id p).1 j ≡ is_deleted r j
  unfolding is_deleted set_owner
  get-set_owner r id p j = ground arith

  owner_of-register_actor :
      (r : ObjectRegistry F) (id ref_id cell p : ℕ) (a : Actor F)
      → is_some (owner_of r id) ≡ false
      → owner_of (register_actor f r id ref_id cell p a) id ≡ some p
  unfolding register_actor owner_of add_to_cell insert map_ref
  owner_of-register_actor r id ref_id cell p a free = owner_of-set_owner r id p free

  lookup_ref-register_actor :
      (r : ObjectRegistry F) (id ref_id cell p : ℕ) (a : Actor F)
      → lookup_ref (register_actor f r id ref_id cell p a) ref_id ≡ some id
  unfolding register_actor lookup_ref add_to_cell insert map_ref
  lookup_ref-register_actor r id ref_id cell p a = ground (
    arith,
    lookup-insert (set_owner r id p).1.ref_to_id ref_id ref_id id,
    nat_beq_iff ref_id ref_id,
  )

  get_by_cell-register_actor :
      (r : ObjectRegistry F) (id ref_id cell p : ℕ) (a : Actor F)
      → contains (get_by_cell (register_actor f r id ref_id cell p a) cell) id ≡ true
  unfolding register_actor
  get_by_cell-register_actor r id ref_id cell p a = get_by_cell-add_to_cell _ cell id

  get-register_actor :
      (r : ObjectRegistry F) (ref_id cell p : ℕ) (a : Actor F)
      → is_deleted r (actor_id a) ≡ false
      → get (register_actor f r (actor_id a) ref_id cell p a) (actor_id a) ≡ some (an_actor a)
  unfolding register_actor get is_deleted Objects.id add_to_cell insert map_ref
  get-register_actor r ref_id cell p a live = ground (
    arith,
    get-set_owner r (actor_id a) p (actor_id a),
    lookup-insert (set_owner r (actor_id a) p).1.objects (actor_id a) (actor_id a) (an_actor a),
    nat_beq_iff (actor_id a) (actor_id a),
  )

  stored-actor_packet : (cell : ℕ) (a : Actor F) → actor_packet (stored cell a) ≡ actor_packet a
  unfolding stored actor_packet new_actor
  stored-actor_packet cell a = refl

  granted_eq :
      (r : ObjectRegistry F) (s : Session) (a : Actor F) (p : ℕ)
      → is_deleted r (actor_id a) ≡ false
      → taken_by_other (lookup_ref r (actor_ref a)) (actor_id a) ≡ false
      → is_some (owner_of r (actor_id a)) ≡ false
      → s.player_id ≡ some p
      → handle_actor_new f r s (actor_packet a) ≡ (
        some (ownership_granted (actor_id a)),
        (
          some (actor_packet a),
          register_actor f r (actor_id a) (actor_ref a) s.current_cell p (stored s.current_cell a),
        ),
      )
  unfolding handle_actor_new actor_packet stored
  granted_eq r s a p nd t free hp = rw (nd, t, free, hp) refl

  granted_inv :
      (r : ObjectRegistry F) (s : Session) (a : Actor F)
      → is_some (handle_actor_new f r s (actor_packet a)).0 ≡ true
      → (is_deleted r (actor_id a) ≡ false)
        × ((taken_by_other (lookup_ref r (actor_ref a)) (actor_id a) ≡ false)
            × ((is_some (owner_of r (actor_id a)) ≡ false) × ((p : ℕ) × (s.player_id ≡ some p))))
  unfolding handle_actor_new actor_packet
  granted_inv r s a h = elim (Option-cases s.player_id) [
    | inl e ↦ ground arith
    | inr (p, e) ↦ (ground arith, (ground arith, (ground arith, (p, e))))
  ]

  registered :
      (r : ObjectRegistry F) (s : Session) (a : Actor F)
      → is_some (handle_actor_new f r s (actor_packet a)).0 ≡ true
      → IsRegistered (handle_actor_new f r s (actor_packet a)).1.1 s a
  unfolding stored new_actor
  registered r s a h =
      let (nd, (t, (free, (p, hp)))) = granted_inv r s a h in
      rw (granted_eq r s a p nd t free hp, hp)
        (
          owner_of-register_actor r (actor_id a) (actor_ref a) s.current_cell p
              (stored s.current_cell a) free,
          (
            lookup_ref-register_actor r (actor_id a) (actor_ref a) s.current_cell p
                (stored s.current_cell a),
            (
              get_by_cell-register_actor r (actor_id a) (actor_ref a) s.current_cell p
                  (stored s.current_cell a),
              (
                stored s.current_cell a,
                (
                  get-register_actor r (actor_ref a) s.current_cell p (stored s.current_cell a) nd,
                  stored-actor_packet s.current_cell a,
                ),
              ),
            ),
          ),
        )

  -- An actor that is granted to the player who reports it: the player is told so, the others get the
  -- packet as it was reported, the actor is owned by that player, is what its reference stands for, is
  -- seen from the player's cell, and is stored as it was reported.
  pub handle_actor_new-grant :
      (r : ObjectRegistry F) (s : Session) (a : Actor F)
      → is_some (handle_actor_new f r s (actor_packet a)).0 ≡ true
      → ((handle_actor_new f r s (actor_packet a)).0 ≡ some (ownership_granted (actor_id a)))
        × (((handle_actor_new f r s (actor_packet a)).1.0 ≡ some (actor_packet a))
            × IsRegistered (handle_actor_new f r s (actor_packet a)).1.1 s a)
  handle_actor_new-grant r s a h =
      let (nd, (t, (free, (p, hp)))) = granted_inv r s a h in
      let eq = granted_eq r s a p nd t free hp in
      (
        ap (λ (x : Option (Packet F) × (Option (Packet F) × ObjectRegistry F)). x.0) eq,
        (
          ap (λ (x : Option (Packet F) × (Option (Packet F) × ObjectRegistry F)). x.1.0) eq,
          registered r s a h,
        ),
      )

  rejected-owned :
      (r : ObjectRegistry F) (t : Session) (b : Actor F)
      → is_some (owner_of r (actor_id b)) ≡ true
      → handle_actor_new f r t (actor_packet b) ≡ (none, (none, r))
  unfolding handle_actor_new actor_packet
  rejected-owned r t b h = elim (Bool-cases (is_deleted r (actor_id b))) [
    | inl d ↦ rw d refl
    | inr d ↦ elim (Bool-cases (taken_by_other (lookup_ref r (actor_ref b)) (actor_id b))) [
      | inl k ↦ rw (d, k) refl
      | inr k ↦ rw (d, k, h) refl
    ]
  ]

  rejected-taken :
      (r : ObjectRegistry F) (t : Session) (b : Actor F)
      → taken_by_other (lookup_ref r (actor_ref b)) (actor_id b) ≡ true
      → handle_actor_new f r t (actor_packet b) ≡ (none, (none, r))
  unfolding handle_actor_new actor_packet
  rejected-taken r t b h = elim (Bool-cases (is_deleted r (actor_id b))) [
    | inl d ↦ rw d refl
    | inr d ↦ rw (d, h) refl
  ]

  is_owned-grant :
      (r : ObjectRegistry F) (s : Session) (a b : Actor F)
      → is_some (handle_actor_new f r s (actor_packet a)).0 ≡ true
      → actor_id b ≡ actor_id a
      → is_some (owner_of (handle_actor_new f r s (actor_packet a)).1.1 (actor_id b)) ≡ true
  is_owned-grant r s a b h same =
      let (nd, (t, (free, (p, hp)))) = granted_inv r s a h in
      rw (same, (registered r s a h).0, hp) refl

  is_taken-grant :
      (r : ObjectRegistry F) (s : Session) (a b : Actor F)
      → is_some (handle_actor_new f r s (actor_packet a)).0 ≡ true
      → actor_ref b ≡ actor_ref a
      → (actor_id a == actor_id b) ≡ false
      → taken_by_other
          (lookup_ref (handle_actor_new f r s (actor_packet a)).1.1 (actor_ref b))
          (actor_id b)
        ≡ true
  is_taken-grant r s a b h same e = rw (same, (registered r s a h).1.0, e) refl

  -- A second report of the same actor, or of another one under the same reference, is rejected and
  -- changes nothing, whoever sends it.
  pub handle_actor_new-again :
      (r : ObjectRegistry F) (s t : Session) (a b : Actor F)
      → is_some (handle_actor_new f r s (actor_packet a)).0 ≡ true
      → (actor_id b ≡ actor_id a) ⊎ (actor_ref b ≡ actor_ref a)
      → handle_actor_new f (handle_actor_new f r s (actor_packet a)).1.1 t (actor_packet b)
        ≡ (none, (none, (handle_actor_new f r s (actor_packet a)).1.1))
  handle_actor_new-again r s t a b h (inl same) =
      rejected-owned (handle_actor_new f r s (actor_packet a)).1.1 t b
        (is_owned-grant r s a b h same)
  handle_actor_new-again r s t a b h (inr same) = elim (Bool-cases (actor_id a == actor_id b)) [
    | inl e ↦
        rejected-owned (handle_actor_new f r s (actor_packet a)).1.1 t b
          (is_owned-grant r s a b h (sym ((nat_beq_iff _ _).0 e)))
    | inr e ↦
        rejected-taken (handle_actor_new f r s (actor_packet a)).1.1 t b
          (is_taken-grant r s a b h same e)
  ]
