-- ===== src/Handlers/Object/Frame.antt =====
-- The updates of crates/ashfall-server/src/handlers/object.rs: what a session that owns nothing of an
-- object cannot do to it.
use ashfall.Prelude.{
  ℕ, ◌≡◌, ◌≢◌, ◌∙◌, refl, inl, inr, Bool, true, false, Bool-cases, Option, none, some, arith, ◌==◌,
  nat_eq, nat_beq_iff, if◌then◌else◌,
}
use ashfall.Float.{Float}
use ashfall.Session.{Session}
use ashfall.StringCache.{CachedString, plain, inline, id_only}
use ashfall.Packet.{Packet, Vec3, Pair}
use ashfall.AntiCheat.{validate_position, validate_scale, is_valid_angle3}
use ashfall.World.Objects.{Object, GameObject}
use ashfall.World.Registry.{ObjectRegistry, get, write, owner_of, is_deleted, add_to_cell}
use ashfall.Handlers.Actor.Guard.{get-write}
use ashfall.Handlers.Rights.{may_change, owned_eq}
use ashfall.Handlers.Object.{
  owned, with_entity_mut, change_found, rename, move, turn, on_object, handle_update_pos,
  handle_update_angle, handle_update_scale, handle_update_cell, handle_update_name,
}

pub data ObjectRequest (F : Type 0) : Type 0 where
  pos : (id : ℕ) → Vec3 F → (now : ℕ) → ObjectRequest F
  angle : (id : ℕ) → Pair F → ObjectRequest F
  scale : (id : ℕ) → F → ObjectRequest F
  cell : (id cell : ℕ) → Vec3 F → ObjectRequest F
  name : (id : ℕ) → CachedString → ObjectRequest F

module _ {F : Type 0} (f : Float F) where
  -- The handler that an update is sent to.
  unfoldable pub update_object :
      ObjectRegistry F → Session → ObjectRequest F → Option (Packet F) × ObjectRegistry F
  update_object r s (pos id p now) = handle_update_pos f r s id p now
  update_object r s (angle id a) = handle_update_angle f r s id a
  update_object r s (scale id x) = handle_update_scale f r s id x
  update_object r s (cell id c p) = handle_update_cell r s id c p
  update_object r s (name id n) = handle_update_name r s id n

  Keeps : ℕ → ObjectRegistry F → ObjectRegistry F → Type 0
  Keeps j r r' = (get r' j ≡ get r j) × (owner_of r' j ≡ owner_of r j)

  same-Keeps : (r : ObjectRegistry F) (j : ℕ) → Keeps j r r
  unfolding Keeps
  same-Keeps r j = (refl, refl)

  found-Keeps :
      (r : ObjectRegistry F) (id j : ℕ) (g : Object F → Object F) (o : Option (GameObject F))
      → get r id ≡ o
      → id ≢ j
      → Keeps j r (change_found r id g o)
  unfolding Keeps change_found owner_of write
  found-Keeps r id j g none e apart = (refl, refl)
  found-Keeps r id j g (some o) e apart =
      (ground (arith, get-write r id j (on_object g o) o e, nat_beq_iff id j), refl)

  with_entity_mut-Keeps :
      (r : ObjectRegistry F) (id j : ℕ) (g : Object F → Object F)
      → id ≢ j
      → Keeps j r (with_entity_mut r id g)
  unfolding with_entity_mut
  with_entity_mut-Keeps r id j g apart = found-Keeps r id j g (get r id) refl apart

  cell-Keeps :
      (r r' : ObjectRegistry F) (c id j : ℕ) → Keeps j r r' → Keeps j r (add_to_cell r' c id)
  unfolding Keeps add_to_cell get is_deleted owner_of
  cell-Keeps r r' c id j k = k

  if-Keeps :
      (r r' : ObjectRegistry F) (j : ℕ) (b : Bool) (p : Option (Packet F))
      → Keeps j r r'
      → Keeps j r (if◌then◌else◌ {A = Option (Packet F) × ObjectRegistry F} b (p, r') (none, r)).1
  unfolding Keeps
  if-Keeps r r' j true p k = k
  if-Keeps r r' j false p k = (refl, refl)

  guarded :
      (r : ObjectRegistry F) (s : Session) (id j : ℕ) (x : Option (Packet F) × ObjectRegistry F)
      → owned r s j ≡ false
      → (id ≢ j → Keeps j r x.1)
      → Keeps j r (if owned r s id then x else (none, r)).1
  guarded r s id j x mine k = elim (Bool-cases (id == j)) [
    | inl e ↦ rw ((nat_beq_iff id j).0 e, mine) (same-Keeps r j)
    | inr e ↦ elim (Bool-cases (owned r s id)) [
      | inl o ↦ rw o (k (λ h. ground (arith, nat_beq_iff id j)))
      | inr o ↦ rw o (same-Keeps r j)
    ]
  ]

  move-Keeps :
      (r : ObjectRegistry F) (id j : ℕ) (p : Vec3 F) (delta : ℕ) (prev : Option (Vec3 F))
      → id ≢ j
      → Keeps j r (move f r id p delta prev).1
  unfolding move
  move-Keeps r id j p delta none apart = same-Keeps r j
  move-Keeps r id j p delta (some prev) apart =
      if-Keeps r _ j (validate_position f p (some prev) delta) _
        (with_entity_mut-Keeps r id j _ apart)

  rename-Keeps :
      (r : ObjectRegistry F) (id j : ℕ) (n : CachedString) → id ≢ j → Keeps j r (rename r id n).1
  unfolding rename
  rename-Keeps r id j (plain n) apart = with_entity_mut-Keeps r id j _ apart
  rename-Keeps r id j (inline i v) apart = same-Keeps r j
  rename-Keeps r id j (id_only i) apart = same-Keeps r j

  update_object-Keeps :
      (r : ObjectRegistry F) (s : Session) (q : ObjectRequest F) (j : ℕ)
      → owned r s j ≡ false
      → Keeps j r (update_object r s q).1
  unfolding update_object handle_update_pos handle_update_angle handle_update_scale
      handle_update_cell handle_update_name turn
  update_object-Keeps r s (pos id p now) j h =
      guarded r s id j _ h (λ apart. move-Keeps r id j p _ _ apart)
  update_object-Keeps r s (angle id a) j h = guarded r s id j _ h (λ apart.
      if-Keeps r _ j (is_valid_angle3 f (a.0, f.zero, a.1)) _
        (with_entity_mut-Keeps r id j _ apart))
  update_object-Keeps r s (scale id x) j h =
      guarded r s id j _ h
        (λ apart. if-Keeps r _ j (validate_scale f x) _ (with_entity_mut-Keeps r id j _ apart))
  update_object-Keeps r s (cell id c p) j h =
      guarded r s id j _ h (λ apart. cell-Keeps r _ c id j (with_entity_mut-Keeps r id j _ apart))
  update_object-Keeps r s (name id n) j h =
      guarded r s id j _ h (λ apart. rename-Keeps r id j n apart)

  -- None of the five kinds of updates (of position, angle, scale, cell and name) that a session sends,
  -- whichever object it names, changes an object that is neither the session's player nor owned by it
  -- (nor, where the session has no player, without an owner), or changes its owner.
  pub update_object-unowned :
      (r : ObjectRegistry F) (s : Session) (q : ObjectRequest F) (j : ℕ)
      → may_change s.player_id (owner_of r j) j ≡ false
      → (get (update_object r s q).1 j ≡ get r j)
        × (owner_of (update_object r s q).1 j ≡ owner_of r j)
  unfolding Keeps
  update_object-unowned r s q j h = update_object-Keeps r s q j (owned_eq r s j ∙ h)
