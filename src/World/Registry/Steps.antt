-- ===== src/World/Registry/Steps.antt =====
-- The calls that change the registry of crates/ashfall-server/src/world/registry.rs, as steps: what
-- any sequence of them keeps.
use ashfall.Prelude.{
  ℕ, ◌≡◌, ◌≢◌, ◌↔◌, inl, inr, refl, ◌∙◌, Bool, true, false, some, none, List, [], ◌∷◌, arith, ◌==◌,
  nat_eq, nat_beq_iff, if◌then◌else◌, contains, All, Option-cases,
}
use ashfall.Map
use ashfall.Map.{is_some}
use ashfall.Map.Laws.{lookup-insert, lookup-remove}
use ashfall.Map.Iter.{keys_where, remove_all, contains-keys_where, lookup-remove_all}
use ashfall.World.Objects.{GameObject}
use ashfall.World.Registry.{
  ObjectRegistry, allocate_id, insert, write, remove, set_owner, take_owner, release_player_owned,
  map_ref, add_to_cell, owner_of, is_deleted, get,
}

pub data Op (F : Type 0) : Type 0 where
  allocates : Op F
  inserts : GameObject F → Op F
  writes : ℕ → GameObject F → Op F
  removes : ℕ → Op F
  sets_owner : (id player_id : ℕ) → Op F
  takes_owner : ℕ → Op F
  releases : ℕ → Op F
  maps_ref : (ref_id id : ℕ) → Op F
  adds_to_cell : (cell id : ℕ) → Op F

module _ {F : Type 0} where
  unfoldable pub apply : Op F → ObjectRegistry F → ObjectRegistry F
  apply allocates r = (allocate_id r).1
  apply (inserts o) r = (insert r o).1
  apply (writes id o) r = write r id o
  apply (removes id) r = (remove r id).1
  apply (sets_owner id player_id) r = (set_owner r id player_id).1
  apply (takes_owner id) r = (take_owner r id).1
  apply (releases player_id) r = (release_player_owned r player_id).1
  apply (maps_ref ref_id id) r = map_ref r ref_id id
  apply (adds_to_cell cell id) r = add_to_cell r cell id

  unfoldable pub run : List (Op F) → ObjectRegistry F → ObjectRegistry F
  unfolding apply
  run [] r = r
  run (op ∷ ops) r = run ops (apply op r)

  -- The steps that may end a player's ownership of an object.
  unfoldable pub ends : ℕ → ℕ → Op F → Bool
  ends id player_id allocates = false
  ends id player_id (inserts o) = false
  ends id player_id (writes i o) = false
  ends id player_id (removes i) = i == id
  ends id player_id (sets_owner i p) = false
  ends id player_id (takes_owner i) = i == id
  ends id player_id (releases p) = p == player_id
  ends id player_id (maps_ref ref_id i) = false
  ends id player_id (adds_to_cell cell i) = false

  -- Who owns an object after a player's objects are released.
  owner_of-release :
      (r : ObjectRegistry F) (player_id id : ℕ)
      → owner_of (release_player_owned r player_id).1 id ≡ (
          if Map.Iter.passes (λ (owner : ℕ). owner == player_id) (owner_of r id)
          then none
          else owner_of r id)
  unfolding owner_of release_player_owned
  owner_of-release r player_id id = ground (
    arith,
    lookup-remove_all (keys_where (λ (owner : ℕ). owner == player_id) r.owners) r.owners id,
    contains-keys_where (λ (owner : ℕ). owner == player_id) r.owners id,
  )

  contains-released :
      (r : ObjectRegistry F) (player_id id : ℕ)
      → contains (release_player_owned r player_id).0 id
        ≡ Map.Iter.passes (λ (owner : ℕ). owner == player_id) (owner_of r id)
  unfolding owner_of release_player_owned
  contains-released r player_id id =
      contains-keys_where (λ (owner : ℕ). owner == player_id) r.owners id

  pub remove_missing :
      (r : ObjectRegistry F) (i id : ℕ)
      → Map.lookup r.objects i ≡ none
      → owner_of (remove r i).1 id ≡ owner_of r id
  unfolding owner_of remove
  remove_missing r i id h = rw h refl

  pub owner_of-remove :
      (r : ObjectRegistry F) (i id : ℕ) (x : GameObject F)
      → Map.lookup r.objects i ≡ some x
      → owner_of (remove r i).1 id ≡ (if i == id then none else owner_of r id)
  unfolding owner_of remove
  owner_of-remove r i id x h = rw h (lookup-remove r.owners i id)

  owner_of-set_owner :
      (r : ObjectRegistry F) (i p id : ℕ)
      → owner_of (set_owner r i p).1 id ≡ (
          if is_some (owner_of r i)
          then owner_of r id
          else if i == id
          then some p
          else owner_of r id)
  unfolding owner_of set_owner
  owner_of-set_owner r i p id = ground (arith, lookup-insert r.owners i id p)

  -- A disconnected player's objects, and no others, lose their owner, and they are the ones reported.
  pub release_player_owned_iff :
      (r : ObjectRegistry F) (player_id id q : ℕ)
      → ((owner_of (release_player_owned r player_id).1 id ≡ some q)
          ↔ ((owner_of r id ≡ some q) × (q ≢ player_id)))
        × ((contains (release_player_owned r player_id).0 id ≡ true)
            ↔ (owner_of r id ≡ some player_id))
  release_player_owned_iff r player_id id q = elim (Option-cases (owner_of r id)) [
    | inl h ↦ ground (arith, owner_of-release r player_id id, contains-released r player_id id)
    | inr (o, h) ↦ ground (
      arith,
      owner_of-release r player_id id,
      contains-released r player_id id,
      nat_beq_iff o player_id,
    )
  ]

  step-owner :
      (op : Op F) (r : ObjectRegistry F) (id player_id : ℕ)
      → ends id player_id op ≡ false
      → owner_of r id ≡ some player_id
      → owner_of (apply op r) id ≡ some player_id
  unfolding apply ends owner_of allocate_id insert write take_owner map_ref add_to_cell
  step-owner allocates r id player_id h o = o
  step-owner (inserts x) r id player_id h o = o
  step-owner (writes i x) r id player_id h o = o
  step-owner (removes i) r id player_id h o = elim (Option-cases (Map.lookup r.objects i)) [
    | inl e ↦ remove_missing r i id e ∙ o
    | inr (x, e) ↦ ground (arith, owner_of-remove r i id x e, nat_beq_iff i id)
  ]
  step-owner (sets_owner i p) r id player_id h o =
      ground (arith, owner_of-set_owner r i p id, nat_beq_iff i id)
  step-owner (takes_owner i) r id player_id h o = ground (arith, lookup-remove r.owners i id)
  step-owner (releases p) r id player_id h o =
      ground (arith, owner_of-release r p id, nat_beq_iff p player_id)
  step-owner (maps_ref ref_id i) r id player_id h o = o
  step-owner (adds_to_cell cell i) r id player_id h o = o

  -- A player stays the owner of an object through any calls among which the object is neither removed
  -- nor released, and the player's objects are not released.
  pub run-owner :
      (ops : List (Op F)) (r : ObjectRegistry F) (id player_id : ℕ)
      → All (λ (op : Op F). ends id player_id op ≡ false) ops
      → owner_of r id ≡ some player_id
      → owner_of (run ops r) id ≡ some player_id
  unfolding run
  run-owner [] r id player_id h o = o
  run-owner (op ∷ ops) r id player_id (h, hs) o =
      run-owner ops (apply op r) id player_id hs (step-owner op r id player_id h o)

  is_deleted-remove :
      (r : ObjectRegistry F) (i id : ℕ)
      → is_deleted r id ≡ true
      → is_deleted (remove r i).1 id ≡ true
  unfolding is_deleted remove
  is_deleted-remove r i id h = elim (Option-cases (Map.lookup r.objects i)) [
    | inl e ↦ rw e h
    | inr (x, e) ↦ rw e (ground (arith, lookup-insert r.deleted i id true))
  ]

  is_deleted-removed :
      (r : ObjectRegistry F) (id : ℕ) (o : GameObject F)
      → Map.lookup r.objects id ≡ some o
      → is_deleted (remove r id).1 id ≡ true
  unfolding is_deleted remove
  is_deleted-removed r id o e =
      rw e (ground (arith, lookup-insert r.deleted id id true, nat_beq_iff id id))

  is_deleted-set_owner :
      (r : ObjectRegistry F) (i p id : ℕ)
      → is_deleted r id ≡ true
      → is_deleted (set_owner r i p).1 id ≡ true
  unfolding is_deleted set_owner
  is_deleted-set_owner r i p id h = ground arith

  step-is_deleted :
      (op : Op F) (r : ObjectRegistry F) (id : ℕ)
      → is_deleted r id ≡ true
      → is_deleted (apply op r) id ≡ true
  unfolding apply is_deleted allocate_id insert write take_owner release_player_owned map_ref
      add_to_cell
  step-is_deleted allocates r id h = h
  step-is_deleted (inserts x) r id h = h
  step-is_deleted (writes i x) r id h = h
  step-is_deleted (removes i) r id h = is_deleted-remove r i id h
  step-is_deleted (sets_owner i p) r id h = is_deleted-set_owner r i p id h
  step-is_deleted (takes_owner i) r id h = h
  step-is_deleted (releases p) r id h = h
  step-is_deleted (maps_ref ref_id i) r id h = h
  step-is_deleted (adds_to_cell cell i) r id h = h

  run-is_deleted :
      (ops : List (Op F)) (r : ObjectRegistry F) (id : ℕ)
      → is_deleted r id ≡ true
      → is_deleted (run ops r) id ≡ true
  unfolding run
  run-is_deleted [] r id h = h
  run-is_deleted (op ∷ ops) r id h = run-is_deleted ops (apply op r) id (step-is_deleted op r id h)

  -- What was removed is never found again, whatever is called after it.
  pub get-run_removed :
      (ops : List (Op F)) (r : ObjectRegistry F) (id : ℕ) (o : GameObject F)
      → Map.lookup r.objects id ≡ some o
      → get (run ops (remove r id).1) id ≡ none
  unfolding get
  get-run_removed ops r id o h =
      rw (run-is_deleted ops (remove r id).1 id (is_deleted-removed r id o h)) refl
