-- ===== src/World/Registry.antt =====
-- crates/ashfall-server/src/world/registry.rs: the store of the server's objects, their owners, the
-- cells they are seen from, and the marks of what was deleted. The concurrent maps are plain ones:
-- a call of a method is one step. The counts are kept by the mask of a kind.
pub mod Steps
pub mod Cells
use ashfall.Prelude.{
  ℕ, ◌+◌, ◌-◌, ◌%◌, Bool, true, false, not, Option, none, some, List, [], ◌∷◌, ◌++◌, bit_and, leb,
  ◌==◌, nat_eq, if◌then◌else◌, length, filterb, contains, u32,
}
use ashfall.Map
use ashfall.Map.{Map, is_some}
use ashfall.Map.Iter.{retain_mut, keys_where, remove_all, other_than}
use ashfall.World.Kind.{ObjectKind, mask}
use ashfall.World.Objects
use ashfall.World.Objects.{GameObject, kind, kind_mask}

pub record ObjectRegistry (F : Type 0) : Type 0 where
  pub objects : Map ℕ (GameObject F)
  pub type_counts : Map ℕ ℕ
  pub deleted : Map ℕ Bool
  pub ref_to_id : Map ℕ ℕ
  pub cell_refs : Map ℕ (List ℕ)
  pub owners : Map ℕ ℕ
  pub next_id : ℕ

abbrev or_else {ℓ} : {A : Type ℓ} → A → Option A → A
or_else a none = a
or_else a (some b) = b

-- The counters are of 64 and of 32 bits.
abbrev bump : ℕ → ℕ
bump n = (n + 1) % 18446744073709551616

abbrev overlaps : ℕ → ℕ → Bool
overlaps a b = if bit_and a b == 0 then false else true

insert_sorted : ℕ → List ℕ → List ℕ
insert_sorted x [] = x ∷ []
insert_sorted x (y ∷ ys) = let rest = insert_sorted x ys in if leb x y then x ∷ y ∷ ys else y ∷ rest

-- `sort_by_key`, of the standard library: equal ids cannot be told apart.
unfoldable pub sort : List ℕ → List ℕ
unfolding insert_sorted
sort [] = []
sort (x ∷ xs) = insert_sorted x (sort xs)

dedup_after : ℕ → List ℕ → List ℕ
dedup_after x [] = []
dedup_after x (y ∷ ys) = let rest = dedup_after y ys in if x == y then rest else y ∷ rest

-- `dedup_by_key`: of a run of equal elements the first is kept.
unfoldable pub dedup : List ℕ → List ℕ
unfolding dedup_after
dedup [] = []
dedup (x ∷ xs) = x ∷ dedup_after x xs

nonempty : List ℕ → Option (List ℕ)
nonempty [] = none
nonempty (i ∷ ids) = some (i ∷ ids)

seen : Option (List ℕ) → ℕ → List ℕ
seen none id = id ∷ []
seen (some ids) id = if contains ids id then ids else ids ++ id ∷ []

module _ {F : Type 0} where
  unfoldable pub new : ObjectRegistry F
  new = record {
    objects = Map.empty;
    type_counts = Map.empty;
    deleted = Map.empty;
    ref_to_id = Map.empty;
    cell_refs = Map.empty;
    owners = Map.empty;
    next_id = 1;
  }

  unfoldable pub allocate_id : ObjectRegistry F → ℕ × ObjectRegistry F
  allocate_id r = (r.next_id, record r { next_id = bump r.next_id })

  count_up : ObjectRegistry F → ObjectKind → Map ℕ ℕ
  count_up r k = elim (Map.lookup r.type_counts (mask k)) [
    | some c ↦ Map.insert r.type_counts (mask k) (u32 (c + 1))
    | none ↦ Map.insert r.type_counts (mask k) 1
  ]

  unfoldable pub insert : ObjectRegistry F → GameObject F → ℕ × ObjectRegistry F
  unfolding count_up
  insert r o = (
    Objects.id o,
    record r { objects = Map.insert r.objects (Objects.id o) o; type_counts = count_up r (kind o) },
  )

  unfoldable pub is_deleted : ObjectRegistry F → ℕ → Bool
  is_deleted r id = Map.contains_key r.deleted id

  -- A deleted object is hidden.
  unfoldable pub get : ObjectRegistry F → ℕ → Option (GameObject F)
  unfolding is_deleted
  get r id = if is_deleted r id then none else Map.lookup r.objects id

  -- What a holder of an object's lock writes: an object that is there is replaced.
  unfoldable pub write : ObjectRegistry F → ℕ → GameObject F → ObjectRegistry F
  write r id o = record r { objects = Map.insert r.objects id o }

  count_down : ObjectRegistry F → ObjectKind → Map ℕ ℕ
  count_down r k = elim (Map.lookup r.type_counts (mask k)) [
    | some c ↦ Map.insert r.type_counts (mask k) (c - 1)
    | none ↦ r.type_counts
  ]

  remove_found : ObjectRegistry F → ℕ → Option (GameObject F) → Bool × ObjectRegistry F
  unfolding count_down nonempty
  remove_found r id none = (false, r)
  remove_found r id (some o) = (
    true,
    record r {
      objects = Map.remove r.objects id;
      type_counts = count_down r (kind o);
      deleted = Map.insert r.deleted id true;
      owners = Map.remove r.owners id;
      cell_refs = retain_mut (λ ids. nonempty (other_than id ids)) r.cell_refs;
    },
  )

  unfoldable pub remove : ObjectRegistry F → ℕ → Bool × ObjectRegistry F
  unfolding remove_found
  remove r id = remove_found r id (Map.lookup r.objects id)

  unfoldable pub owner_of : ObjectRegistry F → ℕ → Option ℕ
  owner_of r id = Map.lookup r.owners id

  -- An owner is never replaced.
  unfoldable pub set_owner : ObjectRegistry F → ℕ → ℕ → Bool × ObjectRegistry F
  set_owner r id player_id =
      if Map.contains_key r.owners id
      then (false, r)
      else (true, record r { owners = Map.insert r.owners id player_id })

  unfoldable pub take_owner : ObjectRegistry F → ℕ → Bool × ObjectRegistry F
  take_owner r id = (is_some (Map.lookup r.owners id), record r { owners = Map.remove r.owners id })

  unfoldable pub release_player_owned : ObjectRegistry F → ℕ → List ℕ × ObjectRegistry F
  release_player_owned r player_id =
      let released = keys_where (λ (owner : ℕ). owner == player_id) r.owners in
      (released, record r { owners = remove_all released r.owners })

  unfoldable pub map_ref : ObjectRegistry F → ℕ → ℕ → ObjectRegistry F
  map_ref r ref_id id = record r { ref_to_id = Map.insert r.ref_to_id ref_id id }

  unfoldable pub lookup_ref : ObjectRegistry F → ℕ → Option ℕ
  lookup_ref r ref_id = Map.lookup r.ref_to_id ref_id

  unfoldable pub add_to_cell : ObjectRegistry F → ℕ → ℕ → ObjectRegistry F
  unfolding seen
  add_to_cell r cell id = record r {
    cell_refs = Map.insert r.cell_refs cell (seen (Map.lookup r.cell_refs cell) id);
  }

  unfoldable pub get_by_cell : ObjectRegistry F → ℕ → List ℕ
  get_by_cell r cell = or_else [] (Map.lookup r.cell_refs cell)

  has_kind : ℕ → Option (GameObject F) → Bool
  has_kind m none = false
  has_kind m (some o) = overlaps (kind_mask o) m

  unfoldable pub get_by_cell_kind : ObjectRegistry F → ℕ → ℕ → List ℕ
  unfolding get_by_cell has_kind
  get_by_cell_kind r cell m =
      filterb (λ (id : ℕ). has_kind m (Map.lookup r.objects id)) (get_by_cell r cell)

  unfoldable pub get_by_kind : ObjectRegistry F → ℕ → List ℕ
  get_by_kind r m = keys_where (λ (o : GameObject F). overlaps (kind_mask o) m) r.objects

  unfoldable pub type_count : ObjectRegistry F → ObjectKind → ℕ
  type_count r k = or_else 0 (Map.lookup r.type_counts (mask k))

  unfoldable pub total_count : ObjectRegistry F → ℕ
  total_count r = length r.objects.entries

  gather : ObjectRegistry F → List ℕ → List ℕ
  unfolding get_by_cell
  gather r [] = []
  gather r (cell ∷ cells) = get_by_cell r cell ++ gather r cells

  -- Every object of the cells once, in the order of the ids.
  unfoldable pub get_by_cells : ObjectRegistry F → List ℕ → List ℕ
  unfolding gather sort dedup
  get_by_cells r cells = dedup (sort (gather r cells))
