-- ===== src/World/Registry/Cells.antt =====
-- The cells of crates/ashfall-server/src/world/registry.rs: which objects a query of them returns.
use ashfall.Prelude.{
  ℕ, ◌≤◌, ◌<◌, ◌≡◌, refl, inl, inr, sym, subst, ◌∙◌, Bool, Bool-cases, true, false, ◌||◌, Option,
  none, some, List, [], ◌∷◌, ◌++◌, arith, leb, ◌==◌, nat_eq, nat_beq_iff, contains, Option-cases,
}
use ashfall.Map
use ashfall.Map.Laws.{lookup-insert}
use ashfall.Map.Iter.{other_than, lookup-retain_mut}
use ashfall.World.Objects.{GameObject}
use ashfall.World.Registry.{
  ObjectRegistry, or_else, nonempty, seen, insert_sorted, sort, dedup_after, dedup, gather, remove,
  add_to_cell, get_by_cell, get_by_cells,
}

pub contains-append :
    (xs ys : List ℕ) (k : ℕ) → contains (xs ++ ys) k ≡ (contains xs k || contains ys k)
contains-append [] ys k = refl
contains-append (x ∷ xs) ys k = ground (arith, contains-append xs ys k)

contains-insert_sorted :
    (x : ℕ) (l : List ℕ) (k : ℕ) → contains (insert_sorted x l) k ≡ (x == k || contains l k)
unfolding insert_sorted
contains-insert_sorted x [] k = refl
contains-insert_sorted x (y ∷ ys) k = ground (arith, contains-insert_sorted x ys k)

contains-sort : (l : List ℕ) (k : ℕ) → contains (sort l) k ≡ contains l k
unfolding sort
contains-sort [] k = refl
contains-sort (x ∷ xs) k = ground (arith, contains-sort xs k, contains-insert_sorted x (sort xs) k)

contains-dedup_after :
    (x : ℕ) (l : List ℕ) (k : ℕ)
    → (x == k || contains (dedup_after x l) k) ≡ (x == k || contains l k)
unfolding dedup_after
contains-dedup_after x [] k = refl
contains-dedup_after x (y ∷ ys) k = ground (arith, contains-dedup_after y ys k, nat_beq_iff x y)

contains-dedup : (l : List ℕ) (k : ℕ) → contains (dedup l) k ≡ contains l k
unfolding dedup
contains-dedup [] k = refl
contains-dedup (x ∷ xs) k = contains-dedup_after x xs k

-- Each element is at least, or is above, the one before it.
NotBelow : ℕ → List ℕ → Type 0
NotBelow x [] = Unit
NotBelow x (y ∷ ys) = (x ≤ y) × NotBelow y ys

IsAscendingFrom : ℕ → List ℕ → Type 0
IsAscendingFrom x [] = Unit
IsAscendingFrom x (y ∷ ys) = (x < y) × IsAscendingFrom y ys

unfoldable pub IsAscending : List ℕ → Type 0
unfolding IsAscendingFrom
IsAscending [] = Unit
IsAscending (x ∷ xs) = IsAscendingFrom x xs

insert_sorted-NotBelow :
    (b x : ℕ) (l : List ℕ) → b ≤ x → NotBelow b l → NotBelow b (insert_sorted x l)
unfolding insert_sorted NotBelow
insert_sorted-NotBelow b x [] h n = (h, tt)
insert_sorted-NotBelow b x (y ∷ ys) h (k, n) = elim (Bool-cases (leb x y)) [
  | inl e ↦ rw e (h, (ground arith, n))
  | inr e ↦ rw e (k, insert_sorted-NotBelow y x ys (ground arith) n)
]

sort-NotBelow : (l : List ℕ) → NotBelow 0 (sort l)
unfolding sort NotBelow
sort-NotBelow [] = tt
sort-NotBelow (x ∷ xs) = insert_sorted-NotBelow 0 x (sort xs) (omega arith) (sort-NotBelow xs)

dedup_after-IsAscending : (x : ℕ) (l : List ℕ) → NotBelow x l → IsAscendingFrom x (dedup_after x l)
unfolding dedup_after NotBelow IsAscendingFrom
dedup_after-IsAscending x [] n = tt
dedup_after-IsAscending x (y ∷ ys) (k, n) = elim (Bool-cases (x == y)) [
  | inl e ↦ rw e (
      subst (λ (z : ℕ). IsAscendingFrom z (dedup_after y ys)) (sym ((nat_beq_iff x y).0 e))
        (dedup_after-IsAscending y ys n))
  | inr e ↦ rw e (ground (arith, nat_beq_iff x y), dedup_after-IsAscending y ys n)
]

dedup-IsAscending : (b : ℕ) (l : List ℕ) → NotBelow b l → IsAscending (dedup l)
unfolding dedup IsAscending NotBelow
dedup-IsAscending b [] n = tt
dedup-IsAscending b (x ∷ xs) (k, n) = dedup_after-IsAscending x xs n

or_else-nonempty : (l : List ℕ) → or_else [] (nonempty l) ≡ l
unfolding nonempty
or_else-nonempty [] = refl
or_else-nonempty (x ∷ xs) = refl

contains-seen : (o : Option (List ℕ)) (id : ℕ) → contains (seen o id) id ≡ true
unfolding seen
contains-seen none id = ground (arith, nat_beq_iff id id)
contains-seen (some ids) id = ground (arith, contains-append ids (id ∷ []) id, nat_beq_iff id id)

module _ {F : Type 0} where
  -- Whether an object is registered in one of the cells.
  abbrev pub in_cells : ObjectRegistry F → List ℕ → ℕ → Bool
  in_cells r [] id = false
  in_cells r (cell ∷ cells) id = contains (get_by_cell r cell) id || in_cells r cells id

  contains-gather :
      (r : ObjectRegistry F) (cells : List ℕ) (id : ℕ)
      → contains (gather r cells) id ≡ in_cells r cells id
  unfolding gather
  contains-gather r [] id = refl
  contains-gather r (cell ∷ cells) id =
      ground (
        arith,
        contains-append (get_by_cell r cell) (gather r cells) id,
        contains-gather r cells id,
      )

  -- A query of cells returns, in ascending order and so once, just the objects registered in one of them.
  pub get_by_cells_iff :
      (r : ObjectRegistry F) (cells : List ℕ) (id : ℕ)
      → IsAscending (get_by_cells r cells)
        × (contains (get_by_cells r cells) id ≡ in_cells r cells id)
  unfolding get_by_cells
  get_by_cells_iff r cells id = (
    dedup-IsAscending 0 (sort (gather r cells)) (sort-NotBelow (gather r cells)),
    contains-dedup (sort (gather r cells)) id
        ∙ contains-sort (gather r cells) id
        ∙ contains-gather r cells id,
  )

  -- An object that is added to a cell is found there.
  pub get_by_cell-add_to_cell :
      (r : ObjectRegistry F) (cell id : ℕ)
      → contains (get_by_cell (add_to_cell r cell id) cell) id ≡ true
  unfolding get_by_cell add_to_cell
  get_by_cell-add_to_cell r cell id =
      rw (lookup-insert r.cell_refs cell cell (seen (Map.lookup r.cell_refs cell) id))
        (rw ((nat_beq_iff cell cell).1 refl) (contains-seen (Map.lookup r.cell_refs cell) id))

  -- An object that is removed leaves every cell, and the others stay.
  pub get_by_cell-remove :
      (r : ObjectRegistry F) (id : ℕ) (o : GameObject F) (cell : ℕ)
      → Map.lookup r.objects id ≡ some o
      → get_by_cell (remove r id).1 cell ≡ other_than id (get_by_cell r cell)
  unfolding remove get_by_cell
  get_by_cell-remove r id o cell h =
      rw (h, lookup-retain_mut (λ ids. nonempty (other_than id ids)) r.cell_refs cell)
        (elim (Option-cases (Map.lookup r.cell_refs cell)) [
          | inl e ↦ rw e refl
          | inr (ids, e) ↦ rw e (or_else-nonempty (other_than id ids))
        ])
