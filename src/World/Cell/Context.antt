-- ===== src/World/Cell/Context.antt =====
-- What a player enters and leaves when the context of crates/ashfall-server/src/world/cell.rs changes.
use ashfall.Prelude.{
  ℕ, ◌≡◌, false, ◌||◌, List, [], ◌∷◌, arith, nat_eq, nat_beq_iff, if◌then◌else◌, contains,
}
use ashfall.World.Cell.{CellContext, diff, without_all}

contains-without_all :
    (old l : List ℕ) (k : ℕ)
    → contains (without_all old l) k ≡ (if contains old k then false else contains l k)
contains-without_all old [] k = ground arith
contains-without_all old (c ∷ l) k = ground (arith, nat_beq_iff c k, contains-without_all old l k)

-- A client that drops the cells it is told to leave and adds those it is told to enter sees exactly
-- the cells of the new context.
pub contains-diff :
    (old new : CellContext) (cell : ℕ)
    → (if contains (diff old new).1 cell then false else contains old.cells cell)
        || contains (diff old new).0 cell
      ≡ contains new.cells cell
unfolding diff
contains-diff old new cell = ground (
  arith,
  contains-without_all old.cells new.cells cell,
  contains-without_all new.cells old.cells cell,
)
