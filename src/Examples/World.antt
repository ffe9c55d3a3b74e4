-- ===== src/Examples/World.antt =====
-- Runs of the object kinds, the registry and the cells.
use ashfall.Prelude.{
  ℕ, ◌≡◌, ◌≢◌, ◌↔◌, refl, true, false, none, some, List, [], ◌∷◌, nat_eq, if◌then◌else◌, contains,
  ◌||◌,
}
use ashfall.Map
use ashfall.World.Kind.{is_kind, Descends, is_kind_iff, player, container}
use ashfall.World.Objects
use ashfall.World.Objects.{GameObject, a_reference}
use ashfall.World.Registry
use ashfall.World.Registry.{
  ObjectRegistry, owner_of, get, release_player_owned, remove, get_by_cell, get_by_cells, set_owner,
  insert, add_to_cell,
}
use ashfall.World.Registry.Steps.{
  Op, run, inserts, sets_owner, removes, releases, ends, run-owner, get-run_removed,
  release_player_owned_iff,
}
use ashfall.World.Registry.Cells.{IsAscending, in_cells, get_by_cells_iff}
use ashfall.World.Cell
use ashfall.World.Cell.{CellContext, diff}
use ashfall.World.Cell.Context.{contains-diff}

is_kind_iff_example : (is_kind player container ≡ true) ↔ Descends player container
is_kind_iff_example = is_kind_iff player container

abbrev stone : GameObject ℕ
stone = a_reference (record { id = 5; ref_id = 256; base_id = 7 })

-- An object of player 9, seen from cell 3.
abbrev world : ObjectRegistry ℕ
world = add_to_cell (set_owner (insert Registry.new stone).1 5 9).1 3 5

world-owner : owner_of world 5 ≡ some 9
unfolding owner_of add_to_cell set_owner insert Registry.new Map.lookup Map.insert Map.empty
world-owner = refl

world-lookup : Map.lookup world.objects 5 ≡ some stone
unfolding add_to_cell set_owner insert Registry.new Map.lookup Map.insert Map.empty Objects.id
world-lookup = refl

abbrev steps : List (Op ℕ)
steps = sets_owner 5 8 ∷ removes 6 ∷ releases 8 ∷ []

run-owner_example : owner_of (run steps world) 5 ≡ some 9
unfolding ends
run-owner_example = run-owner steps world 5 9 (refl, (refl, (refl, tt))) world-owner

get-run_removed_example : get (run (inserts stone ∷ []) (remove world 5).1) 5 ≡ none
get-run_removed_example = get-run_removed (inserts stone ∷ []) world 5 stone world-lookup

abbrev keeper : ℕ
keeper = 9

abbrev leaver : ℕ
leaver = 8

release_player_owned_iff_example :
    ((owner_of (release_player_owned world leaver).1 5 ≡ some keeper)
      ↔ ((owner_of world 5 ≡ some keeper) × (keeper ≢ leaver)))
    × ((contains (release_player_owned world leaver).0 5 ≡ true) ↔ (owner_of world 5 ≡ some leaver))
release_player_owned_iff_example = release_player_owned_iff world leaver 5 keeper

get_by_cells_iff_example :
    IsAscending (get_by_cells world (2 ∷ 3 ∷ []))
    × (contains (get_by_cells world (2 ∷ 3 ∷ [])) 5 ≡ in_cells world (2 ∷ 3 ∷ []) 5)
get_by_cells_iff_example = get_by_cells_iff world (2 ∷ 3 ∷ []) 5

abbrev west : CellContext
west = Cell.new 459274

abbrev east : CellContext
east = Cell.new 459275

contains-diff_example :
    ((if contains (diff west east).1 459273 then false else contains west.cells 459273)
      || contains (diff west east).0 459273)
    ≡ contains east.cells 459273
contains-diff_example = contains-diff west east 459273
