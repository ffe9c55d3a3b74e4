-- ===== src/World/Cell.antt =====
-- crates/ashfall-server/src/world/cell.rs: the exterior grid and the nine cells around a player. An
-- `i32` is an integer; `encode_cell` casts a coordinate to 16 and to 8 bits.
pub mod Context
use ashfall.Prelude.{
  ℕ, ◌+◌, ◌-◌, ◌*◌, ◌/◌, ◌%◌, Bool, true, false, List, [], ◌∷◌, bit_or, bit_and, ◌==◌, nat_eq,
  if◌then◌else◌, contains, filterb, map, get_elem?, Option, none, some,
}
use ashfall.Prelude.Int.{ℤ, pos, negsuc, ◌+ℤ◌}
use ashfall.Packet.{Cells}

-- `as u16` and `as u8` of a signed number: its residue.
abbrev pub residue : ℕ → ℤ → ℕ
residue n (pos a) = a % n
residue n (negsuc a) = n - 1 - a % n

unfoldable pub decode_cell : ℕ → ℕ × (ℤ × ℤ)
decode_cell cell = (cell / 65536, (pos (bit_and cell 0xFF), pos (bit_and (cell / 256) 0xFF)))

unfoldable pub encode_cell : ℕ → ℤ → ℤ → ℕ
encode_cell world_id x y =
    bit_or (bit_or (world_id * 65536 % 4294967296) (residue 65536 y * 256)) (residue 256 x)

offsets : List (ℤ × ℤ)
offsets =
    (negsuc 0, negsuc 0)
    ∷ (pos 0, negsuc 0)
    ∷ (pos 1, negsuc 0)
    ∷ (negsuc 0, pos 0)
    ∷ (pos 0, pos 0)
    ∷ (pos 1, pos 0)
    ∷ (negsuc 0, pos 1)
    ∷ (pos 0, pos 1)
    ∷ (pos 1, pos 1)
    ∷ []

grid : ℕ × (ℤ × ℤ) → Cells
unfolding offsets encode_cell
grid (world_id, (x, y)) = map (λ (o : ℤ × ℤ). encode_cell world_id (x +ℤ o.0) (y +ℤ o.1)) offsets

-- An interior cell, of world 0, has no neighbours.
unfoldable pub neighbors : ℕ → Cells
unfolding grid decode_cell
neighbors cell =
    if cell / 65536 == 0 then 0 ∷ 0 ∷ 0 ∷ 0 ∷ cell ∷ 0 ∷ 0 ∷ 0 ∷ 0 ∷ [] else grid (decode_cell cell)

abbrev pub is_in_context : Cells → ℕ → Bool
is_in_context context cell = contains context cell

pub record CellContext : Type 0 where
  pub cells : Cells

unfoldable pub new : ℕ → CellContext
new center = record { cells = neighbors center }

abbrev or_zero : Option ℕ → ℕ
or_zero none = 0
or_zero (some n) = n

-- The fifth of the nine.
abbrev pub center : CellContext → ℕ
center c = or_zero (get_elem? c.cells 4)

unfoldable pub update : CellContext → ℕ → Bool × CellContext
unfolding new
update c cell = if center c == cell then (false, c) else (true, new cell)

-- The cells of the second list that the first one lacks.
abbrev pub without_all : Cells → Cells → List ℕ
without_all context cells =
    filterb (λ (c : ℕ). if is_in_context context c then false else true) cells

-- The cells to enter and to leave.
unfoldable pub diff : CellContext → CellContext → List ℕ × List ℕ
diff old new_context =
    (without_all old.cells new_context.cells, without_all new_context.cells old.cells)
