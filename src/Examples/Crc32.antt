-- ===== src/Examples/Crc32.antt =====
-- Checksums of the bytes of `123456789`.
use ashfall.Prelude.{◌≡◌, refl, none, some, List, [], ◌∷◌, ◌++◌, map, flatten}
use ashfall.Crc32.{crc32, file_crc32}
use ashfall.Crc32.Stream.{Piece, as_read, bytes_of, file_crc32-pieces}

check_value : crc32 (49 ∷ 50 ∷ 51 ∷ 52 ∷ 53 ∷ 54 ∷ 55 ∷ 56 ∷ 57 ∷ []) ≡ 0xCBF43926
unfolding crc32
check_value = refl

abbrev pieces : List Piece
pieces = (49, 50 ∷ 51 ∷ []) ∷ (52, []) ∷ []

file_crc32-pieces_example :
    (file_crc32 (map as_read pieces) ≡ some (crc32 (flatten (map bytes_of pieces))))
    × (file_crc32 (map as_read pieces ++ some [] ∷ none ∷ [])
        ≡ some (crc32 (flatten (map bytes_of pieces))))
    × (file_crc32 (map as_read pieces ++ none ∷ none ∷ []) ≡ none)
file_crc32-pieces_example = file_crc32-pieces pieces (none ∷ [])
