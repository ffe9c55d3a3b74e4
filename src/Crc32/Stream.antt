-- ===== src/Crc32/Stream.antt =====
-- crates/ashfall-core/src/crc32.rs: a file that is read in pieces has the checksum of its bytes.
use ashfall.Prelude.{
  ℕ, bit_xor, ◌≡◌, refl, sym, ap, ◌∙◌, Option, none, some, List, [], ◌∷◌, ◌++◌, map, append-nil,
  flatten,
}
use ashfall.Crc32.{feed, shift_bits, crc32, read_on, file_crc32}

feed-append : (xs ys : List ℕ) (crc : ℕ) → feed crc (xs ++ ys) ≡ feed (feed crc xs) ys
unfolding feed
feed-append [] ys crc = refl
feed-append (x ∷ xs) ys crc = feed-append xs ys (shift_bits 8 (bit_xor crc x))

-- The bytes of a read that is not empty.
abbrev pub Piece : Type 0
Piece = ℕ × List ℕ

abbrev pub bytes_of : Piece → List ℕ
bytes_of (b, bs) = b ∷ bs

abbrev pub as_read : Piece → Option (List ℕ)
as_read p = some (bytes_of p)

read_on-pieces :
    (crc : ℕ) (pieces : List Piece) (rest : List (Option (List ℕ)))
    → read_on crc (map as_read pieces ++ rest)
      ≡ read_on (feed crc (flatten (map bytes_of pieces))) rest
unfolding read_on feed
read_on-pieces crc [] rest = refl
read_on-pieces crc ((b, bs) ∷ pieces) rest =
    read_on-pieces (feed crc (b ∷ bs)) pieces rest
    ∙ ap (λ c. read_on c rest) (sym (feed-append (b ∷ bs) (flatten (map bytes_of pieces)) crc))

-- However a file is cut into reads that are not empty, its checksum is that of its bytes in a row,
-- whether the end is an empty read or the last; and where a read fails, there is no checksum.
pub file_crc32-pieces :
    (pieces : List Piece) (rest : List (Option (List ℕ)))
    → (file_crc32 (map as_read pieces) ≡ some (crc32 (flatten (map bytes_of pieces))))
      × (file_crc32 (map as_read pieces ++ some [] ∷ rest)
          ≡ some (crc32 (flatten (map bytes_of pieces))))
      × (file_crc32 (map as_read pieces ++ none ∷ rest) ≡ none)
unfolding file_crc32 crc32 read_on
file_crc32-pieces pieces rest = (
  ap file_crc32 (sym (append-nil (map as_read pieces))) ∙ read_on-pieces 0xFFFFFFFF pieces [],
  read_on-pieces 0xFFFFFFFF pieces (some [] ∷ rest),
  read_on-pieces 0xFFFFFFFF pieces (none ∷ rest),
)
