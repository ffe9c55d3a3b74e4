-- ===== src/Crc32.antt =====
-- crates/ashfall-core/src/crc32.rs: the checksum of a plugin file, of its bytes at once and of a file
-- that is read in pieces. What a read returns is an argument: an error, or bytes.
pub mod Stream
use ashfall.Prelude.{
  ℕ, zero, suc, ◌-◌, ◌/◌, ◌%◌, Option, none, some, List, [], ◌∷◌, bit_and, bit_xor,
}

abbrev polynomial : ℕ
polynomial = 0xEDB88320

-- One bit is shifted out: `0u32.wrapping_sub(crc & 1)` is all ones or nothing.
unfoldable pub shift_bit : ℕ → ℕ
shift_bit crc = bit_xor (crc / 2) (bit_and polynomial ((4294967296 - crc % 2) % 4294967296))

unfoldable pub shift_bits : ℕ → ℕ → ℕ
unfolding shift_bit
shift_bits zero crc = crc
shift_bits (suc n) crc = shift_bits n (shift_bit crc)

unfoldable pub feed : ℕ → List ℕ → ℕ
unfolding shift_bits
feed crc [] = crc
feed crc (b ∷ bs) = feed (shift_bits 8 (bit_xor crc b)) bs

-- `!crc`
abbrev pub complement : ℕ → ℕ
complement crc = 0xFFFFFFFF - crc

unfoldable pub crc32 : List ℕ → ℕ
unfolding feed
crc32 bytes = complement (feed 0xFFFFFFFF bytes)

-- The reads of a file in order; none are left, or one is empty, at its end.
unfoldable pub read_on : ℕ → List (Option (List ℕ)) → Option ℕ
unfolding feed
read_on crc [] = some (complement crc)
read_on crc (none ∷ reads) = none
read_on crc (some [] ∷ reads) = some (complement crc)
read_on crc (some (b ∷ bs) ∷ reads) = read_on (feed crc (b ∷ bs)) reads

unfoldable pub file_crc32 : List (Option (List ℕ)) → Option ℕ
unfolding read_on
file_crc32 reads = read_on 0xFFFFFFFF reads
