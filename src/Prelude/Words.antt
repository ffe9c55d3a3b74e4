-- ===== src/Prelude/Words.antt =====
-- Bytes and 16-bit words: the casts, the little-endian form, and the masks of the wire format.
use Prim.Native.Nat.{ℕ, zero, suc, ◌+◌, ◌-◌, ◌*◌, ◌/◌, ◌%◌, ◌<◌, bit_and, bit_or}
use mathlib.Core.Path.{◌≡◌, refl}
use mathlib.Core.Bool.{Bool, true, ◌&&◌}
use mathlib.Core.List.{List, [], ◌∷◌}
use native.Mathlib.Omega.{arith}
use ashfall.Prelude.Tests.{nat_beq, nat_beq_iff}

-- `as u8`, `as u16`, `as u32`
abbrev pub u32 : ℕ → ℕ
u32 x = x % 4294967296

abbrev pub u16 : ℕ → ℕ
u16 x = x % 65536

abbrev pub u8 : ℕ → ℕ
u8 x = x % 256

-- `u16::wrapping_add` and `u16::wrapping_sub`, of two 16-bit values
abbrev pub wrapping_add : ℕ → ℕ → ℕ
wrapping_add a b = (a + b) % 65536

abbrev pub wrapping_sub : ℕ → ℕ → ℕ
wrapping_sub a b = (a + 65536 - b) % 65536

-- `u16::to_le_bytes` and `u16::from_le_bytes`
abbrev pub to_le_bytes : ℕ → List ℕ
to_le_bytes n = n % 256 ∷ n / 256 % 256 ∷ []

abbrev pub from_le_bytes : ℕ → ℕ → ℕ
from_le_bytes lo hi = lo + 256 * hi

-- `u32::to_le_bytes` and `u32::from_le_bytes`
abbrev pub to_le_bytes4 : ℕ → List ℕ
to_le_bytes4 n = n % 256 ∷ n / 256 % 256 ∷ n / 65536 % 256 ∷ n / 16777216 % 256 ∷ []

abbrev pub from_le_bytes4 : ℕ → ℕ → ℕ → ℕ → ℕ
from_le_bytes4 a b c d = a + 256 * b + 65536 * c + 16777216 * d

-- Over the bytes, check every value by evaluation.
holds_below : (ℕ → Bool) → ℕ → Bool
holds_below test zero = true
holds_below test (suc n) = let rest = holds_below test n in rest && test n

holds_below-test : (test : ℕ → Bool) (n x : ℕ) → x < n → holds_below test n ≡ true → test x ≡ true
unfolding holds_below
holds_below-test test zero x below h = absurd (omega arith)
holds_below-test test (suc n) x below h = ground (arith, holds_below-test test n x)

or_high_table : holds_below (λ x. nat_beq (bit_or 0x80 x) (128 + x)) 128 ≡ true
unfolding holds_below
or_high_table = refl

-- Setting the top bit of a 7-bit value adds 128.
pub bit_or_high : (x : ℕ) → x < 128 → bit_or 0x80 x ≡ 128 + x
bit_or_high x h = (nat_beq_iff _ _).0 (holds_below-test _ 128 x h or_high_table)

and_low_table : holds_below (λ x. nat_beq (bit_and x 0x7F) (x % 128)) 256 ≡ true
unfolding holds_below
and_low_table = refl

pub bit_and_low : (x : ℕ) → x < 256 → bit_and x 0x7F ≡ x % 128
bit_and_low x h = (nat_beq_iff _ _).0 (holds_below-test _ 256 x h and_low_table)

and_high_table : holds_below (λ x. nat_beq (bit_and x 0x80) (x / 128 * 128)) 256 ≡ true
unfolding holds_below
and_high_table = refl

pub bit_and_high : (x : ℕ) → x < 256 → bit_and x 0x80 ≡ x / 128 * 128
bit_and_high x h = (nat_beq_iff _ _).0 (holds_below-test _ 256 x h and_high_table)
