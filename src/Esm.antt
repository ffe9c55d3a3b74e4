-- ===== src/Esm.antt =====
-- crates/ashfall-server/src/db/esm_import.rs: reading a plugin file. The reader's bytes and its position
-- are arguments; what a read takes is returned with the position behind it.
pub mod Rows
pub mod Import
pub mod Plugin
use ashfall.Prelude.{
  ℕ, zero, suc, ◌+◌, ◌*◌, ◌-◌, Bool, true, false, Option, none, some, List, [], ◌∷◌, ltb, ◌==◌,
  nat_eq, bytes_eq, if◌then◌else◌, length, take, drop, from_le_bytes, from_le_bytes4,
}
use ashfall.Reliable.{Bytes}
use ashfall.StringCache.{Text}

-- `f32::from_le_bytes`, the number 0.0, `String::from_utf8_lossy` and the zlib decoder.
pub record Formats (F : Type 0) : Type 0 where
  pub f32_of : ℕ → ℕ → ℕ → ℕ → F
  pub zero_f32 : F
  pub from_utf8_lossy : Bytes → Text
  pub inflate : Bytes → Option Bytes

unfoldable pub read : Bytes → ℕ → ℕ → Option (Bytes × ℕ)
read bytes at n =
    if ltb (length bytes) (at + n) then none else some (take n (drop at bytes), at + n)

-- Where the reader stands after a read whose result is not looked at.
unfoldable pub skip_to : ℕ → Option (Bytes × ℕ) → ℕ
skip_to at none = at
skip_to at (some (bytes, next)) = next

unfoldable pub skip : Bytes → ℕ → ℕ → ℕ
unfolding skip_to
skip bytes at n = skip_to at (read bytes at n)

-- `get(pos..pos + 4)`
unfoldable pub peek_4cc : Bytes → ℕ → Option Bytes
peek_4cc bytes at = if ltb (length bytes) (at + 4) then none else some (take 4 (drop at bytes))

unfoldable pub word_of : Option (Bytes × ℕ) → Option (ℕ × ℕ)
word_of (some (a ∷ b ∷ c ∷ d ∷ rest, next)) = some (from_le_bytes4 a b c d, next)
word_of _ = none

unfoldable pub read_u32 : Bytes → ℕ → Option (ℕ × ℕ)
unfolding word_of
read_u32 bytes at = word_of (read bytes at 4)

unfoldable pub or_zero_word : ℕ → Option (ℕ × ℕ) → ℕ × ℕ
or_zero_word at none = (0, at)
or_zero_word at (some r) = r

-- `read_u32().unwrap_or(0)`
unfoldable pub read_u32_or : Bytes → ℕ → ℕ × ℕ
unfolding or_zero_word
read_u32_or bytes at = or_zero_word at (read_u32 bytes at)

pub record Subrecord : Type 0 where
  pub ty : Bytes
  pub bytes : Bytes

-- The loop of `parse_subrecords`, at what is left of the body.
unfoldable pub subrecords_from : ℕ → Bytes → List Subrecord
subrecords_from zero body = []
subrecords_from (suc fuel) (a ∷ b ∷ c ∷ d ∷ lo ∷ hi ∷ rest) =
    let size = from_le_bytes lo hi in
    let later = subrecords_from fuel (drop size rest) in
    if ltb (length rest) size
    then []
    else record { ty = a ∷ b ∷ c ∷ d ∷ []; bytes = take size rest } ∷ later
subrecords_from (suc fuel) _ = []

-- A subrecord takes bytes, so that the body's length is fuel enough.
unfoldable pub parse_subrecords : Bytes → List Subrecord
unfolding subrecords_from
parse_subrecords body = subrecords_from (length body) body

unfoldable pub sub : List Subrecord → Bytes → Option Bytes
sub [] ty = none
sub (s ∷ subs) ty = if s.ty == ty then some s.bytes else sub subs ty

until_nul : Bytes → Bytes
until_nul [] = []
until_nul (b ∷ bytes) = if b == 0 then [] else b ∷ until_nul bytes

full : Bytes
full = b'F' ∷ b'U' ∷ b'L' ∷ b'L' ∷ []

desc_ty : Bytes
desc_ty = b'D' ∷ b'E' ∷ b'S' ∷ b'C' ∷ []

module _ {F : Type 0} (m : Formats F) where
  text_of : Option Bytes → Text
  unfolding until_nul
  text_of none = []
  text_of (some bytes) = m.from_utf8_lossy (until_nul bytes)

  unfoldable pub full_name : List Subrecord → Text
  unfolding text_of full sub
  full_name subs = text_of (sub subs full)

  unfoldable pub desc : List Subrecord → Text
  unfolding text_of desc_ty sub
  desc subs = text_of (sub subs desc_ty)

  f32_from : Bytes → F
  f32_from (a ∷ b ∷ c ∷ d ∷ rest) = m.f32_of a b c d
  f32_from _ = m.zero_f32

  f32_in : ℕ → Option Bytes → F
  unfolding f32_from
  f32_in offset none = m.zero_f32
  f32_in offset (some bytes) = f32_from (drop offset bytes)

  unfoldable pub sub_f32_at : List Subrecord → Bytes → ℕ → F
  unfolding f32_in sub
  sub_f32_at subs ty offset = f32_in offset (sub subs ty)

u32_from : Bytes → ℕ
u32_from (a ∷ b ∷ c ∷ d ∷ rest) = from_le_bytes4 a b c d
u32_from _ = 0

u32_in : ℕ → Option Bytes → ℕ
unfolding u32_from
u32_in offset none = 0
u32_in offset (some bytes) = u32_from (drop offset bytes)

unfoldable pub sub_u32_at : List Subrecord → Bytes → ℕ → ℕ
unfolding u32_in sub
sub_u32_at subs ty offset = u32_in offset (sub subs ty)

u16_from : Bytes → ℕ
u16_from (a ∷ b ∷ rest) = from_le_bytes a b
u16_from _ = 0

u16_in : ℕ → Option Bytes → ℕ
unfolding u16_from
u16_in offset none = 0
u16_in offset (some bytes) = u16_from (drop offset bytes)

unfoldable pub sub_u16_at : List Subrecord → Bytes → ℕ → ℕ
unfolding u16_in sub
sub_u16_at subs ty offset = u16_in offset (sub subs ty)
