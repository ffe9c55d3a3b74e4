-- ===== src/Esm/Plugin/Reads.antt =====
-- The reads of crates/ashfall-server/src/db/esm_import.rs at a place where the bytes are known.
use ashfall.Prelude.{
  ℕ, zero, suc, ◌+◌, ◌/◌, ◌%◌, ◌<◌, ◌≡◌, refl, ◌∙◌, false, some, [], ◌∷◌, ◌++◌, arith, ltb, length,
  drop, length-append, take-length-append, drop-length-append, from_le_bytes4, to_le_bytes4,
}
use ashfall.Reliable.{Bytes}
use ashfall.Esm.{read, skip, peek_4cc, read_u32, read_u32_or, word_of, skip_to, or_zero_word}

-- `rest` is what lies behind position `at`.
pub record At (bytes : Bytes) (at : ℕ) (rest : Bytes) : Type 0 where
  pub behind : drop at bytes ≡ rest
  pub size : length bytes ≡ at + length rest

suc_add : (a n : ℕ) → suc a + n ≡ suc (a + n)
suc_add a n = omega arith

zero_add : (n : ℕ) → 0 + n ≡ n
zero_add n = omega arith

drop-add : (a n : ℕ) (xs : Bytes) → drop (a + n) xs ≡ drop n (drop a xs)
drop-add zero n xs = rw (zero_add n) refl
drop-add (suc a) zero [] = rw (suc_add a 0) refl
drop-add (suc a) (suc n) [] = rw (suc_add a (suc n)) refl
drop-add (suc a) n (x ∷ xs) = rw (suc_add a n) (drop-add a n xs)

within :
    (bytes : Bytes) (at : ℕ) (xs rest : Bytes)
    → At bytes at (xs ++ rest)
    → ltb (length bytes) (at + length xs) ≡ false
within bytes at xs rest here = ground (arith, here.size, length-append xs rest)

module _ {bytes : Bytes} {at : ℕ} (xs rest : Bytes) (here : At bytes at (xs ++ rest)) where
  pub At-next : (next : ℕ) → next ≡ at + length xs → At bytes next rest
  At-next next e = rw e (record {
    behind = drop-add at (length xs) bytes ∙ rw here.behind (drop-length-append xs rest);
    size = omega (arith, here.size, length-append xs rest);
  })

  pub read_at : (n next : ℕ) → n ≡ length xs → next ≡ at + n → read bytes at n ≡ some (xs, next)
  unfolding read
  read_at n next en e =
      rw (e, en) (rw (within bytes at xs rest here, here.behind, take-length-append xs rest) refl)

word_lem :
    (n : ℕ)
    → n < 4294967296
    → from_le_bytes4 (n % 256) (n / 256 % 256) (n / 65536 % 256) (n / 16777216 % 256) ≡ n
word_lem n h = omega arith

-- A word that is there.
module _ {bytes : Bytes} {at : ℕ} (n : ℕ) (rest : Bytes) (small : n < 4294967296)
    (here : At bytes at (to_le_bytes4 n ++ rest)) where
  pub read_u32_at : (next : ℕ) → next ≡ at + 4 → read_u32 bytes at ≡ some (n, next)
  unfolding read_u32 word_of
  read_u32_at next e =
      rw (read_at (to_le_bytes4 n) rest here 4 next refl e) (rw (word_lem n small) refl)

  pub read_u32_or_at : (next : ℕ) → next ≡ at + 4 → read_u32_or bytes at ≡ (n, next)
  unfolding read_u32_or or_zero_word
  read_u32_or_at next e = rw (read_u32_at next e) refl

module _ {bytes : Bytes} {at : ℕ} (xs rest : Bytes) (here : At bytes at (xs ++ rest)) where
  pub skip_at : (n next : ℕ) → n ≡ length xs → next ≡ at + n → skip bytes at n ≡ next
  unfolding skip skip_to
  skip_at n next en e = rw (read_at xs rest here n next en e) refl

  pub peek_at : length xs ≡ 4 → peek_4cc bytes at ≡ some xs
  unfolding peek_4cc
  peek_at four =
      rw (← four, within bytes at xs rest here, here.behind, take-length-append xs rest) refl
