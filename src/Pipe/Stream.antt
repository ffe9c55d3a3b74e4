-- ===== src/Pipe/Stream.antt =====
-- How crates/ashfall-core/src/event.rs cuts a stream that arrives in pieces.
use ashfall.Prelude.{
  ℕ, zero, suc, ◌+◌, ◌%◌, ◌/◌, ◌≤◌, ◌<◌, ◌≡◌, refl, ap, inl, inr, false, Bool-cases, [], ◌∷◌, ◌++◌,
  arith, ltb, if◌then◌else◌, length, take, drop, length-append, take-length-append,
  drop-length-append, from_le_bytes, u16,
}
use ashfall.Reliable.{Bytes}
use ashfall.Pipe.{encode_frame, split_from, split_frames}

length-drop-le : (n : ℕ) (xs : Bytes) → length (drop n xs) ≤ length xs
length-drop-le zero xs = omega arith
length-drop-le (suc n) [] = omega arith
length-drop-le (suc n) (x ∷ xs) = omega (arith, length-drop-le n xs)

take-append : (n : ℕ) (xs ys : Bytes) → n ≤ length xs → take n (xs ++ ys) ≡ take n xs
take-append zero xs ys h = refl
take-append (suc n) [] ys h = absurd (omega arith)
take-append (suc n) (x ∷ xs) ys h = ap (◌∷◌ x) (take-append n xs ys (omega arith))

drop-append : (n : ℕ) (xs ys : Bytes) → n ≤ length xs → drop n (xs ++ ys) ≡ drop n xs ++ ys
drop-append zero xs ys h = refl
drop-append (suc n) [] ys h = absurd (omega arith)
drop-append (suc n) (x ∷ xs) ys h = drop-append n xs ys (omega arith)

-- Fuel of the buffer's length or more makes no difference.
split_from-fuel :
    (m n : ℕ) (buf : Bytes) → length buf ≤ m → length buf ≤ n → split_from m buf ≡ split_from n buf
unfolding split_from
split_from-fuel zero zero buf hm hn = refl
split_from-fuel zero (suc n) [] hm hn = refl
split_from-fuel zero (suc n) (a ∷ buf) hm hn = absurd (omega arith)
split_from-fuel (suc m) zero [] hm hn = refl
split_from-fuel (suc m) zero (a ∷ buf) hm hn = absurd (omega arith)
split_from-fuel (suc m) (suc n) [] hm hn = refl
split_from-fuel (suc m) (suc n) (a ∷ []) hm hn = refl
split_from-fuel (suc m) (suc n) (a ∷ b ∷ []) hm hn = refl
split_from-fuel (suc m) (suc n) (lo ∷ hi ∷ opcode ∷ rest) hm hn =
    let short = length-drop-le (from_le_bytes lo hi) rest in
    rw
      (split_from-fuel m n (drop (from_le_bytes lo hi) rest) (omega (arith, short))
        (omega (arith, short)))
      refl

-- What one turn of the loop does at a header.
one_turn :
    (fuel lo hi opcode : ℕ) (rest : Bytes)
    → split_from (suc fuel) (lo ∷ hi ∷ opcode ∷ rest) ≡ (
        if ltb (length rest) (from_le_bytes lo hi) then ([], lo ∷ hi ∷ opcode ∷ rest) else (
          record { opcode = opcode; payload = take (from_le_bytes lo hi) rest }
              ∷ (split_from fuel (drop (from_le_bytes lo hi) rest)).0,
          (split_from fuel (drop (from_le_bytes lo hi) rest)).1,
        ))
unfolding split_from
one_turn fuel lo hi opcode rest = refl

le_of_ltb : (n len : ℕ) → ltb n len ≡ false → len ≤ n
le_of_ltb n len h = ground arith

longer :
    (xs ys : Bytes) (len : ℕ) → ltb (length xs) len ≡ false → ltb (length (xs ++ ys)) len ≡ false
longer xs ys len h = ground (arith, length-append xs ys)

length_read : (n : ℕ) → n < 65536 → from_le_bytes (u16 n % 256) (u16 n / 256 % 256) ≡ n
length_read n h = omega arith

not_short : (xs ys : Bytes) → ltb (length (xs ++ ys)) (length xs) ≡ false
not_short xs ys = ground (arith, length-append xs ys)

-- Cutting a longer stream: the frames of the first part, then those of its rest with the second part.
split_from-append :
    (m n k : ℕ) (xs ys : Bytes)
    → length xs ≤ m
    → length xs + length ys ≤ n
    → length (split_from m xs).1 + length ys ≤ k
    → split_from n (xs ++ ys) ≡ (
      (split_from m xs).0 ++ (split_from k ((split_from m xs).1 ++ ys)).0,
      (split_from k ((split_from m xs).1 ++ ys)).1,
    )
unfolding split_from
split_from-append zero n k [] ys hm hn hk =
    rw (split_from-fuel n k ys (omega arith) (omega arith)) refl
split_from-append zero n k (a ∷ xs) ys hm hn hk = absurd (omega arith)
split_from-append (suc m) n k [] ys hm hn hk =
    rw (split_from-fuel n k ys (omega arith) (omega arith)) refl
split_from-append (suc m) n k (a ∷ []) ys hm hn hk =
    rw (split_from-fuel n k (a ∷ ys) (omega arith) (omega arith)) refl
split_from-append (suc m) n k (a ∷ b ∷ []) ys hm hn hk =
    rw (split_from-fuel n k (a ∷ b ∷ ys) (omega arith) (omega arith)) refl
split_from-append (suc m) zero k (lo ∷ hi ∷ opcode ∷ rest) ys hm hn hk = absurd (omega arith)
split_from-append (suc m) (suc n) k (lo ∷ hi ∷ opcode ∷ rest) ys hm hn hk =
    elim (Bool-cases (ltb (length rest) (from_le_bytes lo hi))) [
      | inl short ↦
          let k' = rw short at hk in
          let same =
            split_from-fuel (suc n) k (lo ∷ hi ∷ opcode ∷ rest ++ ys)
              (omega (arith, length-append rest ys)) (omega (arith, length-append rest ys)) in
          rw short (rw (same) refl)
      | inr whole ↦
          let fits = le_of_ltb (length rest) (from_le_bytes lo hi) whole in
          let shorter = length-drop-le (from_le_bytes lo hi) rest in
          let k' = rw whole at hk in
          rw
            (
              whole,
              longer rest ys (from_le_bytes lo hi) whole,
              take-append (from_le_bytes lo hi) rest ys fits,
              drop-append (from_le_bytes lo hi) rest ys fits,
              split_from-append m n k (drop (from_le_bytes lo hi) rest) ys (omega arith)
                  (omega arith) k',
            )
            refl
    ]

-- The cuts of a stream that arrives in two parts.
pub split_frames-append :
    (xs ys : Bytes)
    → split_frames (xs ++ ys) ≡ (
      (split_frames xs).0 ++ (split_frames ((split_frames xs).1 ++ ys)).0,
      (split_frames ((split_frames xs).1 ++ ys)).1,
    )
unfolding split_frames
split_frames-append xs ys =
    split_from-append (length xs) (length (xs ++ ys)) (length ((split_from (length xs) xs).1 ++ ys))
      xs ys (omega arith) (omega (arith, length-append xs ys))
      (omega (arith, length-append (split_from (length xs) xs).1 ys))

-- A frame whose length fits its field is cut off the front of any stream.
pub split_frames-encode_frame :
    (opcode : ℕ) (payload ys : Bytes)
    → length payload < 65536
    → split_frames (encode_frame opcode payload ++ ys)
      ≡ (record { opcode = opcode; payload = payload } ∷ (split_frames ys).0, (split_frames ys).1)
unfolding split_frames encode_frame
split_frames-encode_frame opcode payload ys short =
    rw
      (
        one_turn (suc (suc (length (payload ++ ys)))) (u16 (length payload) % 256)
            (u16 (length payload) / 256 % 256) opcode (payload ++ ys),
        length_read (length payload) short,
        not_short payload ys,
        take-length-append payload ys,
        drop-length-append payload ys,
        split_from-fuel (suc (suc (length (payload ++ ys)))) (length ys) ys
            (omega (arith, length-append payload ys)) (omega arith),
      )
      refl
