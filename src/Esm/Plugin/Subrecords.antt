-- ===== src/Esm/Plugin/Subrecords.antt =====
-- crates/ashfall-server/src/db/esm_import.rs, `parse_subrecords`, on a body that was laid out.
use ashfall.Prelude.{
  ℕ, zero, suc, ◌/◌, ◌%◌, ◌≤◌, ◌<◌, ◌≡◌, refl, ap, false, List, [], ◌∷◌, ◌++◌, arith, ltb, length,
  length-append, take-length-append, drop-length-append, from_le_bytes, to_le_bytes, All,
}
use ashfall.Reliable.{Bytes}
use ashfall.Esm.{Subrecord, subrecords_from, parse_subrecords}
use ashfall.Esm.Plugin.{encode_subrecords, IsSubrecord}

length_read : (n : ℕ) → n < 65536 → from_le_bytes (n % 256) (n / 256 % 256) ≡ n
length_read n h = omega arith

fits : (xs ys : Bytes) → ltb (length (xs ++ ys)) (length xs) ≡ false
fits xs ys = ground (arith, length-append xs ys)

-- One turn of the loop, on a type of four bytes.
one_turn :
    (fuel : ℕ) (ty bytes rest : Bytes)
    → length ty ≡ 4
    → length bytes < 65536
    → subrecords_from (suc fuel) (ty ++ (to_le_bytes (length bytes) ++ (bytes ++ rest)))
      ≡ record { ty = ty; bytes = bytes } ∷ subrecords_from fuel rest
unfolding subrecords_from
one_turn fuel [] bytes rest four short = absurd (omega arith)
one_turn fuel (a ∷ []) bytes rest four short = absurd (omega arith)
one_turn fuel (a ∷ b ∷ []) bytes rest four short = absurd (omega arith)
one_turn fuel (a ∷ b ∷ c ∷ []) bytes rest four short = absurd (omega arith)
one_turn fuel (a ∷ b ∷ c ∷ d ∷ []) bytes rest four short =
    rw
      (
        length_read (length bytes) short,
        fits bytes rest,
        take-length-append bytes rest,
        drop-length-append bytes rest,
      )
      refl
one_turn fuel (a ∷ b ∷ c ∷ d ∷ e ∷ ty) bytes rest four short = absurd (omega arith)

subrecords_from-encode :
    (fuel : ℕ) (subs : List Subrecord)
    → All IsSubrecord subs
    → length (encode_subrecords subs) ≤ fuel
    → subrecords_from fuel (encode_subrecords subs) ≡ subs
unfolding encode_subrecords
subrecords_from-encode zero [] h enough = unfold subrecords_from in refl
subrecords_from-encode (suc fuel) [] h enough = unfold subrecords_from in refl
subrecords_from-encode zero (s ∷ subs) h enough = absurd (
    omega (
      arith,
      length-append s.ty (to_le_bytes (length s.bytes) ++ (s.bytes ++ encode_subrecords subs)),
      h.0.0,
    ))
subrecords_from-encode (suc fuel) (s ∷ subs) h enough =
    rw (one_turn fuel s.ty s.bytes (encode_subrecords subs) h.0.0 h.0.1) (
      ap (◌∷◌ s) (
        subrecords_from-encode fuel subs h.1 (
          omega (
            arith,
            length-append s.ty
                (to_le_bytes (length s.bytes) ++ (s.bytes ++ encode_subrecords subs)),
            length-append s.bytes (encode_subrecords subs),
            h.0.0,
          ))))

pub parse_subrecords-encode :
    (subs : List Subrecord)
    → All IsSubrecord subs
    → parse_subrecords (encode_subrecords subs) ≡ subs
unfolding parse_subrecords
parse_subrecords-encode subs h =
    subrecords_from-encode (length (encode_subrecords subs)) subs h (omega arith)
