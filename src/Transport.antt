-- ===== src/Transport.antt =====
-- crates/ashfall-core/src/protocol/transport.rs: sequence numbers and control frames on the wire.
-- A byte is a number below 256 and a sequence number is a number below 65536.
pub mod RoundTrip
use ashfall.Prelude.{
  ℕ, zero, suc, ◌+◌, ◌-◌, ◌<◌, Bool, Option, none, some, List, [], ◌∷◌, ◌++◌, bit_and, bit_or, min,
  ltb, ◌==◌, nat_eq, if◌then◌else◌, length, take, drop, u8, u16, to_le_bytes, from_le_bytes,
}

abbrev pub channel_reliable_flag : ℕ
channel_reliable_flag = 0x80

abbrev pub channel_ctrl : ℕ
channel_ctrl = 0xFF

abbrev pub ctrl_ack : ℕ
ctrl_ack = 0x01

abbrev pub ctrl_nack : ℕ
ctrl_nack = 0x02

pub data CtrlFrame : Type 0 where
  ack : ℕ → CtrlFrame
  nack : List ℕ → CtrlFrame

unfoldable pub encode_varint_seq : ℕ → List ℕ
encode_varint_seq seq = if ltb seq 128 then bit_or 0x80 (u8 seq) ∷ [] else 0x00 ∷ to_le_bytes seq

-- The slice `[0x00, data[1], data[2], ..]` of at least three bytes.
decode_long : List ℕ → Option (ℕ × ℕ)
decode_long (lo ∷ hi ∷ rest) = some (from_le_bytes lo hi, 3)
decode_long _ = none

unfoldable pub decode_varint_seq : List ℕ → Option (ℕ × ℕ)
unfolding decode_long
decode_varint_seq [] = none
decode_varint_seq (b ∷ rest) =
    if b == 0x00
    then decode_long rest
    else if bit_and b 0x80 == 0
    then none
    else some (bit_and b 0x7F, 1)

unfoldable pub encode_ctrl_ack : ℕ → List ℕ
encode_ctrl_ack ack_seq =
    let seq = encode_varint_seq ack_seq in
    to_le_bytes (u16 (1 + length seq)) ++ channel_ctrl ∷ ctrl_ack ∷ seq

-- The loop over `missing.iter().take(255)`.
encode_seqs : List ℕ → List ℕ
encode_seqs [] = []
encode_seqs (seq ∷ rest) = encode_varint_seq seq ++ encode_seqs rest

-- The length in the first two bytes is written last, from the length of the whole frame.
unfoldable pub encode_ctrl_nack : List ℕ → List ℕ
unfolding encode_seqs
encode_ctrl_nack missing =
    let tail =
      channel_ctrl ∷ ctrl_nack ∷ u8 (min (length missing) 255) ∷ encode_seqs (take 255 missing) in
    to_le_bytes (u16 (2 + length tail - 3)) ++ tail

-- One pass of the loop for each of `count` numbers, over the bytes that are left.
decode_seqs : ℕ → List ℕ → Option (List ℕ)
decode_seqs zero rest = some []
decode_seqs (suc count) rest = elim (decode_varint_seq rest) [
  | none ↦ none
  | some (seq, consumed) ↦ elim (decode_seqs count (drop consumed rest)) [
    | none ↦ none
    | some seqs ↦ some (seq ∷ seqs)
  ]
]

decode_ack : List ℕ → Option CtrlFrame
decode_ack rest = elim (decode_varint_seq rest) [ none ↦ none | some (seq, _) ↦ some (ack seq) ]

decode_nack : List ℕ → Option CtrlFrame
unfolding decode_seqs
decode_nack [] = none
decode_nack (count ∷ rest) = elim (decode_seqs count rest) [
  | none ↦ none
  | some seqs ↦ some (nack seqs)
]

unfoldable pub decode_ctrl_frame : List ℕ → Option CtrlFrame
unfolding decode_ack decode_nack
decode_ctrl_frame [] = none
decode_ctrl_frame (kind ∷ rest) =
    if kind == ctrl_ack
    then decode_ack rest
    else if kind == ctrl_nack
    then decode_nack rest
    else none
