-- ===== src/Transport/RoundTrip.antt =====
-- What is encoded is decoded again: sequence numbers and control frames.
use ashfall.Prelude.{
  ℕ, zero, suc, ◌+◌, ◌*◌, ◌%◌, ◌≤◌, ◌<◌, ◌≡◌, refl, some, List, [], ◌∷◌, ◌++◌, arith, min,
  append_assoc, append-nil, length, take, drop, drop-length-append, length-append, All,
  from_le_bytes, bit_or_high, bit_and_low, bit_and_high,
}
use ashfall.Transport.{
  ack, nack, encode_varint_seq, decode_varint_seq, encode_ctrl_ack, encode_seqs, encode_ctrl_nack,
  decode_seqs, decode_ctrl_frame,
}

-- A sequence number is read back from the front of any bytes, with the number of bytes it takes.
pub decode_varint_seq-encode :
    (seq : ℕ) (rest : List ℕ)
    → seq < 65536
    → decode_varint_seq (encode_varint_seq seq ++ rest) ≡ some (seq, length (encode_varint_seq seq))
unfolding decode_varint_seq encode_varint_seq
decode_varint_seq-encode seq rest h =
    ground (arith, bit_or_high seq, bit_and_low (128 + seq), bit_and_high (128 + seq))

pub length-encode_varint_seq :
    (seq : ℕ) → (1 ≤ length (encode_varint_seq seq)) × (length (encode_varint_seq seq) ≤ 3)
unfolding encode_varint_seq
length-encode_varint_seq seq = ground arith

-- An acknowledgement frame carries its sequence number.
pub decode_ctrl_frame-encode_ctrl_ack :
    (seq : ℕ) → seq < 65536 → decode_ctrl_frame (drop 3 (encode_ctrl_ack seq)) ≡ some (ack seq)
unfolding decode_ctrl_frame encode_ctrl_ack
decode_ctrl_frame-encode_ctrl_ack seq h =
    ground (arith, decode_varint_seq-encode seq [] h, append-nil (encode_varint_seq seq))

abbrev pub AreSeqs : List ℕ → Type 0
AreSeqs = All (λ seq. seq < 65536)

decode_seqs-encode :
    (seqs : List ℕ) (rest : List ℕ)
    → AreSeqs seqs
    → decode_seqs (length seqs) (encode_seqs seqs ++ rest) ≡ some seqs
unfolding decode_seqs encode_seqs
decode_seqs-encode [] rest h = refl
decode_seqs-encode (seq ∷ seqs) rest h = rw append_assoc (
    rw (decode_varint_seq-encode seq (encode_seqs seqs ++ rest) h.0, decode_seqs)
      (rw drop-length-append (rw (decode_seqs-encode seqs rest h.1, decode_seqs))))

take-AreSeqs : (n : ℕ) (seqs : List ℕ) → AreSeqs seqs → AreSeqs (take n seqs)
take-AreSeqs zero seqs h = tt
take-AreSeqs (suc n) [] h = tt
take-AreSeqs (suc n) (x ∷ xs) h = (h.0, take-AreSeqs n xs h.1)

pub length-take : (n : ℕ) (xs : List ℕ) → length (take n xs) ≡ min (length xs) n
length-take zero xs = omega arith
length-take (suc n) [] = omega arith
length-take (suc n) (x ∷ xs) = omega (arith, length-take n xs)

length-encode_seqs-le : (seqs : List ℕ) → length (encode_seqs seqs) ≤ 3 * length seqs
unfolding encode_seqs
length-encode_seqs-le [] = omega arith
length-encode_seqs-le (seq ∷ seqs) = omega (
  arith,
  length-append (encode_varint_seq seq) (encode_seqs seqs),
  length-encode_varint_seq seq,
  length-encode_seqs-le seqs,
)

decode_seqs-encode_taken :
    (missing : List ℕ)
    → AreSeqs missing
    → decode_seqs (min (length missing) 255 % 256) (encode_seqs (take 255 missing))
      ≡ some (take 255 missing)
decode_seqs-encode_taken missing h =
    let seqs = take 255 missing in
    let count : min (length missing) 255 % 256 ≡ length seqs =
      omega (arith, length-take 255 missing) in
    let all = decode_seqs-encode seqs [] (take-AreSeqs 255 missing h) in
    rw count (rw append-nil at all)

-- A negative acknowledgement carries its first 255 sequence numbers, in order.
pub decode_ctrl_frame-encode_ctrl_nack :
    (missing : List ℕ)
    → AreSeqs missing
    → decode_ctrl_frame (drop 3 (encode_ctrl_nack missing)) ≡ some (nack (take 255 missing))
unfolding decode_ctrl_frame encode_ctrl_nack
decode_ctrl_frame-encode_ctrl_nack missing h = cc (decode_seqs-encode_taken missing h)

-- The two bytes of a frame's length count the bytes after the channel byte.
abbrev HasLength : List ℕ → Type 0
HasLength (lo ∷ hi ∷ channel ∷ payload) = from_le_bytes lo hi ≡ length payload
HasLength _ = ⊥

-- The length field of a control frame, whatever it carries, counts the bytes after the channel byte.
ctrl_frames-HasLength :
    (seq : ℕ) (missing : List ℕ)
    → HasLength (encode_ctrl_ack seq) × HasLength (encode_ctrl_nack missing)
unfolding encode_ctrl_ack encode_ctrl_nack
ctrl_frames-HasLength seq missing = (
  omega (arith, length-encode_varint_seq seq),
  omega (arith, length-encode_seqs-le (take 255 missing), length-take 255 missing),
)
