-- ===== src/AntiCheat/Replay.antt =====
-- The anti-replay check of crates/ashfall-server/src/anti_cheat.rs, on the circle of 16-bit numbers.
use ashfall.Prelude.{ℕ, ◌<◌, ◌≡◌, ◌↔◌, true, some, arith, wrapping_add}
use ashfall.AntiCheat.{validate_sequence, update_sequence}

-- After a number was recorded, of the numbers `n` places after it on the circle exactly those with
-- 0 < n < 32768 are accepted.
pub validate_sequence_iff :
    (last n : ℕ)
    → last < 65536
    → n < 65536
    → (validate_sequence (wrapping_add last n) (update_sequence (some 0) last) ≡ true)
      ↔ ((0 < n) × (n < 32768))
unfolding validate_sequence
validate_sequence_iff last n hl hn = ground arith
