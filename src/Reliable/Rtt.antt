-- ===== src/Reliable/Rtt.antt =====
-- The Jacobson/Karels estimate of the round-trip time, and of the timeout that follows from it.
use ashfall.Prelude.{
  ℕ, ◌+◌, ◌-◌, ◌*◌, ◌/◌, ◌≤◌, ◌<◌, ◌≡◌, refl, ap, ◌∙◌, arith, min, max, leb, if◌then◌else◌,
}
use ashfall.Prelude.Int.{pos, sub_ℕ, ◌+ℤ◌, ◌-ℤ◌, div_toward_zero, abs, pos_part, neg_part}
use ashfall.Reliable.{ReliableChannel, from_millis, as_millis, rto_min, rto_max}

-- The estimate is kept in milliseconds, and the arithmetic is that of `i64`.
unfoldable pub update_rtt : ReliableChannel → ℕ → ReliableChannel
unfolding ◌+ℤ◌ ◌-ℤ◌ div_toward_zero
update_rtt ch sample =
    let sample_ms = pos (as_millis sample) in
    let srtt_ms = pos (as_millis ch.srtt) in
    let rttvar_ms = pos (as_millis ch.rttvar) in
    let new_srtt = srtt_ms +ℤ div_toward_zero (sample_ms -ℤ srtt_ms) 8 in
    let diff = pos (abs (sample_ms -ℤ srtt_ms)) in
    let new_rttvar = rttvar_ms +ℤ div_toward_zero (diff -ℤ rttvar_ms) 4 in
    let four = sub_ℕ (4 * pos_part new_rttvar) (4 * neg_part new_rttvar) in
    let rto_ms = new_srtt +ℤ four in
    record ch {
      srtt = from_millis (pos_part new_srtt);
      rttvar = from_millis (pos_part new_rttvar);
      rto = max rto_min (min rto_max (from_millis (pos_part rto_ms)));
    }

-- From `s` an `n`th of the way to `x`, without the fraction of the distance.
abbrev pub toward : (s x n : ℕ) → ℕ
toward s x n = if leb s x then s + (x - s) / n else s - (s - x) / n

-- How far two numbers are apart.
abbrev pub apart : ℕ → ℕ → ℕ
apart s x = if leb s x then x - s else s - x

step_toward : (s x n : ℕ) → 0 < n → pos s +ℤ div_toward_zero (pos x -ℤ pos s) n ≡ pos (toward s x n)
unfolding ◌+ℤ◌ ◌-ℤ◌ div_toward_zero
step_toward s x n h = ground arith

abs-apart : (s x : ℕ) → abs (pos x -ℤ pos s) ≡ apart s x
unfolding ◌-ℤ◌
abs-apart s x = ground arith

timeout_lem :
    (s v : ℕ) → pos_part (pos s +ℤ sub_ℕ (4 * pos_part (pos v)) (4 * neg_part (pos v))) ≡ s + 4 * v
unfolding ◌+ℤ◌
timeout_lem s v = ground arith

-- All in milliseconds: the smoothed time moves an eighth of the way to the sample, the variation a
-- quarter of the way to the distance between the two, and the timeout is the new smoothed time and four
-- times the new variation, within its limits.
pub update_rtt_bounds :
    (ch : ReliableChannel) (sample : ℕ)
    → ((update_rtt ch sample).srtt ≡ from_millis (toward (as_millis ch.srtt) (as_millis sample) 8))
      × ((update_rtt ch sample).rttvar
          ≡ from_millis
              (toward (as_millis ch.rttvar) (apart (as_millis ch.srtt) (as_millis sample)) 4))
      × ((update_rtt ch sample).rto
          ≡ max rto_min
              (min rto_max ((update_rtt ch sample).srtt + 4 * (update_rtt ch sample).rttvar)))
      × (rto_min ≤ (update_rtt ch sample).rto)
      × ((update_rtt ch sample).rto ≤ rto_max)
unfolding update_rtt
update_rtt_bounds ch sample =
    rw
      (
        step_toward (as_millis ch.srtt) (as_millis sample) 8 (omega arith),
        abs-apart (as_millis ch.srtt) (as_millis sample),
        step_toward (as_millis ch.rttvar) (apart (as_millis ch.srtt) (as_millis sample)) 4
            (omega arith),
      )
      (
        refl,
        refl,
        ap (λ t. max rto_min (min rto_max (from_millis t))) (timeout_lem _ _)
            ∙ ap (λ t. max rto_min (min rto_max t)) (omega arith),
        omega arith,
        omega arith,
      )
