-- ===== src/Network/Rate.antt =====
-- `RateLimiter` of crates/ashfall-server/src/network.rs: how many datagrams an address may send. `D` is
-- the type of `f64`.
use ashfall.Prelude.{ℕ, ◌-◌, Bool, true, false, Option, none, some, if◌then◌else◌, nat_eq}
use ashfall.Map
use ashfall.Map.{Map}
use ashfall.Float.{Float}

pub record RateLimiter (D : Type 0) : Type 0 where
  pub tokens : D
  pub last_refill : ℕ
  pub max_tokens : D
  pub rate : D

module _ {D : Type 0} (g : Float D) where
  unfoldable pub new_limiter : (rate burst : D) → (now : ℕ) → RateLimiter D
  new_limiter rate burst now = record {
    tokens = burst;
    last_refill = now;
    max_tokens = burst;
    rate = rate;
  }

  unfoldable pub refill : RateLimiter D → (now : ℕ) → D
  refill l now =
      g.min (g.add l.tokens (g.mul (g.as_secs (now - l.last_refill)) l.rate)) l.max_tokens

  unfoldable pub take_token : RateLimiter D → (now : ℕ) → Bool × RateLimiter D
  unfolding refill
  take_token l now =
      let tokens = refill l now in
      if g.le g.one tokens
      then (true, record l { tokens = g.sub tokens g.one; last_refill = now })
      else (false, record l { tokens = tokens; last_refill = now })

  abbrev or_new : (now : ℕ) → Option (RateLimiter D) → RateLimiter D
  or_new now none = record {
    tokens = g.literal 100 1;
    last_refill = now;
    max_tokens = g.literal 100 1;
    rate = g.literal 200 1;
  }
  or_new now (some l) = l

  -- `check_rate` of the manager: 200 in a second, and a burst of 100.
  unfoldable pub check_rate : Map ℕ (RateLimiter D) → ℕ → (now : ℕ) → Bool × Map ℕ (RateLimiter D)
  unfolding take_token
  check_rate limiters addr now =
      let (passes, l) = take_token (or_new now (Map.lookup limiters addr)) now in
      (passes, Map.insert limiters addr l)
