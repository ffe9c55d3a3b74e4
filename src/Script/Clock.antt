-- ===== src/Script/Clock.antt =====
-- The calendar of `advance_hour`, in crates/ashfall-server/src/script/state.rs.
use ashfall.Prelude.{ℕ, ◌+◌, ◌*◌, ◌-◌, ◌≤◌, ◌<◌, ◌≡◌, arith}
use ashfall.Script.{GameTime, advance_hour}

-- A date of the calendar, in a year that can be followed by another.
abbrev pub IsDate : GameTime → Type 0
IsDate t =
    ((1 ≤ t.month) × (t.month ≤ 12))
    × (((1 ≤ t.day) × (t.day ≤ 30)) × ((t.hour < 24) × (t.year < 4294967295)))

-- The hours since the beginning of the year 0.
abbrev pub hours_of : GameTime → ℕ
hours_of t = ((t.year * 12 + (t.month - 1)) * 30 + (t.day - 1)) * 24 + t.hour

-- The clock moves by exactly one hour, over the ends of days, months and years too, and what it then
-- shows is a date again, except that the last year that 32 bits hold has come when the year was the one
-- before it.
pub advance_hour-hours_of :
    (t : GameTime)
    → IsDate t
    → (hours_of (advance_hour t) ≡ hours_of t + 1)
      × (((1 ≤ (advance_hour t).month) × ((advance_hour t).month ≤ 12))
          × (((1 ≤ (advance_hour t).day) × ((advance_hour t).day ≤ 30))
              × ((advance_hour t).hour < 24)))
unfolding advance_hour
advance_hour-hours_of t h = ground arith
