-- ===== src/World/PositionHistory.antt =====
-- crates/ashfall-server/src/world/position_history.rs: where an entity was, for combat that rewinds to
-- what the attacker saw. Times are nanoseconds.
pub mod Window
use ashfall.Prelude.{
  ℕ, ◌-◌, Option, none, some, List, [], ◌∷◌, ◌++◌, ltb, leb, nat_eq, if◌then◌else◌,
}
use ashfall.Map
use ashfall.Map.{Map}
use ashfall.Packet.{Vec3}

abbrev pub history_window : ℕ
history_window = 2000000000

abbrev pub lag_comp_rewind : ℕ
lag_comp_rewind = 100000000

abbrev pub Entries : Type 0 → Type 0
Entries F = List (ℕ × Vec3 F)

pub record PositionHistory (F : Type 0) : Type 0 where
  pub by_id : Map ℕ (Entries F)

module _ {F : Type 0} where
  abbrev pub or_default : Option (Entries F) → Entries F
  or_default none = []
  or_default (some q) = q

  abbrev pub or_else : Option (Vec3 F) → Option (Vec3 F) → Option (Vec3 F)
  or_else none fallback = fallback
  or_else (some p) fallback = some p

  -- The entries at the front that are older than the window are dropped.
  unfoldable pub prune : ℕ → Entries F → Entries F
  prune now [] = []
  prune now ((t, p) ∷ q) =
      let rest = prune now q in if ltb history_window (now - t) then rest else (t, p) ∷ q

  unfoldable pub record_pos : PositionHistory F → ℕ → Vec3 F → ℕ → PositionHistory F
  unfolding prune
  record_pos h id pos now = record {
    by_id =
        Map.insert h.by_id id (prune now (or_default (Map.lookup h.by_id id) ++ (now, pos) ∷ []));
  }

  -- The last of the entries at or before a time, up to the first later one.
  unfoldable pub scan : ℕ → Option (Vec3 F) → Entries F → Option (Vec3 F)
  scan before best [] = best
  scan before best ((t, p) ∷ q) =
      let rest = scan before (some p) q in if leb t before then rest else best

  unfoldable pub newest : Entries F → Option (Vec3 F)
  newest [] = none
  newest ((t, p) ∷ q) = or_else (newest q) (some p)

  pos_in : ℕ → Option (Entries F) → Option (Vec3 F)
  unfolding scan newest
  pos_in before none = none
  pos_in before (some q) = or_else (scan before none q) (newest q)

  unfoldable pub pos_at : PositionHistory F → ℕ → ℕ → Option (Vec3 F)
  unfolding pos_in
  pos_at h id before = pos_in before (Map.lookup h.by_id id)

  unfoldable pub lag_compensated : PositionHistory F → ℕ → ℕ → Option (Vec3 F)
  unfolding pos_at
  lag_compensated h id now = pos_at h id (now - lag_comp_rewind)
