-- ===== src/Examples/History.antt =====
-- Runs of the position history.
use ashfall.Prelude.{ℕ, ◌≡◌, ◌≢◌, refl, some, [], ◌∷◌, arith, nat_eq}
use ashfall.Map
use ashfall.World.PositionHistory.{PositionHistory, or_default, record_pos, pos_at}
use ashfall.World.PositionHistory.Window.{IsTimed, IsRecent, pos_at-append, record_pos-pos_at}

abbrev history : PositionHistory ℕ
history = record {
  by_id = Map.insert Map.empty 5 ((10, (1, 1, 1)) ∷ (20, (2, 2, 2)) ∷ (30, (3, 3, 3)) ∷ []);
}

history-lookup :
    Map.lookup history.by_id 5 ≡ some ((10, (1, 1, 1)) ∷ (20, (2, 2, 2)) ∷ (30, (3, 3, 3)) ∷ [])
unfolding Map.lookup Map.insert Map.empty
history-lookup = refl

pos_at-append_example : pos_at history 5 25 ≡ some (2, 2, 2)
pos_at-append_example =
    pos_at-append history 5 25 20 (2, 2, 2) ((10, (1, 1, 1)) ∷ []) ((30, (3, 3, 3)) ∷ [])
      history-lookup (omega arith, tt) (omega arith) (omega arith)

abbrev mover : ℕ
mover = 5

abbrev other : ℕ
other = 6

apart : mover ≢ other
apart = omega arith

timed : IsTimed (or_default (Map.lookup history.by_id mover))
unfolding IsTimed Map.lookup Map.insert Map.empty
timed = ((omega arith, (omega arith, tt)), ((omega arith, tt), (tt, tt)))

record_pos-pos_at_example :
    (pos_at (record_pos history mover (4, 4, 4) 40) mover 41 ≡ some (4, 4, 4))
    × (IsRecent 40 (or_default (Map.lookup (record_pos history mover (4, 4, 4) 40).by_id mover))
        × (Map.lookup (record_pos history mover (4, 4, 4) 40).by_id other
            ≡ Map.lookup history.by_id other))
unfolding Map.lookup Map.insert Map.empty
record_pos-pos_at_example =
    record_pos-pos_at history mover other 40 41 (4, 4, 4) timed
      (omega arith, (omega arith, (omega arith, tt))) (omega arith) apart
