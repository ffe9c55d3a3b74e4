-- ===== src/World/PositionHistory/Window.antt =====
-- Which position crates/ashfall-server/src/world/position_history.rs finds for a time.
use ashfall.Prelude.{
  ℕ, ◌+◌, ◌-◌, ◌≤◌, ◌<◌, ◌≡◌, ◌≢◌, refl, inl, inr, Bool-cases, Option, none, some, [], ◌∷◌, ◌++◌,
  arith, ltb, nat_eq, nat_beq_iff, All,
}
use ashfall.Map
use ashfall.Map.Laws.{lookup-insert}
use ashfall.Packet.{Vec3}
use ashfall.World.PositionHistory.{
  PositionHistory, Entries, or_default, prune, record_pos, scan, pos_in, pos_at, history_window,
}

module _ {F : Type 0} where
  -- Every entry is at or before a time; every entry is later.
  abbrev pub IsUpTo : ℕ → Entries F → Type 0
  IsUpTo before q = All (λ (e : ℕ × Vec3 F). e.0 ≤ before) q

  abbrev pub StartsAfter : ℕ → Entries F → Type 0
  StartsAfter before [] = Unit
  StartsAfter before ((t, p) ∷ q) = before < t

  scan-later :
      (before : ℕ) (best : Option (Vec3 F)) (q : Entries F)
      → StartsAfter before q
      → scan before best q ≡ best
  unfolding scan
  scan-later before best [] h = refl
  scan-later before best ((t, p) ∷ q) h = ground arith

  scan-append :
      (before : ℕ) (best : Option (Vec3 F)) (xs ys : Entries F) (t : ℕ) (p : Vec3 F)
      → IsUpTo before xs
      → t ≤ before
      → StartsAfter before ys
      → scan before best (xs ++ (t, p) ∷ ys) ≡ some p
  unfolding scan
  scan-append before best [] ys t p h at_most later =
      ground (arith, scan-later before (some p) ys later)
  scan-append before best ((s, q) ∷ xs) ys t p (h, hs) at_most later =
      ground (arith, scan-append before (some q) xs ys t p hs at_most later)

  -- A query of a time finds the last position recorded at or before it: the one behind which every
  -- entry is up to that time, and after which the next one, if any, is later.
  pub pos_at-append :
      (h : PositionHistory F) (id before t : ℕ) (p : Vec3 F) (xs ys : Entries F)
      → Map.lookup h.by_id id ≡ some (xs ++ (t, p) ∷ ys)
      → IsUpTo before xs
      → t ≤ before
      → StartsAfter before ys
      → pos_at h id before ≡ some p
  unfolding pos_at
  pos_at-append h id before t p xs ys e up at_most later =
      rw e (rw (scan-append before none xs ys t p up at_most later, pos_in) refl)

  -- The times never go back.
  unfoldable pub IsTimed : Entries F → Type 0
  IsTimed [] = Unit
  IsTimed ((t, p) ∷ q) = All (λ (e : ℕ × Vec3 F). t ≤ e.0) q × IsTimed q

  -- No entry is older than the window.
  unfoldable pub IsRecent : ℕ → Entries F → Type 0
  IsRecent now q = All (λ (e : ℕ × Vec3 F). now ≤ e.0 + history_window) q

  later-IsRecent :
      (now t : ℕ) (q : Entries F)
      → now ≤ t + history_window
      → All (λ (e : ℕ × Vec3 F). t ≤ e.0) q
      → IsRecent now q
  unfolding IsRecent
  later-IsRecent now t [] h l = tt
  later-IsRecent now t (e ∷ q) h (k, l) = (omega arith, later-IsRecent now t q h l)

  prune-IsRecent : (now : ℕ) (q : Entries F) → IsTimed q → IsRecent now (prune now q)
  unfolding prune IsTimed IsRecent
  prune-IsRecent now [] v = tt
  prune-IsRecent now ((t, p) ∷ q) (l, v) = elim (Bool-cases (ltb history_window (now - t))) [
    | inl e ↦ rw e (prune-IsRecent now q v)
    | inr e ↦ rw e (ground arith, later-IsRecent now t q (ground arith) l)
  ]

  prune-append :
      (now : ℕ) (q : Entries F) (p : Vec3 F)
      → prune now (q ++ (now, p) ∷ []) ≡ prune now q ++ (now, p) ∷ []
  unfolding prune
  prune-append now [] p = ground arith
  prune-append now ((t, r) ∷ q) p = ground (arith, prune-append now q p)

  widen : (now before : ℕ) (q : Entries F) → IsUpTo now q → now ≤ before → IsUpTo before q
  widen now before [] u l = tt
  widen now before (e ∷ q) (h, u) l = (omega arith, widen now before q u l)

  append-IsRecent :
      (now : ℕ) (q : Entries F) (p : Vec3 F) → IsRecent now q → IsRecent now (q ++ (now, p) ∷ [])
  unfolding IsRecent
  append-IsRecent now [] p r = (omega arith, tt)
  append-IsRecent now (e ∷ q) p (h, r) = (h, append-IsRecent now q p r)

  recorded :
      (h : PositionHistory F) (id now : ℕ) (p : Vec3 F)
      → Map.lookup (record_pos h id p now).by_id id
        ≡ some (prune now (or_default (Map.lookup h.by_id id)) ++ (now, p) ∷ [])
  unfolding record_pos
  recorded h id now p =
      rw
        (lookup-insert h.by_id id id
          (prune now (or_default (Map.lookup h.by_id id) ++ (now, p) ∷ [])))
        (rw ((nat_beq_iff id id).1 refl)
          (rw (prune-append now (or_default (Map.lookup h.by_id id)) p) refl))

  untouched :
      (h : PositionHistory F) (id other now : ℕ) (p : Vec3 F)
      → id ≢ other
      → Map.lookup (record_pos h id p now).by_id other ≡ Map.lookup h.by_id other
  unfolding record_pos
  untouched h id other now p apart = ground (
    arith,
    lookup-insert h.by_id id other
        (prune now (or_default (Map.lookup h.by_id id) ++ (now, p) ∷ [])),
    nat_beq_iff id other,
  )

  prune-IsUpTo :
      (now before : ℕ) (q : Entries F) → IsUpTo now q → now ≤ before → IsUpTo before (prune now q)
  unfolding prune
  prune-IsUpTo now before [] u l = tt
  prune-IsUpTo now before ((t, p) ∷ q) (h, u) l = elim (Bool-cases (ltb history_window (now - t))) [
    | inl e ↦ rw e (prune-IsUpTo now before q u l)
    | inr e ↦ rw e (omega arith, widen now before q u l)
  ]

  -- Where the times recorded for an entity ascend and are not in the future: a position that is
  -- recorded is what a query of that time or later finds, what is kept of the entity is no older than
  -- two seconds, and the other entities keep their histories.
  pub record_pos-pos_at :
      (h : PositionHistory F) (id other now before : ℕ) (p : Vec3 F)
      → IsTimed (or_default (Map.lookup h.by_id id))
      → IsUpTo now (or_default (Map.lookup h.by_id id))
      → now ≤ before
      → id ≢ other
      → (pos_at (record_pos h id p now) id before ≡ some p)
        × (IsRecent now (or_default (Map.lookup (record_pos h id p now).by_id id))
            × (Map.lookup (record_pos h id p now).by_id other ≡ Map.lookup h.by_id other))
  record_pos-pos_at h id other now before p timed up later apart =
      let kept = recorded h id now p in
      (
        pos_at-append (record_pos h id p now) id before now p
            (prune now (or_default (Map.lookup h.by_id id))) [] kept
            (prune-IsUpTo now before (or_default (Map.lookup h.by_id id)) up later) later tt,
        (
          rw kept (
              append-IsRecent now (prune now (or_default (Map.lookup h.by_id id))) p
                (prune-IsRecent now (or_default (Map.lookup h.by_id id)) timed)),
          untouched h id other now p apart,
        ),
      )
