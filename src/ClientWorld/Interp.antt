-- ===== src/ClientWorld/Interp.antt =====
-- crates/ashfall-client/src/world/state.rs: positions shown a little behind the last packet.
use ashfall.Prelude.{
  ℕ, ◌&&◌, ◌||◌, Option, none, some, List, [], ◌∷◌, ◌++◌, ltb, ◌==◌, nat_eq, if◌then◌else◌, length,
}
use ashfall.Float.{Float}
use ashfall.Packet.{Vec3}

pub record Sample (F : Type 0) : Type 0 where
  pub pos : Vec3 F
  pub t : F

pub record InterpBuffer (F : Type 0) : Type 0 where
  pub samples : List (Sample F)
  pub vel : Vec3 F

abbrev pub buffer_size : ℕ
buffer_size = 5

abbrev pub last {ℓ} : {A : Type ℓ} → List A → Option A
last [] = none
last (x ∷ []) = some x
last (x ∷ y ∷ xs) = last (y ∷ xs)

abbrev pub tail {ℓ} : {A : Type ℓ} → List A → List A
tail [] = []
tail (x ∷ xs) = xs

module _ {F : Type 0} (f : Float F) where
  abbrev interp_delay : F
  interp_delay = f.div (f.literal 2 1) (f.literal 30 1)

  abbrev extrap_timeout : F
  extrap_timeout = f.literal 1 2

  abbrev zero3 : Vec3 F
  zero3 = (f.zero, f.zero, f.zero)

  unfoldable pub new : InterpBuffer F
  new = record { samples = []; vel = zero3 }

  -- The velocity after a sample that follows the newest one.
  velocity : Vec3 F → Option (Sample F) → Vec3 F → F → Vec3 F
  velocity vel none p t = vel
  velocity vel (some newest) p t =
      let dt = f.sub t newest.t in
      if f.lt (f.literal 1 1000) dt
      then (
        f.div (f.sub p.0 newest.pos.0) dt,
        f.div (f.sub p.1 newest.pos.1) dt,
        f.div (f.sub p.2 newest.pos.2) dt,
      )
      else vel

  unfoldable pub push : InterpBuffer F → Vec3 F → F → InterpBuffer F
  unfolding velocity
  push b p t =
      let samples = b.samples ++ record { pos = p; t = t } ∷ [] in
      record {
        samples = if ltb buffer_size (length samples) then tail samples else samples;
        vel = velocity b.vel (last b.samples) p t;
      }

  lerp : Sample F → Sample F → F → Vec3 F
  lerp a b render_time =
      let dt = f.sub b.t a.t in
      let tt_ = if f.lt (f.literal 1 10000) dt then f.div (f.sub render_time a.t) dt else f.zero in
      (
        f.add a.pos.0 (f.mul tt_ (f.sub b.pos.0 a.pos.0)),
        f.add a.pos.1 (f.mul tt_ (f.sub b.pos.1 a.pos.1)),
        f.add a.pos.2 (f.mul tt_ (f.sub b.pos.2 a.pos.2)),
      )

  -- The first two samples in a row that the time lies between.
  between : List (Sample F) → F → Option (Vec3 F)
  unfolding lerp
  between (a ∷ b ∷ rest) render_time =
      let later = between (b ∷ rest) render_time in
      if f.le a.t render_time && f.le render_time b.t then some (lerp a b render_time) else later
  between _ render_time = none

  extrapolate : InterpBuffer F → Sample F → F → F → Vec3 F
  extrapolate b newest render_time now =
      let dt = f.sub render_time newest.t in
      if f.lt extrap_timeout (f.sub now newest.t) then newest.pos else (
        f.add newest.pos.0 (f.mul b.vel.0 dt),
        f.add newest.pos.1 (f.mul b.vel.1 dt),
        f.add newest.pos.2 (f.mul b.vel.2 dt),
      )

  or_else : Option (Vec3 F) → Vec3 F → Vec3 F
  or_else none p = p
  or_else (some q) p = q

  render_from : InterpBuffer F → List (Sample F) → Option (Sample F) → F → F → Vec3 F
  unfolding between extrapolate or_else
  render_from b (oldest ∷ rest) (some newest) render_time now =
      if length (oldest ∷ rest) == 1 || f.le render_time oldest.t
      then oldest.pos
      else if f.le render_time newest.t
      then or_else (between (oldest ∷ rest) render_time) (extrapolate b newest render_time now)
      else extrapolate b newest render_time now
  render_from b _ _ render_time now = zero3

  unfoldable pub render : InterpBuffer F → F → F → Vec3 F
  unfolding render_from
  render b render_time now = render_from b b.samples (last b.samples) render_time now

  -- `render_now`, at the time `now`
  unfoldable pub render_now : InterpBuffer F → F → Vec3 F
  render_now b now = render b (f.sub now interp_delay) now
