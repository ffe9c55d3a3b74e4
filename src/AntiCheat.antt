-- ===== src/AntiCheat.antt =====
-- crates/ashfall-server/src/anti_cheat.rs and ashfall-core/src/math.rs: what the server accepts from a
-- client. A comparison with a NaN is false, so that `>` is not the negation of `<=`.
pub mod Replay
use ashfall.Prelude.{
  ℕ, Bool, true, false, ◌&&◌, Option, none, some, ltb, leb, ◌==◌, nat_eq, if◌then◌else◌,
  wrapping_sub,
}
use ashfall.Float.{Float}
use ashfall.Packet.{Vec3}

abbrev pub max_item_stack : ℕ
max_item_stack = 65535

module _ {F : Type 0} (f : Float F) where
  abbrev pub max_speed : F
  max_speed = f.literal 5000 1

  abbrev pub max_teleport_distance : F
  max_teleport_distance = f.literal 10000 1

  abbrev pub min_scale : F
  min_scale = f.literal 1 10

  abbrev pub max_scale : F
  max_scale = f.literal 10 1

  unfoldable pub is_valid_coordinate : F → Bool
  is_valid_coordinate c =
      f.is_finite c && (f.lt (f.neg (f.literal 300000 1)) c && f.lt c (f.literal 300000 1))

  unfoldable pub is_valid_angle : F → Bool
  is_valid_angle a = f.is_finite a && (f.le (f.neg (f.literal 360 1)) a && f.le a (f.literal 360 1))

  unfoldable pub is_valid_pos : Vec3 F → Bool
  unfolding is_valid_coordinate
  is_valid_pos (x, y, z) = is_valid_coordinate x && (is_valid_coordinate y && is_valid_coordinate z)

  unfoldable pub is_valid_angle3 : Vec3 F → Bool
  unfolding is_valid_angle
  is_valid_angle3 (x, y, z) = is_valid_angle x && (is_valid_angle y && is_valid_angle z)

  unfoldable pub distance : Vec3 F → Vec3 F → F
  distance (ax, ay, az) (bx, by_, bz) =
      let dx = f.sub ax bx in
      let dy = f.sub ay by_ in
      let dz = f.sub az bz in f.sqrt (f.add (f.add (f.mul dx dx) (f.mul dy dy)) (f.mul dz dz))

  -- No teleport, and no speed hack over the time since the last packet.
  unfoldable pub is_reachable : F → ℕ → Bool
  is_reachable dist delta_time =
      if f.lt max_teleport_distance dist
      then false
      else if f.lt max_speed (f.div dist (f.max (f.as_secs delta_time) (f.literal 1 1000)))
      then false
      else true

  reachable_from : Vec3 F → Option (Vec3 F) → ℕ → Bool
  unfolding distance is_reachable
  reachable_from p none delta_time = true
  reachable_from p (some prev) delta_time = is_reachable (distance p prev) delta_time

  unfoldable pub validate_position : Vec3 F → Option (Vec3 F) → ℕ → Bool
  unfolding is_valid_pos reachable_from
  validate_position p prev delta_time =
      if is_valid_pos p then reachable_from p prev delta_time else false

  unfoldable pub validate_velocity : Vec3 F → Bool
  validate_velocity (x, y, z) =
      let speed = f.sqrt (f.add (f.add (f.mul x x) (f.mul y y)) (f.mul z z)) in
      f.is_finite speed && f.lt speed max_speed

  unfoldable pub validate_item_condition : F → Bool
  validate_item_condition c = f.is_finite c && (f.le f.zero c && f.le c (f.literal 100 1))

  unfoldable pub validate_scale : F → Bool
  validate_scale s = f.is_finite s && (f.le min_scale s && f.le s max_scale)

  unfoldable pub validate_damage : F → Bool
  validate_damage d = f.lt f.zero d && f.lt d (f.literal 10000 1)

unfoldable pub validate_item_count : ℕ → Bool
validate_item_count n = leb n max_item_stack

-- A sequence number is newer within half of the 16-bit circle.
unfoldable pub validate_sequence : ℕ → Option ℕ → Bool
validate_sequence seq none = true
validate_sequence seq (some last) =
    ltb 0 (wrapping_sub seq last) && ltb (wrapping_sub seq last) 32768

abbrev pub update_sequence : Option ℕ → ℕ → Option ℕ
update_sequence last_seq seq = some seq

unfoldable pub validate_form_id : ℕ → Bool
validate_form_id form_id =
    if form_id == 0 then false else if form_id == 4294967295 then false else true
