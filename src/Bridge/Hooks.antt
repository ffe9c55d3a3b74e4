-- ===== src/Bridge/Hooks.antt =====
-- crates/ashfall-bridge/src/hooks/mod.rs, as it is built for the 32-bit process of the game: the hooks that
-- are more than a call of hooks/vtable.rs. Those that do nothing there yet do nothing here.
use ashfall.Prelude.{
  ℕ, ◌+◌, Bool, false, not, [], ◌∷◌, ltb, ◌==◌, nat_eq, bytes_eq, if◌then◌else◌, take,
}
use ashfall.Reliable.{Bytes}
use ashfall.Bridge.{Engine}

-- `as i8 as u32`
unfoldable pub sign_extend : ℕ → ℕ
sign_extend x = if ltb x 128 then x else x + 4294967040

-- The routines of the builds, and the bytes that they start with.
abbrev kill_fnv : ℕ
kill_fnv = 0x8B86E0

abbrev kill_steam : ℕ
kill_steam = 0x7F3200

abbrev kill_classic : ℕ
kill_classic = 0x71AC50

abbrev kill_classic_limb : ℕ
kill_classic_limb = 0x71C280

abbrev pub f32_one : ℕ
f32_one = 0x3F800000

module _ {G : Type 0} (e : Engine G) where
  unfoldable pub get_control : G → (ref_id control : ℕ) → ℕ
  get_control g ref_id control = 0

  unfoldable pub set_control : (ref_id control : ℕ) → Bool → G → G
  set_control ref_id control enabled g = g

  unfoldable pub get_activate : G → ℕ → ℕ
  get_activate g ref_id = if e.lookup_form_by_id g ref_id == 0 then 0 else ref_id

  unfoldable pub fire_weapon : (shooter_ref weapon : ℕ) → G → ℕ × G
  fire_weapon shooter_ref weapon g =
      let obj = e.lookup_form_by_id g shooter_ref in
      let addr = e.fire_routine_addr g in
      if obj == 0
      then (0, g)
      else if addr == 0
      then (0, g)
      else (1, (e.routine addr (obj ∷ []) g).1)

  unfoldable pub play_sound : (ref_id sound_id : ℕ) → G → ℕ × G
  play_sound ref_id sound_id g =
      let obj = e.lookup_form_by_id g ref_id in
      let snd = e.lookup_form_by_id g sound_id in
      if obj == 0
      then (0, g)
      else if snd == 0
      then (0, g)
      else if e.read_bytes g 0x9CC980 4 == (0x55 ∷ 0x8B ∷ 0xEC ∷ 0x6A ∷ [])
      then (0, g)
      else if e.read_bytes g 0x5C4B30 3 == (0x53 ∷ 0x8B ∷ 0xDC ∷ [])
      then (1, (e.routine 0x5C4B30 (obj ∷ snd ∷ 0 ∷ 0 ∷ 0 ∷ f32_one ∷ []) g).1)
      else if e.read_bytes g 0xBCFBB0 4 == (0x6A ∷ 0xFF ∷ 0x68 ∷ 0x68 ∷ [])
      then e.routine 0xBCFBB0 (snd ∷ ref_id ∷ 0x40000101 ∷ []) g
      else (0, g)

  unfoldable pub set_name : ℕ → Bytes → G → ℕ × G
  set_name ref_id name g =
      let obj = e.lookup_form_by_id g ref_id in
      let base_form = e.rd_u32 g (obj + 0x1C) in
      if not (e.is_fnv g)
      then (0, g)
      else if not (e.read_bytes g 0x489100 3 == (0x55 ∷ 0x8B ∷ 0xEC ∷ []))
      then (0, g)
      else if obj == 0
      then (0, g)
      else if base_form == 0
      then (0, g)
      else (1, e.set_full_name (base_form + 0x18) (take 255 name) g)

  unfoldable pub is_dead : G → ℕ → Bool
  is_dead g ref_id =
      let obj = e.lookup_form_by_id g ref_id in
      if obj == 0 then false else not (e.rd_u32 g (obj + 0xFC) == 0)

  -- Which of the builds runs is read off the bytes at their routines.
  unfoldable pub kill_actor : (ref_id killer_id limb cause : ℕ) → G → G
  unfolding sign_extend
  kill_actor ref_id killer_id limb cause g =
      let actor = e.lookup_form_by_id g ref_id in
      let killer = e.lookup_form_by_id g killer_id in
      let fnv =
        if e.is_fnv g
        then e.read_bytes g kill_fnv 6 == (0x55 ∷ 0x8B ∷ 0xEC ∷ 0x83 ∷ 0xEC ∷ 0x08 ∷ [])
        else false in
      let steam =
        if e.read_bytes g kill_steam 3 == (0x55 ∷ 0x8B ∷ 0xEC ∷ [])
        then not (e.is_fnv g)
        else false in
      if actor == 0
      then g
      else if fnv
      then (e.routine kill_fnv (actor ∷ killer ∷ sign_extend limb ∷ 0 ∷ []) g).1
      else if steam
      then g
      else if e.read_bytes g kill_classic 3 == (0x55 ∷ 0x8B ∷ 0xEC ∷ [])
      then (e.routine kill_classic_limb (actor ∷ sign_extend cause ∷ sign_extend limb ∷ killer ∷ [])
          (e.routine kill_classic (actor ∷ killer ∷ 0 ∷ []) g).1).1
      else g

  unfoldable pub equip_item : (ref_id item_id amount flag : ℕ) → G → G
  equip_item ref_id item_id amount flag g = g

  unfoldable pub unequip_item : (ref_id item_id amount flag : ℕ) → G → G
  unequip_item ref_id item_id amount flag g = g

  unfoldable pub add_item : (ref_id item_id amount flag : ℕ) → G → G
  add_item ref_id item_id amount flag g = g

  unfoldable pub remove_item : (ref_id item_id amount flag : ℕ) → G → G
  remove_item ref_id item_id amount flag g = g

  unfoldable pub remove_all_items : (ref_id transfer_to : ℕ) → G → G
  remove_all_items ref_id transfer_to g = g

  unfoldable pub get_ref_count : G → ℕ → ℕ
  get_ref_count g ref_id = 0

  unfoldable pub damage_actor_value : (ref_id index value : ℕ) → G → G
  damage_actor_value ref_id index value g = g

  unfoldable pub restore_actor_value : (ref_id index value : ℕ) → G → G
  restore_actor_value ref_id index value g = g

  unfoldable pub force_actor_value : (ref_id index value : ℕ) → G → G
  force_actor_value ref_id index value g = g

  unfoldable pub play_group : (ref_id group_id flags : ℕ) → G → G
  play_group ref_id group_id flags g = g

  unfoldable pub force_weather : ℕ → G → G
  force_weather weather_id g = g

  unfoldable pub set_restrained : (ref_id restrained : ℕ) → G → G
  set_restrained ref_id restrained g = g
