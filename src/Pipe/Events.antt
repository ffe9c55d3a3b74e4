-- ===== src/Pipe/Events.antt =====
-- crates/ashfall-core/src/event.rs: the events. A struct goes out as it lies in memory; an `f32` is the
-- number of its 32 bits, and the three bytes of padding behind the flags of a sample are an argument.
use ashfall.Prelude.{
  ℕ, zero, suc, ltb, ◌+◌, ◌/◌, ◌%◌, ◌<◌, ◌≡◌, refl, Bool, true, false, Option, none, some, [], ◌∷◌,
  ◌++◌, arith, if◌then◌else◌, length, to_le_bytes4, from_le_bytes4,
}
use ashfall.Reliable.{Bytes}
use ashfall.Pipe.{encode_frame}
use ashfall.Pipe.Ipc.{pipe_op_event}

abbrev pub event_player_state : ℕ
event_player_state = 7

abbrev pub event_npc_spawn : ℕ
event_npc_spawn = 8

abbrev pub event_npc_remove : ℕ
event_npc_remove = 9

abbrev pub event_npc_state : ℕ
event_npc_state = 10

abbrev pub event_activate : ℕ
event_activate = 11

abbrev pub event_fire : ℕ
event_fire = 12

abbrev pub Bits3 : Type 0
Bits3 = ℕ × ℕ × ℕ

pub record PlayerStateEvent : Type 0 where
  pub ref_id : ℕ
  pub pos : Bits3
  pub angle : Bits3
  pub idle : ℕ
  pub moving : ℕ
  pub moving_xy : ℕ
  pub weapon : ℕ
  pub alerted : Bool
  pub sneaking : Bool
  pub health : ℕ

pub record NpcSpawnEvent : Type 0 where
  pub ref_id : ℕ
  pub base_id : ℕ
  pub pos : Bits3
  pub cell : ℕ

pub record NpcRemoveEvent : Type 0 where
  pub ref_id : ℕ

abbrev pub bool_byte : Bool → ℕ
bool_byte b = if b then 1 else 0

unfoldable pub bytes3 : Bits3 → Bytes
bytes3 v = to_le_bytes4 v.0 ++ to_le_bytes4 v.1 ++ to_le_bytes4 v.2

-- The 44 bytes of a sample.
unfoldable pub player_state_bytes : Bits3 → PlayerStateEvent → Bytes
unfolding bytes3
player_state_bytes padding e =
    to_le_bytes4 e.ref_id
    ++ bytes3 e.pos
    ++ bytes3 e.angle
    ++ to_le_bytes4 e.idle
    ++ (e.moving
        ∷ e.moving_xy
        ∷ e.weapon
        ∷ bool_byte e.alerted
        ∷ bool_byte e.sneaking
        ∷ padding.0
        ∷ padding.1
        ∷ padding.2
        ∷ [])
    ++ to_le_bytes4 e.health

unfoldable pub encode_player_state_event : Bits3 → PlayerStateEvent → Bytes
unfolding player_state_bytes
encode_player_state_event padding e =
    encode_frame pipe_op_event (to_le_bytes4 event_player_state ++ player_state_bytes padding e)

unfoldable pub encode_npc_state_event : Bits3 → PlayerStateEvent → Bytes
unfolding player_state_bytes
encode_npc_state_event padding e =
    encode_frame pipe_op_event (to_le_bytes4 event_npc_state ++ player_state_bytes padding e)

unfoldable pub npc_spawn_bytes : NpcSpawnEvent → Bytes
unfolding bytes3
npc_spawn_bytes e =
    to_le_bytes4 e.ref_id ++ to_le_bytes4 e.base_id ++ bytes3 e.pos ++ to_le_bytes4 e.cell

unfoldable pub encode_npc_spawn_event : NpcSpawnEvent → Bytes
unfolding npc_spawn_bytes
encode_npc_spawn_event e =
    encode_frame pipe_op_event (to_le_bytes4 event_npc_spawn ++ npc_spawn_bytes e)

unfoldable pub encode_npc_remove_event : NpcRemoveEvent → Bytes
encode_npc_remove_event e =
    encode_frame pipe_op_event (to_le_bytes4 event_npc_remove ++ to_le_bytes4 e.ref_id)

unfoldable pub encode_ref_event : ℕ → ℕ → Bytes
encode_ref_event event_type ref_id =
    encode_frame pipe_op_event (to_le_bytes4 event_type ++ to_le_bytes4 ref_id)

unfoldable pub decode_event : Bytes → Option (ℕ × Bytes)
decode_event (a ∷ b ∷ c ∷ d ∷ rest) = some (from_le_bytes4 a b c d, rest)
decode_event _ = none

unfoldable pub decode_ref_event : Bytes → Option ℕ
decode_ref_event (a ∷ b ∷ c ∷ d ∷ rest) = some (from_le_bytes4 a b c d)
decode_ref_event _ = none

unfoldable pub decode_npc_remove : Bytes → Option NpcRemoveEvent
decode_npc_remove (a ∷ b ∷ c ∷ d ∷ rest) = some (record { ref_id = from_le_bytes4 a b c d })
decode_npc_remove _ = none

-- Reads at an offset, within the bytes.
unfoldable pub byte_at : Bytes → ℕ → ℕ
byte_at [] i = 0
byte_at (b ∷ bytes) zero = b
byte_at (b ∷ bytes) (suc i) = byte_at bytes i

unfoldable pub word_at : Bytes → ℕ → ℕ
unfolding byte_at
word_at bytes i =
    from_le_bytes4 (byte_at bytes i) (byte_at bytes (i + 1)) (byte_at bytes (i + 2))
      (byte_at bytes (i + 3))

unfoldable pub bits3_at : Bytes → ℕ → Bits3
unfolding word_at
bits3_at bytes i = (word_at bytes i, word_at bytes (i + 4), word_at bytes (i + 8))

unfoldable pub decode_npc_spawn : Bytes → Option NpcSpawnEvent
unfolding bits3_at
decode_npc_spawn bytes =
    if ltb (length bytes) 24
    then none
    else some (record {
      ref_id = word_at bytes 0;
      base_id = word_at bytes 4;
      pos = bits3_at bytes 8;
      cell = word_at bytes 20;
    })

-- `as_bool` is what a byte in the place of a `bool` reads as.
unfoldable pub decode_player_state : (ℕ → Bool) → Bytes → Option PlayerStateEvent
unfolding bits3_at
decode_player_state as_bool bytes =
    if ltb (length bytes) 44
    then none
    else some (record {
      ref_id = word_at bytes 0;
      pos = bits3_at bytes 4;
      angle = bits3_at bytes 16;
      idle = word_at bytes 28;
      moving = byte_at bytes 32;
      moving_xy = byte_at bytes 33;
      weapon = byte_at bytes 34;
      alerted = as_bool (byte_at bytes 35);
      sneaking = as_bool (byte_at bytes 36);
      health = word_at bytes 40;
    })

abbrev pub IsWord : ℕ → Type 0
IsWord n = n < 4294967296

abbrev pub AreWords : Bits3 → Type 0
AreWords v = IsWord v.0 × IsWord v.1 × IsWord v.2

pub record IsSample (e : PlayerStateEvent) : Type 0 where
  pub ref_id : IsWord e.ref_id
  pub pos : AreWords e.pos
  pub angle : AreWords e.angle
  pub idle : IsWord e.idle
  pub health : IsWord e.health

pub word_lem :
    (n : ℕ)
    → IsWord n
    → from_le_bytes4 (n % 256) (n / 256 % 256) (n / 65536 % 256) (n / 16777216 % 256) ≡ n
word_lem n h = omega arith

bool_lem :
    (as_bool : ℕ → Bool) (b : Bool)
    → as_bool 0 ≡ false
    → as_bool 1 ≡ true
    → as_bool (bool_byte b) ≡ b
bool_lem as_bool true off on = on
bool_lem as_bool false off on = off

-- A sample is read back from its bytes, whatever the padding.
pub decode_player_state_lem :
    (as_bool : ℕ → Bool) (padding : Bits3) (e : PlayerStateEvent)
    → as_bool 0 ≡ false
    → as_bool 1 ≡ true
    → IsSample e
    → decode_player_state as_bool (player_state_bytes padding e) ≡ some e
unfolding decode_player_state player_state_bytes
decode_player_state_lem as_bool padding e off on valid =
    rw
      (
        word_lem e.ref_id valid.ref_id,
        word_lem e.pos.0 valid.pos.0,
        word_lem e.pos.1 valid.pos.1,
        word_lem e.pos.2 valid.pos.2,
        word_lem e.angle.0 valid.angle.0,
        word_lem e.angle.1 valid.angle.1,
        word_lem e.angle.2 valid.angle.2,
        word_lem e.idle valid.idle,
        word_lem e.health valid.health,
        bool_lem as_bool e.alerted off on,
        bool_lem as_bool e.sneaking off on,
      )
      refl

pub decode_npc_spawn_lem :
    (e : NpcSpawnEvent)
    → IsWord e.ref_id
    → IsWord e.base_id
    → AreWords e.pos
    → IsWord e.cell
    → decode_npc_spawn (npc_spawn_bytes e) ≡ some e
unfolding decode_npc_spawn npc_spawn_bytes
decode_npc_spawn_lem e r b p c =
    rw
      (
        word_lem e.ref_id r,
        word_lem e.base_id b,
        word_lem e.pos.0 p.0,
        word_lem e.pos.1 p.1,
        word_lem e.pos.2 p.2,
        word_lem e.cell c,
      )
      refl
