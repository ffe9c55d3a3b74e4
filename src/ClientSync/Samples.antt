-- ===== src/ClientSync/Samples.antt =====
-- The way of the game's events from the bridge (the encoders of crates/ashfall-core/src/event.rs) through
-- the client's ipc/mod.rs to the packets of sync.rs.
use ashfall.Prelude.{
  ℕ, ◌≡◌, refl, ap, ◌∙◌, false, none, some, bit_or, List, [], ◌∷◌, ◌++◌, arith, nat_eq, flatten,
  filterb, map, All, to_le_bytes4,
}
use ashfall.Float.{Float}
use ashfall.Reliable.{Bytes}
use ashfall.Prelude.Int.{pos}
use ashfall.Map
use ashfall.Packet.{
  Packet, object_remove, update_activate, update_fire_weapon, update_pos, update_angle,
  actor_state_delta, update_actor_value, actor_new, ownership_claim,
}
use ashfall.Pipe.{PipeFrame, encode_frame}
use ashfall.Pipe.Ipc.{IpcClient, pipe_op_event}
use ashfall.Pipe.Ipc.Chunks.{Fits, stream, is_event, ingest_all, ingest_all-stream}
use ashfall.Pipe.Events.{
  Bits3, PlayerStateEvent, NpcSpawnEvent, NpcRemoveEvent, IsWord, AreWords, IsSample,
  event_player_state, event_npc_spawn, event_npc_remove, event_npc_state, event_activate,
  event_fire, player_state_bytes, npc_spawn_bytes, encode_player_state_event,
  encode_npc_state_event, encode_npc_spawn_event, encode_npc_remove_event, encode_ref_event,
  decode_event, decode_ref_event, decode_npc_remove, decode_player_state_lem, decode_npc_spawn_lem,
  word_lem,
}
use ashfall.ClientSync.{
  event_packets, Layout, entity_id, vec3_of, sample_packets, spawn_packets, events_to_packets,
}

-- An event that the bridge sends, with the padding of a sample.
pub data Emitted : Type 0 where
  player_state npc_state : Bits3 → PlayerStateEvent → Emitted
  npc_spawn : NpcSpawnEvent → Emitted
  npc_remove : NpcRemoveEvent → Emitted
  activate fire : ℕ → Emitted

unfoldable pub emit : Emitted → Bytes
emit (player_state padding e) = encode_player_state_event padding e
emit (npc_state padding e) = encode_npc_state_event padding e
emit (npc_spawn e) = encode_npc_spawn_event e
emit (npc_remove e) = encode_npc_remove_event e
emit (activate ref_id) = encode_ref_event event_activate ref_id
emit (fire ref_id) = encode_ref_event event_fire ref_id

payload_of : Emitted → Bytes
payload_of (player_state padding e) =
    to_le_bytes4 event_player_state ++ player_state_bytes padding e
payload_of (npc_state padding e) = to_le_bytes4 event_npc_state ++ player_state_bytes padding e
payload_of (npc_spawn e) = to_le_bytes4 event_npc_spawn ++ npc_spawn_bytes e
payload_of (npc_remove e) = to_le_bytes4 event_npc_remove ++ to_le_bytes4 e.ref_id
payload_of (activate ref_id) = to_le_bytes4 event_activate ++ to_le_bytes4 ref_id
payload_of (fire ref_id) = to_le_bytes4 event_fire ++ to_le_bytes4 ref_id

frame_of : Emitted → PipeFrame
frame_of x = record { opcode = pipe_op_event; payload = payload_of x }

-- The numbers of an event have 32 bits.
abbrev pub IsEmitted : Emitted → Type 0
IsEmitted (player_state padding e) = IsSample e
IsEmitted (npc_state padding e) = IsSample e
IsEmitted (npc_spawn e) = IsWord e.ref_id × (IsWord e.base_id × (AreWords e.pos × IsWord e.cell))
IsEmitted (npc_remove e) = IsWord e.ref_id
IsEmitted (activate ref_id) = IsWord ref_id
IsEmitted (fire ref_id) = IsWord ref_id

frame_of-Fits : (x : Emitted) → Fits (frame_of x)
unfolding frame_of payload_of player_state_bytes npc_spawn_bytes
frame_of-Fits (player_state padding e) = omega arith
frame_of-Fits (npc_state padding e) = omega arith
frame_of-Fits (npc_spawn e) = omega arith
frame_of-Fits (npc_remove e) = omega arith
frame_of-Fits (activate ref_id) = omega arith
frame_of-Fits (fire ref_id) = omega arith

emit-frame_of : (x : Emitted) → emit x ≡ encode_frame pipe_op_event (payload_of x)
unfolding emit payload_of encode_player_state_event encode_npc_state_event encode_npc_spawn_event
    encode_npc_remove_event encode_ref_event
emit-frame_of (player_state padding e) = refl
emit-frame_of (npc_state padding e) = refl
emit-frame_of (npc_spawn e) = refl
emit-frame_of (npc_remove e) = refl
emit-frame_of (activate ref_id) = refl
emit-frame_of (fire ref_id) = refl

frames_of-Fits : (es : List Emitted) → All Fits (map frame_of es)
frames_of-Fits [] = tt
frames_of-Fits (x ∷ es) = (frame_of-Fits x, frames_of-Fits es)

flatten-stream : (es : List Emitted) → flatten (map emit es) ≡ stream (map frame_of es)
unfolding stream frame_of
flatten-stream [] = refl
flatten-stream (x ∷ es) = rw (emit-frame_of x, flatten-stream es) refl

are_events : (es : List Emitted) → filterb is_event (map frame_of es) ≡ map frame_of es
unfolding frame_of
are_events [] = refl
are_events (x ∷ es) = ap (◌∷◌ (frame_of x)) (are_events es)

module _ {F : Type 0} (f : Float F) (l : Layout F) where
  -- The packets of a sample: where the actor is and looks, how it moves, and its health, which is value
  -- 0x14. Of the angle the first and the third component are sent.
  abbrev pub sampled : ℕ → PlayerStateEvent → List (Packet F)
  sampled id e =
      update_pos id (l.of_bits e.pos.0, l.of_bits e.pos.1, l.of_bits e.pos.2)
      ∷ update_angle id (l.of_bits e.angle.0, l.of_bits e.angle.2)
      ∷ actor_state_delta id (some e.idle) (some e.moving) (some e.moving_xy) (some e.weapon)
          (some e.alerted) (some e.sneaking) none
      ∷ update_actor_value id false 0x14 (l.of_bits e.health)
      ∷ []

  -- What an event tells the server.
  unfoldable pub meaning : ℕ → Emitted → List (Packet F)
  meaning local (player_state padding e) = sampled local e
  meaning local (npc_state padding e) = sampled (bit_or 0x80000000 e.ref_id) e
  meaning local (npc_spawn e) =
      actor_new (bit_or 0x80000000 e.ref_id) e.ref_id e.base_id Map.empty Map.empty 0 (pos 0) 0 0 0
        0 false false false false 0 (pos 0) f.one
      ∷ update_pos (bit_or 0x80000000 e.ref_id)
          (l.of_bits e.pos.0, l.of_bits e.pos.1, l.of_bits e.pos.2)
      ∷ ownership_claim (bit_or 0x80000000 e.ref_id)
      ∷ []
  meaning local (npc_remove e) = object_remove (bit_or 0x80000000 e.ref_id) false ∷ []
  meaning local (activate ref_id) = update_activate (bit_or 0x80000000 ref_id) local ∷ []
  meaning local (fire ref_id) = update_fire_weapon local ref_id ∷ []

  event-meaning :
      (local : ℕ) (x : Emitted)
      → IsEmitted x
      → event_packets f l local (decode_event (payload_of x)) ≡ meaning local x
  unfolding meaning event_packets decode_event payload_of decode_ref_event decode_npc_remove
      sample_packets spawn_packets entity_id vec3_of
  event-meaning local (player_state padding e) h =
      rw (decode_player_state_lem l.as_bool padding e l.as_bool-zero l.as_bool-one h) refl
  event-meaning local (npc_state padding e) h =
      rw (decode_player_state_lem l.as_bool padding e l.as_bool-zero l.as_bool-one h) refl
  event-meaning local (npc_spawn e) h = rw (decode_npc_spawn_lem e h.0 h.1.0 h.1.1.0 h.1.1.1) refl
  event-meaning local (npc_remove e) h = rw (word_lem e.ref_id h) refl
  event-meaning local (activate ref_id) h = rw (word_lem ref_id h) refl
  event-meaning local (fire ref_id) h = rw (word_lem ref_id h) refl

  events-meaning :
      (local : ℕ) (es : List Emitted)
      → All IsEmitted es
      → events_to_packets f l (map frame_of es) local ≡ flatten (map (meaning local) es)
  unfolding events_to_packets frame_of
  events-meaning local [] h = refl
  events-meaning local (x ∷ es) h = rw (event-meaning local x h.0, events-meaning local es h.1) refl

  -- Whatever pieces the bridge's events arrive in, a client that starts with nothing read makes of them
  -- just the packets that they stand for, in their order, and no byte is left over. This is for events
  -- whose numbers fit the fields that they are sent in.
  pub events_to_packets-ingest_all :
      (local : ℕ) (c : IpcClient) (pieces : List Bytes) (es : List Emitted)
      → c.read_buf ≡ []
      → c.event_buf ≡ []
      → All IsEmitted es
      → flatten pieces ≡ flatten (map emit es)
      → (events_to_packets f l (ingest_all c pieces).event_buf local
          ≡ flatten (map (meaning local) es))
        × ((ingest_all c pieces).read_buf ≡ [])
  events_to_packets-ingest_all local c pieces es fresh empty valid whole =
      rw
        (ingest_all-stream c pieces (map frame_of es) fresh (frames_of-Fits es)
          (whole ∙ flatten-stream es))
        (rw (empty, are_events es) (events-meaning local es valid, fresh))
