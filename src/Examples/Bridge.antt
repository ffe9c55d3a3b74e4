-- ===== src/Examples/Bridge.antt =====
-- Runs between the client, the bridge and a game that is one number: where the last actor was moved to.
use ashfall.Prelude.{
  ℕ, ◌≡◌, ◌<◌, refl, true, false, Option, none, some, List, [], ◌∷◌, ◌++◌, length, contains, not,
  ◌&&◌, ◌||◌, arith, ◌%◌, ◌==◌, nat_eq, if◌then◌else◌,
}
use ashfall.Examples.Numbers.{numbers}
use ashfall.Packet.{update_pos}
use ashfall.Pipe.Ipc
use ashfall.Pipe.Ipc.{
  IpcClient, Param, u32_param, f32_param, encode_params, encode_into, request, take_from,
}
use ashfall.Pipe.Ipc.Chunks.{stream}
use ashfall.Pipe.{encode_frame, split_frames}
use ashfall.Pipe.Events.{word_at, byte_at}
use ashfall.ClientSync.{Layout, packet_commands}
use ashfall.Bridge.{local_player_ref, Engine, Bridge, encode_pipe_return, take_event_frames}
use ashfall.Bridge.Opcodes.{op_set_pos}
use ashfall.Bridge.Commands.{execute, execute_placed}
use ashfall.Bridge.Serve.{piece, serve, turn, dispatch_all, dispatch}
use ashfall.Bridge.Answer.{params_bytes, as_result, execute-serve}
use ashfall.Bridge.Discovery.{npc_diff, npc_diff_iff}
use ashfall.Bridge.Apply.{applied, run_commands, packet_commands-applied}

abbrev engine : Engine ℕ
engine = record {
  is_fnv = λ g. false;
  lookup_form_by_id = λ g i. i;
  rd_u32 = λ g addr. 0;
  read_bytes = λ g addr len. [];
  routine = λ addr args g. (0, g);
  vcall = λ obj index args g. (0, g);
  set_full_name = λ field name g. g;
  fire_routine_addr = λ g. 0;
  get_pos = λ g i. (g, g, g);
  get_angle = λ g i. (g, g, g);
  get_cell = λ g i. 0;
  get_base = λ g i. 0;
  get_lock = λ g i. 0;
  get_parent_cell = λ g i. 0;
  get_combat_target = λ g i. 0;
  get_actor_state = λ g i. record {
    idle = 0;
    moving = 0;
    weapon = 0;
    flags = 0;
    alerted = false;
    sneaking = false;
  };
  get_actor_value = λ g i index. 0;
  get_actor_base_value = λ g i index. 0;
  get_name = λ g i. [];
  get_enabled = λ g i. true;
  set_pos = λ i v g. v.0;
  set_angle = λ i v g. g;
  set_parent_cell = λ i v g. g;
  set_scale = λ i v g. g;
  set_actor_value = λ i index v g. g;
  set_enabled = λ i v g. g;
  set_lock = λ i v g. g;
  probe_saves = λ g. ([], g);
  dump_image = λ g. ([], g);
  padding = λ g. (0, 0, 0);
}

abbrev bridge : Bridge ℕ
bridge = record {
  game = 0;
  event_queue = [];
  last_report = none;
  tracked_actors = [];
  current = [];
  last = [];
}

abbrev client : IpcClient
client = record { is_stub = false; next_key = 1; returns = []; read_buf = []; event_buf = [] }

abbrev of_le : ℕ → ℕ → ℕ → ℕ → ℕ
of_le a b c d = a

-- One float is a number below 256, and what is more is cut off.
abbrev layout : Layout ℕ
layout = record {
  of_bits = λ n. n;
  to_bits = λ n. n % 256;
  as_bool = λ n. if n == 0 then false else true;
  as_bool-zero = refl;
  as_bool-one = refl;
}

abbrev refs_of : ℕ → Option ℕ
refs_of id = if id == 7 then some 20 else none

refs_of-word : (id r : ℕ) → refs_of id ≡ some r → r < 4294967296
refs_of-word id r h = ground arith

abbrev moved : List Param
moved = u32_param 20 ∷ f32_param 5 ∷ f32_param 6 ∷ f32_param 7 ∷ []

size_of_moved : length (params_bytes moved) ≡ 16
unfolding encode_params encode_into
size_of_moved = refl

moved_run :
    execute engine op_set_pos (params_bytes moved) bridge ≡ (1 ∷ [], record bridge { game = 5 })
unfolding execute execute_placed encode_params encode_into word_at byte_at
moved_run = refl

moved_served :
    serve engine [] bridge (piece (request 1 op_set_pos moved))
    ≡ some (encode_pipe_return 1 (1 ∷ []) ++ [], ([], record bridge { game = 5 }))
unfolding serve turn dispatch_all dispatch execute execute_placed encode_params encode_into word_at
    byte_at request split_frames encode_frame encode_pipe_return take_event_frames
moved_served = refl

no_answer_yet : (take_from 1 client.returns).0 ≡ none
unfolding take_from
no_answer_yet = refl

abbrev moved_left : List ℕ × Bridge ℕ
moved_left = ([], record bridge { game = 5 })

execute-serve_example :
    ((Ipc.execute of_le client op_set_pos moved (encode_pipe_return 1 (1 ∷ []) ∷ [])).1.0
      ≡ as_result of_le (execute engine op_set_pos (params_bytes moved) bridge).0)
    × (moved_left ≡ (
      [],
      record (execute engine op_set_pos (params_bytes moved) bridge).1 { event_queue = [] },
    ))
unfolding encode_pipe_return encode_frame stream
execute-serve_example =
    execute-serve engine of_le client bridge op_set_pos moved (encode_pipe_return 1 (1 ∷ []) ∷ [])
      [] moved_left refl (omega arith) (omega arith) refl no_answer_yet
      (omega (arith, size_of_moved)) (rw moved_run (omega arith)) tt tt (rw moved_run refl)
      moved_served (omega arith, tt)

packet_commands-applied_example :
    run_commands engine (packet_commands numbers layout 9 refs_of (update_pos 7 (5, 6, 7))) bridge
    ≡ record bridge { game = applied numbers layout engine 9 refs_of (update_pos 7 (5, 6, 7)) 0 }
packet_commands-applied_example =
    packet_commands-applied numbers layout engine bridge 9 refs_of (update_pos 7 (5, 6, 7))
      refs_of-word (λ v. omega arith) tt

abbrev seen_before : List ℕ
seen_before = 1 ∷ 2 ∷ []

abbrev seen_now : List ℕ
seen_now = 2 ∷ 3 ∷ []

npc_diff_iff_example :
    (contains (npc_diff seen_before seen_now).0.0 3
      ≡ contains seen_now 3 && (not (3 == local_player_ref) && not (contains seen_before 3)))
    × ((contains (npc_diff seen_before seen_now).0.1 3
          ≡ contains seen_before 3 && not (contains seen_now 3))
        × (contains (npc_diff seen_before seen_now).1 3
            ≡ (contains seen_before 3 || contains (npc_diff seen_before seen_now).0.0 3)
              && not (contains (npc_diff seen_before seen_now).0.1 3)))
npc_diff_iff_example = npc_diff_iff seen_before seen_now 3
