-- ===== src/Bridge/Debug.antt =====
-- The commands of `execute` in crates/ashfall-bridge/src/commands.rs that serve debugging, and the forms of an
-- answer.
use ashfall.Prelude.{
  ℕ, zero, suc, ◌+◌, List, [], ◌∷◌, ◌++◌, ltb, ◌==◌, nat_eq, if◌then◌else◌, length, to_le_bytes4,
}
use ashfall.Reliable.{Bytes}
use ashfall.Pipe.Events.{word_at}
use ashfall.Bridge.{Bridge, Engine, report_player_state, track_actor, untrack_actor}
use ashfall.Bridge.Opcodes.{
  op_probe_saves, op_report_player_state, op_track_actor, op_untrack_actor, op_dump_image,
  op_probe_ptr, op_vcall_test0, op_vcall_test, op_probe_form, op_probe_code,
}

-- The addresses whose code is probed.
abbrev probe_addrs : List ℕ
probe_addrs =
    0x455190 ∷ 0x711EF0 ∷ 0x517950 ∷ 0x787530 ∷ 0x43CDA0 ∷ 0x62B5D0 ∷ 0x788B30 ∷ 0x401000 ∷ 0x401010
    ∷ 0x1224B84 ∷ 0x106CDCC ∷ 0x400000 ∷ 0x9C43A5 ∷ 0x8C9CE0 ∷ 0x8C9CE5 ∷ 0x8C9CEB ∷ 0x8C9D52 ∷ []

module _ {G : Type 0} where
  -- What a command leaves, where it answers that it was done, with a number, or with bytes.
  abbrev on_game : Bridge G → G → Bridge G
  on_game b g = record b { game = g }

  abbrev pub done : Bridge G → G → Bytes × Bridge G
  done b g = (1 ∷ [], on_game b g)

  abbrev pub reports : Bridge G → ℕ × G → Bytes × Bridge G
  reports b r = (to_le_bytes4 r.0, on_game b r.1)

  abbrev bytes_from : Bridge G → Bytes × G → Bytes × Bridge G
  bytes_from b r = (r.0, on_game b r.1)

  -- A command with too few bytes of parameters is not run.
  abbrev pub with_bytes : ℕ → Bytes → Bridge G → Bytes × Bridge G → Bytes × Bridge G
  with_bytes n params b r = if ltb (length params) n then ([], b) else r

module _ {G : Type 0} (e : Engine G) where
  -- Words of memory: where there is no object, they are 0.
  word_of : G → (base offset : ℕ) → ℕ
  word_of g base offset = if base + offset == 0 then 0 else e.rd_u32 g (base + offset)

  words_from : G → (base offset n : ℕ) → Bytes
  unfolding word_of
  words_from g base offset zero = []
  words_from g base offset (suc n) =
      to_le_bytes4 (word_of g base offset) ++ words_from g base (offset + 4) n

  words_at : G → (base n : ℕ) → Bytes
  unfolding words_from
  words_at g base n = words_from g base 0 n

  form_bytes : G → ℕ → Bytes
  unfolding words_at
  form_bytes g obj =
      let vtable = word_of g obj 0 in
      to_le_bytes4 obj
      ++ to_le_bytes4 vtable
      ++ words_at g vtable 128
      ++ words_from g obj 0x2C 3
      ++ words_at g obj 64

  code_bytes : G → List ℕ → Bytes
  code_bytes g [] = []
  code_bytes g (addr ∷ addrs) = to_le_bytes4 addr ++ (e.read_bytes g addr 16 ++ code_bytes g addrs)

  vcalled : Bridge G → (obj index : ℕ) → List ℕ → Bytes × Bridge G
  vcalled b obj index args = if obj == 0 then ([], b) else reports b (e.vcall obj index args b.game)

  -- Debugging, and what is sampled. The rest is unknown.
  unfoldable pub execute_debug : ℕ → Bytes → Bridge G → Bytes × Bridge G
  unfolding words_at form_bytes code_bytes vcalled
  execute_debug func params b =
      if func == op_probe_saves
      then bytes_from b (e.probe_saves b.game)
      else if func == op_report_player_state
      then report_player_state e b
      else if func == op_track_actor
      then with_bytes 4 params b (1 ∷ [], track_actor b (word_at params 0))
      else if func == op_untrack_actor
      then with_bytes 4 params b (1 ∷ [], untrack_actor b (word_at params 0))
      else if func == op_dump_image
      then bytes_from b (e.dump_image b.game)
      else if func == op_probe_ptr
      then with_bytes 4 params b (words_at b.game (word_at params 0) 16, b)
      else if func == op_vcall_test0
      then with_bytes 8 params b
          (vcalled b (e.lookup_form_by_id b.game (word_at params 0)) (word_at params 4) [])
      else if func == op_vcall_test
      then with_bytes 12 params b (
          vcalled b (e.lookup_form_by_id b.game (word_at params 0)) (word_at params 4)
            (word_at params 8 ∷ []))
      else if func == op_probe_form
      then with_bytes 4 params b
          (form_bytes b.game (e.lookup_form_by_id b.game (word_at params 0)), b)
      else if func == op_probe_code
      then (code_bytes b.game probe_addrs, b)
      else ([], b)
