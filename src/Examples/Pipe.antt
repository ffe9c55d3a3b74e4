-- ===== src/Examples/Pipe.antt =====
-- Runs of the stream from the bridge.
use ashfall.Prelude.{
  ℕ, ◌+◌, ◌≡◌, refl, false, some, List, [], ◌∷◌, arith, ◌==◌, nat_eq, ◌<◌, length, take, drop, map,
  flatten,
}
use ashfall.Examples.Numbers.{numbers}
use ashfall.Reliable.{Bytes}
use ashfall.Pipe.{PipeFrame, encode_frame}
use ashfall.Pipe.Events.{encode_ref_event}
use ashfall.Pipe.Ipc.{IpcClient, take_from}
use ashfall.Pipe.Ipc.Chunks.{stream, kept, ingest_all}
use ashfall.ClientSync.{Layout, events_to_packets}
use ashfall.ClientSync.Samples.{
  Emitted, activate, fire, emit, meaning, events_to_packets-ingest_all,
}

abbrev layout : Layout ℕ
layout = record {
  of_bits = λ n. n;
  to_bits = λ x. x;
  as_bool = λ n. n == 1;
  as_bool-zero = refl;
  as_bool-one = refl;
}

abbrev client : IpcClient
client = record { is_stub = false; next_key = 2; returns = []; read_buf = []; event_buf = [] }

-- A shot and an activation, cut within the first frame.
abbrev happened : List Emitted
happened = fire 7 ∷ activate 300 ∷ []

abbrev arrived : List Bytes
arrived = take 5 (flatten (map emit happened)) ∷ drop 5 (flatten (map emit happened)) ∷ []

arrived_whole : flatten arrived ≡ flatten (map emit happened)
unfolding emit encode_ref_event encode_frame
arrived_whole = refl

events_to_packets-ingest_all_example :
    (events_to_packets numbers layout (ingest_all client arrived).event_buf 1
      ≡ flatten (map (meaning numbers layout 1) happened))
    × ((ingest_all client arrived).read_buf ≡ [])
events_to_packets-ingest_all_example =
    events_to_packets-ingest_all numbers layout 1 client arrived happened refl refl
      (omega arith, (omega arith, tt)) arrived_whole

-- An event, and the answer to request 1 behind it.
abbrev frames : List PipeFrame
frames =
    record { opcode = 7; payload = 5 ∷ [] }
    ∷ record { opcode = 3; payload = 1 ∷ 0 ∷ 0 ∷ 0 ∷ [] }
    ∷ []

abbrev pieces : List Bytes
pieces = take 6 (stream frames) ∷ drop 6 (stream frames) ∷ []

pieces_whole : flatten pieces ≡ stream frames
unfolding stream encode_frame
pieces_whole = refl

pieces_full :
    (0 < length (take 6 (stream frames))) × ((0 < length (drop 6 (stream frames))) × Unit {0})
unfolding stream encode_frame
pieces_full = (omega arith, (omega arith, tt))

first_answer : (take_from 1 (kept frames client).returns).0 ≡ some []
unfolding take_from
first_answer = refl

abbrev sum4 : ℕ → ℕ → ℕ → ℕ → ℕ
sum4 a b c d = a + b + c + d
