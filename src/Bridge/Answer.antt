-- ===== src/Bridge/Answer.antt =====
-- A command between the client (crates/ashfall-client/src/ipc) and the bridge in the game's process
-- (crates/ashfall-bridge/src/network.rs): there and back.
use ashfall.Prelude.{
  ℕ, ◌+◌, ◌/◌, ◌≤◌, ◌<◌, leb, min, ◌≡◌, refl, sym, ap, ◌∙◌, Bool, true, false, Option, none, some,
  List, [], ◌∷◌, ◌++◌, arith, append_assoc, append-nil, nat_eq, if◌then◌else◌, length, flatten, All,
  filterb, u8, u32, to_le_bytes4,
}
use ashfall.Reliable.{Bytes}
use ashfall.Pipe.{PipeFrame, encode_frame, split_frames}
use ashfall.Pipe.Stream.{split_frames-encode_frame}
use ashfall.Pipe.Ipc
use ashfall.Pipe.Ipc.{
  Param, u32_param, i32_param, f32_param, bool_param, str_param, u8_param, IpcClient,
  pipe_op_command, pipe_op_return, encode_into, encode_params, request, answers, take_from, decode,
  await_return,
}
use ashfall.Pipe.Ipc.Chunks.{stream, Fits, is_event, is_return, kept, await_return-stream}
use ashfall.Pipe.Events.{IsWord, word_lem}
use ashfall.Bridge.{Bridge, Engine, encode_pipe_return, take_event_frames}
use ashfall.Bridge.Commands.{execute}
use ashfall.Bridge.Serve.{piece, dispatch, dispatch_all, written, turn, serve}

-- The bytes of parameters come behind what was there.
encode_into-append : (q : Param) (buf : Bytes) → encode_into q buf ≡ buf ++ encode_into q []
unfolding encode_into
encode_into-append (u32_param v) buf = refl
encode_into-append (i32_param v) buf = refl
encode_into-append (f32_param v) buf = refl
encode_into-append (u8_param v) buf = refl
encode_into-append (bool_param v) buf = refl
encode_into-append (str_param s) buf = refl

encode_params-append :
    (qs : List Param) (buf : Bytes) → encode_params qs buf ≡ buf ++ encode_params qs []
unfolding encode_params
encode_params-append [] buf = sym (append-nil buf)
encode_params-append (q ∷ qs) buf =
    encode_params-append qs (encode_into q buf)
    ∙ rw (encode_into-append q buf, append_assoc buf (encode_into q []) (encode_params qs []))
        (ap (λ more. buf ++ more) (sym (encode_params-append qs (encode_into q []))))

-- What the parameters of a command look like to the bridge.
abbrev pub params_bytes : List Param → Bytes
params_bytes qs = encode_params qs []

is_return-events :
    (fs : List PipeFrame) → All (λ f. is_event f ≡ true) fs → filterb is_return fs ≡ []
is_return-events [] h = refl
is_return-events (f ∷ fs) (event, more) = ground (arith, is_return-events fs more)

take_from-none :
    (key : ℕ) (ps qs : List Bytes)
    → (take_from key ps).0 ≡ none
    → (take_from key (ps ++ qs)).0 ≡ (take_from key qs).0
unfolding take_from
take_from-none key [] qs h = refl
take_from-none key (x ∷ ps) qs h = ground (arith, take_from-none key ps qs)

take_from-answer :
    (key : ℕ) (result : Bytes)
    → IsWord key
    → (take_from key ((to_le_bytes4 key ++ result) ∷ [])).0 ≡ some result
unfolding take_from answers
take_from-answer key result h = rw (word_lem key h) (ground arith)

split_frames-one :
    (opcode : ℕ) (payload : Bytes)
    → length payload < 65536
    → split_frames (encode_frame opcode payload)
      ≡ (record { opcode = opcode; payload = payload } ∷ [], [])
unfolding split_frames
split_frames-one opcode payload short =
    ap split_frames (sym (append-nil (encode_frame opcode payload)))
    ∙ split_frames-encode_frame opcode payload [] short

-- The payload of a request.
header : (key opcode count : ℕ) → Bytes → Bytes
header key opcode count params = to_le_bytes4 key ++ (to_le_bytes4 opcode ++ (u8 count ∷ params))

request-header :
    (key opcode : ℕ) (qs : List Param)
    → request key opcode qs
      ≡ encode_frame pipe_op_command (header key opcode (length qs) (params_bytes qs))
unfolding request header
request-header key opcode qs =
    ap (encode_frame pipe_op_command)
      (encode_params-append qs (to_le_bytes4 key ++ to_le_bytes4 opcode ++ u8 (length qs) ∷ []))

else_lem : {A : Type 0} (t : Bool) (x y : A) → t ≡ false → (if t then x else y) ≡ y
else_lem true x y h = ground arith
else_lem false x y h = refl

abbrev answer_frame : ℕ → Bytes → PipeFrame
answer_frame key result = record { opcode = pipe_op_return; payload = to_le_bytes4 key ++ result }

found :
    (c : IpcClient) (result : Bytes) (events : List PipeFrame)
    → IsWord c.next_key
    → (take_from c.next_key c.returns).0 ≡ none
    → All (λ f. is_event f ≡ true) events
    → (take_from c.next_key (kept (answer_frame c.next_key result ∷ events) c).returns).0
      ≡ some result
found c result events hk none_yet are_events = rw (is_return-events events are_events) (
    take_from-none c.next_key c.returns ((to_le_bytes4 c.next_key ++ result) ∷ []) none_yet
    ∙ take_from-answer c.next_key result hk)

module _ {G : Type 0} (e : Engine G) where
  dispatch-header :
      (b : Bridge G) (key opcode count : ℕ) (params : Bytes)
      → IsWord key
      → IsWord opcode
      → dispatch e (record { opcode = pipe_op_command; payload = header key opcode count params }) b
        ≡ (encode_pipe_return key (execute e opcode params b).0, (execute e opcode params b).1)
  unfolding dispatch header
  dispatch-header b key opcode count params hk ho = rw (word_lem key hk, word_lem opcode ho) refl

  dispatch_all-header :
      (b : Bridge G) (key opcode count : ℕ) (params : Bytes)
      → IsWord key
      → IsWord opcode
      → dispatch_all e
          (record { opcode = pipe_op_command; payload = header key opcode count params } ∷ [])
          b
        ≡ (encode_pipe_return key (execute e opcode params b).0, (execute e opcode params b).1)
  unfolding dispatch_all
  dispatch_all-header b key opcode count params hk ho =
      ap (λ (r : Bytes × Bridge G). (r.0 ++ [], r.1))
        (dispatch-header b key opcode count params hk ho)
      ∙ ap (λ out. (out, (execute e opcode params b).1))
          (append-nil (encode_pipe_return key (execute e opcode params b).0))

  -- What the bridge makes of a request: the frame of the answer and those of the events, no input left,
  -- and no event queued.
  abbrev reply : Bridge G → (key opcode : ℕ) → Bytes → Bytes × (Bytes × Bridge G)
  reply b key opcode params = (
    encode_pipe_return key (execute e opcode params b).0
        ++ flatten (execute e opcode params b).1.event_queue,
    ([], record (execute e opcode params b).1 { event_queue = [] }),
  )

  -- A request, as the bridge reads it: one frame, whose key and parameters are those of the client.
  turn-request :
      (b : Bridge G) (key opcode : ℕ) (qs : List Param)
      → IsWord key
      → IsWord opcode
      → length (params_bytes qs) < 65527
      → turn e (request key opcode qs) b ≡ reply b key opcode (params_bytes qs)
  unfolding turn header take_event_frames
  turn-request b key opcode qs hk ho short =
      let payload = header key opcode (length qs) (params_bytes qs) in
      ap (λ pending. turn e pending b) (request-header key opcode qs)
      ∙ ap (λ (sp : List PipeFrame × Bytes). written e (dispatch_all e sp.0 b) sp.1)
          (split_frames-one pipe_op_command payload (omega arith))
      ∙ ap (λ (r : Bytes × Bridge G). written e r [])
          (dispatch_all-header b key opcode (length qs) (params_bytes qs) hk ho)

  remains :
      (b : Bridge G) (key opcode : ℕ) (qs : List Param) (out : Bytes) (left : Bytes × Bridge G)
      → IsWord key
      → IsWord opcode
      → length (params_bytes qs) < 65527
      → serve e [] b (piece (request key opcode qs)) ≡ some (out, left)
      → left ≡ ([], record (execute e opcode (params_bytes qs) b).1 { event_queue = [] })
  unfolding serve
  remains b key opcode qs out left hk ho short served =
      let same : some (out, left) ≡ some (reply b key opcode (params_bytes qs)) =
        sym served ∙ ap some (turn-request b key opcode qs hk ho short) in
      let rest : left ≡ (reply b key opcode (params_bytes qs)).1 = cc in rest

  -- What the client gets is the answer's frame, and the events.
  arrived :
      (b : Bridge G) (key opcode : ℕ) (qs : List Param) (events : List PipeFrame)
      → (out : Bytes) (left : Bytes × Bridge G) → IsWord key
      → IsWord opcode
      → length (params_bytes qs) < 65527
      → flatten (execute e opcode (params_bytes qs) b).1.event_queue ≡ stream events
      → serve e [] b (piece (request key opcode qs)) ≡ some (out, left)
      → out ≡ stream (answer_frame key (execute e opcode (params_bytes qs) b).0 ∷ events)
  unfolding serve stream encode_pipe_return
  arrived b key opcode qs events out left hk ho short queued served =
      let same : some (out, left) ≡ some (reply b key opcode (params_bytes qs)) =
        sym served ∙ ap some (turn-request b key opcode qs hk ho short) in
      let first : out ≡ (reply b key opcode (params_bytes qs)).0 = cc in
      first
      ∙ ap (λ more. encode_pipe_return key (execute e opcode (params_bytes qs) b).0 ++ more) queued

twelve : (n : ℕ) → 12 ≤ n → (leb 12 n ≡ true) × (min (n / 4) 3 ≡ 3)
twelve n h = (ground arith, ground arith)

module _ {F : Type 0} (of_le_bytes : ℕ → ℕ → ℕ → ℕ → F) where
  -- What an answer is to the client: twelve bytes and more are three numbers, fewer only a success.
  unfoldable pub as_result : Bytes → Ipc.CommandResult F
  as_result (a ∷ b ∷ c ∷ d ∷ e ∷ g ∷ h ∷ i ∷ j ∷ k ∷ l ∷ m ∷ rest) =
      Ipc.floats (of_le_bytes a b c d ∷ of_le_bytes e g h i ∷ of_le_bytes j k l m ∷ [])
  as_result _ = Ipc.success

  decode-as_result : (bytes : Bytes) → decode of_le_bytes bytes ≡ as_result bytes
  unfolding decode as_result
  decode-as_result [] = refl
  decode-as_result (a ∷ []) = refl
  decode-as_result (a ∷ b ∷ []) = refl
  decode-as_result (a ∷ b ∷ c ∷ []) = refl
  decode-as_result (a ∷ b ∷ c ∷ d ∷ []) = refl
  decode-as_result (a ∷ b ∷ c ∷ d ∷ e ∷ []) = refl
  decode-as_result (a ∷ b ∷ c ∷ d ∷ e ∷ g ∷ []) = refl
  decode-as_result (a ∷ b ∷ c ∷ d ∷ e ∷ g ∷ h ∷ []) = refl
  decode-as_result (a ∷ b ∷ c ∷ d ∷ e ∷ g ∷ h ∷ i ∷ []) = refl
  decode-as_result (a ∷ b ∷ c ∷ d ∷ e ∷ g ∷ h ∷ i ∷ j ∷ []) = refl
  decode-as_result (a ∷ b ∷ c ∷ d ∷ e ∷ g ∷ h ∷ i ∷ j ∷ k ∷ []) = refl
  decode-as_result (a ∷ b ∷ c ∷ d ∷ e ∷ g ∷ h ∷ i ∷ j ∷ k ∷ l ∷ []) = refl
  decode-as_result (a ∷ b ∷ c ∷ d ∷ e ∷ g ∷ h ∷ i ∷ j ∷ k ∷ l ∷ m ∷ rest) =
      rw
        (
          (twelve (length (a ∷ b ∷ c ∷ d ∷ e ∷ g ∷ h ∷ i ∷ j ∷ k ∷ l ∷ m ∷ rest)) (omega arith)).0,
          (twelve (length (a ∷ b ∷ c ∷ d ∷ e ∷ g ∷ h ∷ i ∷ j ∷ k ∷ l ∷ m ∷ rest)) (omega arith)).1,
        )
        refl

module _ {G F : Type 0} (e : Engine G) (of_le_bytes : ℕ → ℕ → ℕ → ℕ → F) where
  -- A command that the client executes, and that the bridge reads in one piece, is run by the bridge with
  -- the opcode and the bytes of the parameters that the client was given: the bridge is then as its
  -- `execute` leaves it, with its events sent and no input left. The client returns the first three words
  -- of the answer as numbers where it has twelve bytes, else a success, in whatever pieces the bytes
  -- arrive, and with whatever events the bridge sends along. This is for parameters and an answer whose
  -- lengths fit their frames, and a client that has no part of a frame and no answer with the key that
  -- it is about to use.
  pub execute-serve :
      (c : IpcClient) (b : Bridge G) (opcode : ℕ) (qs : List Param) (pieces : List Bytes)
      → (events : List PipeFrame) (left : Bytes × Bridge G) → c.is_stub ≡ false
      → IsWord c.next_key
      → IsWord opcode
      → c.read_buf ≡ []
      → (take_from c.next_key c.returns).0 ≡ none
      → length (params_bytes qs) < 65527
      → length (execute e opcode (params_bytes qs) b).0 < 65532
      → All Fits events
      → All (λ f. is_event f ≡ true) events
      → flatten (execute e opcode (params_bytes qs) b).1.event_queue ≡ stream events
      → serve e [] b (piece (request c.next_key opcode qs)) ≡ some (flatten pieces, left)
      → All (λ (bytes : Bytes). 0 < length bytes) pieces
      → ((Ipc.execute of_le_bytes c opcode qs pieces).1.0
          ≡ as_result of_le_bytes (execute e opcode (params_bytes qs) b).0)
        × (left ≡ ([], record (execute e opcode (params_bytes qs) b).1 { event_queue = [] }))
  unfolding serve Ipc.execute
  execute-serve c b opcode qs pieces events left stub hk ho fresh none_yet short fits efits
        are_events queued served full =
      (
        ap (λ (r : Option Bytes × (Ipc.CommandResult F × IpcClient)). r.1.0)
              (else_lem c.is_stub _ _ stub)
            ∙ await_return-stream of_le_bytes c.next_key
                (record c { next_key = u32 (c.next_key + 1) }) pieces
                (answer_frame c.next_key (execute e opcode (params_bytes qs) b).0 ∷ events)
                (execute e opcode (params_bytes qs) b).0 fresh (omega arith, efits) full
                (arrived e b c.next_key opcode qs events (flatten pieces) left hk ho short queued
                  served)
                (found c (execute e opcode (params_bytes qs) b).0 events hk none_yet are_events)
            ∙ decode-as_result of_le_bytes (execute e opcode (params_bytes qs) b).0,
        remains e b c.next_key opcode qs (flatten pieces) left hk ho short served,
      )
