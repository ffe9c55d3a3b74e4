-- ===== src/Pipe/Ipc/Chunks.antt =====
-- crates/ashfall-client/src/ipc/mod.rs: the client reads the same frames however the stream is cut.
use ashfall.Prelude.{
  ℕ, ◌<◌, ◌≡◌, ◌⊎◌, refl, sym, ◌∙◌, inl, inr, Bool, true, false, Bool-cases, Option, none, some,
  Option-cases, List, [], ◌∷◌, ◌++◌, arith, append_assoc, append-nil, map-append, ◌==◌, nat_eq,
  length, flatten, All, map, filterb, filterb-append,
}
use ashfall.Reliable.{Bytes}
use ashfall.Pipe.{PipeFrame, encode_frame, split_frames}
use ashfall.Pipe.Stream.{split_frames-append, split_frames-encode_frame}
use ashfall.Pipe.Ipc.{
  IpcClient, CommandResult, pipe_op_event, pipe_op_return, take_from, take_found, take_return,
  or_later, route, ingest, await_return, decode,
}

-- The bytes of frames in a row.
unfoldable pub stream : List PipeFrame → Bytes
stream [] = []
stream (f ∷ fs) = encode_frame f.opcode f.payload ++ stream fs

-- The length of a payload has two bytes in its frame.
abbrev pub Fits : PipeFrame → Type 0
Fits f = length f.payload < 65536

split_frames-stream : (fs : List PipeFrame) → All Fits fs → split_frames (stream fs) ≡ (fs, [])
unfolding stream split_frames
split_frames-stream [] h = refl
split_frames-stream (f ∷ fs) h =
    rw (split_frames-encode_frame f.opcode f.payload (stream fs) h.0, split_frames-stream fs h.1)
      refl

abbrev pub is_event : PipeFrame → Bool
is_event f = f.opcode == pipe_op_event

abbrev pub is_return : PipeFrame → Bool
is_return f = f.opcode == pipe_op_return

-- What a client keeps of frames, in their order.
abbrev pub kept : List PipeFrame → IpcClient → IpcClient
kept fs c = record c {
  event_buf = c.event_buf ++ filterb is_event fs;
  returns = c.returns ++ map (λ (f : PipeFrame). f.payload) (filterb is_return fs);
}

event-not_return : (f : PipeFrame) → is_event f ≡ true → is_return f ≡ false
event-not_return f h = ground arith

route-kept : (fs : List PipeFrame) (c : IpcClient) → route fs c ≡ kept fs c
unfolding route
route-kept [] c = rw (append-nil c.event_buf, append-nil c.returns) refl
route-kept (f ∷ fs) c = elim (Bool-cases (is_event f)) [
  | inl event ↦ rw (event, event-not_return f event) (route-kept fs _ ∙ rw append_assoc refl)
  | inr other ↦ elim (Bool-cases (is_return f)) [
    | inl answer ↦ rw (other, answer) (route-kept fs _ ∙ rw append_assoc refl)
    | inr neither ↦ rw (other, neither) (route-kept fs c)
  ]
]

kept-append : (fs gs : List PipeFrame) (c : IpcClient) → kept (fs ++ gs) c ≡ kept gs (kept fs c)
kept-append fs gs c =
    rw
      (
        filterb-append is_event fs gs,
        filterb-append is_return fs gs,
        map-append,
        append_assoc c.event_buf,
        append_assoc c.returns,
      )
      refl

-- Ingesting two pieces is ingesting both at once.
ingest-append : (c : IpcClient) (xs ys : Bytes) → ingest (ingest c xs) ys ≡ ingest c (xs ++ ys)
unfolding ingest
ingest-append c xs ys =
    rw (route-kept (split_frames (c.read_buf ++ xs)).0 _, route-kept, route-kept)
      (rw (← append_assoc c.read_buf xs ys) (
        rw (split_frames-append (c.read_buf ++ xs) ys) (
          sym (
            kept-append (split_frames (c.read_buf ++ xs)).0
              (split_frames ((split_frames (c.read_buf ++ xs)).1 ++ ys)).0
              (record c {
                read_buf = (split_frames ((split_frames (c.read_buf ++ xs)).1 ++ ys)).1;
              })))))

unfoldable pub ingest_all : IpcClient → List Bytes → IpcClient
ingest_all c [] = c
ingest_all c (piece ∷ pieces) = ingest_all (ingest c piece) pieces

ingest_all-flatten :
    (c : IpcClient) (piece : Bytes) (pieces : List Bytes)
    → ingest_all c (piece ∷ pieces) ≡ ingest c (piece ++ flatten pieces)
unfolding ingest_all
ingest_all-flatten c piece [] = rw append-nil refl
ingest_all-flatten c piece (next ∷ pieces) =
    rw (ingest-append c piece next, ingest_all-flatten c (piece ++ next) pieces, append_assoc) refl

ingest-stream :
    (c : IpcClient) (fs : List PipeFrame)
    → c.read_buf ≡ []
    → All Fits fs
    → ingest c (stream fs) ≡ kept fs c
unfolding ingest
ingest-stream c fs fresh fits =
    rw (fresh, split_frames-stream fs fits) (route-kept fs _ ∙ rw (← fresh) refl)

-- Whatever pieces a stream of whole frames arrives in, a client that had no part of a frame keeps just
-- the events and the answers of those frames, in their order, and no byte is left over.
pub ingest_all-stream :
    (c : IpcClient) (pieces : List Bytes) (fs : List PipeFrame)
    → c.read_buf ≡ []
    → All Fits fs
    → flatten pieces ≡ stream fs
    → ingest_all c pieces ≡ kept fs c
unfolding ingest_all stream encode_frame
ingest_all-stream c [] [] fresh fits whole = rw (append-nil c.event_buf, append-nil c.returns) refl
ingest_all-stream c [] (f ∷ fs) fresh fits whole = cc
ingest_all-stream c (piece ∷ pieces) fs fresh fits whole =
    ingest_all-flatten c piece pieces ∙ rw whole (ingest-stream c fs fresh fits)

nonzero : (n : ℕ) → 0 < n → (n == 0) ≡ false
nonzero n h = ground arith

take_from-append :
    (key : ℕ) (ps qs : List Bytes) (p : Bytes)
    → (take_from key ps).0 ≡ some p
    → (take_from key (ps ++ qs)).0 ≡ some p
unfolding take_from
take_from-append key [] qs p h = cc
take_from-append key (x ∷ ps) qs p h = ground (arith, take_from-append key ps qs p)

ingest-found :
    (key : ℕ) (c : IpcClient) (piece p : Bytes)
    → (take_from key c.returns).0 ≡ some p
    → (take_from key (ingest c piece).returns).0 ≡ some p
unfolding ingest
ingest-found key c piece p h =
    rw
      (route-kept (split_frames (c.read_buf ++ piece)).0
        (record c { read_buf = (split_frames (c.read_buf ++ piece)).1 }))
      (take_from-append key c.returns _ p h)

ingest_all-found :
    (key : ℕ) (c : IpcClient) (pieces : List Bytes) (p : Bytes)
    → (take_from key c.returns).0 ≡ some p
    → (take_from key (ingest_all c pieces).returns).0 ≡ some p
unfolding ingest_all
ingest_all-found key c [] p h = h
ingest_all-found key c (piece ∷ pieces) p h =
    ingest_all-found key (ingest c piece) pieces p (ingest-found key c piece p h)

module _ {F : Type 0} (of_le_bytes : ℕ → ℕ → ℕ → ℕ → F) where
  found_now :
      (c : IpcClient) (t : Option Bytes × List Bytes) (later : CommandResult F × IpcClient)
      (p : Bytes)
      → (t.0 ≡ some p) ⊎ ((t.0 ≡ none) × (later.0 ≡ decode of_le_bytes p))
      → (or_later of_le_bytes (take_found c t) later).0 ≡ decode of_le_bytes p
  unfolding or_later take_found
  found_now c (none, others) later p (inl h) = cc
  found_now c (none, others) later p (inr h) = h.1
  found_now c (some q, others) later p (inl h) = ground arith
  found_now c (some q, others) later p (inr h) = cc

  -- An answer that is among those at the end is the one that `execute` returns.
  await_return-ingest_all :
      (key : ℕ) (c : IpcClient) (pieces : List Bytes) (p : Bytes)
      → All (λ (piece : Bytes). 0 < length piece) pieces
      → (take_from key (ingest_all c pieces).returns).0 ≡ some p
      → (await_return of_le_bytes key c pieces).0 ≡ decode of_le_bytes p
  unfolding await_return ingest_all take_return
  await_return-ingest_all key c [] p full h = found_now c (take_from key c.returns) _ p (inl h)
  await_return-ingest_all key c (piece ∷ pieces) p full h =
      found_now c (take_from key c.returns) _ p (elim (Option-cases (take_from key c.returns).0) [
        | inl missing ↦ inr (
          missing,
          rw (nonzero (length piece) full.0)
              (await_return-ingest_all key (ingest c piece) pieces p full.1 h),
        )
        | inr (q, found) ↦ inl (found ∙ sym (ingest_all-found key c (piece ∷ pieces) q found) ∙ h)
      ])

  -- A command whose answer is the first one with its key among the frames that arrive, in whatever pieces,
  -- and the client had no part of a frame nor an answer with that key: `execute` returns that answer.
  pub await_return-stream :
      (key : ℕ) (c : IpcClient) (pieces : List Bytes) (fs : List PipeFrame) (p : Bytes)
      → c.read_buf ≡ []
      → All Fits fs
      → All (λ (piece : Bytes). 0 < length piece) pieces
      → flatten pieces ≡ stream fs
      → (take_from key (kept fs c).returns).0 ≡ some p
      → (await_return of_le_bytes key c pieces).0 ≡ decode of_le_bytes p
  await_return-stream key c pieces fs p fresh fits full whole h =
      await_return-ingest_all key c pieces p full
        (rw (ingest_all-stream c pieces fs fresh fits whole) h)
