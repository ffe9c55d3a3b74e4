-- ===== src/Server/Room.antt =====
-- The number of sessions of the server of crates/ashfall-server/src/dedicated.rs, over everything that
-- `run` does: a datagram from anywhere, or a tick.
use ashfall.Prelude.{ℕ, ◌+◌, ◌≤◌, refl, sym, subst, arith, nat_eq, length}
use ashfall.Map.Laws.{size-insert_present, size-insert-le, size-remove-le}
use ashfall.Reliable.{Bytes}
use ashfall.Server.{Platform, DedicatedServer, ingame_addrs}
use ashfall.Server.Frame.{Kept, anyone, everyone}
use ashfall.Server.Recv.{handle_recv, with_session}
use ashfall.Server.Recv.Login.{handle_recv-Kept}
use ashfall.Server.Tick.{tick}
use ashfall.Server.Tick.Kept.{tick-Kept}

-- What `run` does to the server: a turn of its loop.
pub data Turn {F D M : Type 0} (p : Platform F D M)
    : DedicatedServer F D M → DedicatedServer F D M → Type 0 where
  receives :
      (s : DedicatedServer F D M) (addr : ℕ) (bytes : Bytes) (now : ℕ)
      → Turn p s (handle_recv p s addr bytes now)
  ticks : (s : DedicatedServer F D M) (now : ℕ) → Turn p s (tick p s now)

pub data Runs {F D M : Type 0} (p : Platform F D M) (s : DedicatedServer F D M)
    : DedicatedServer F D M → Type 0 where
  here : Runs p s s
  next : {t u : DedicatedServer F D M} → Runs p s t → Turn p t u → Runs p s u

module _ {F D M : Type 0} where
  -- The sessions are at most as many as the configuration allows.
  abbrev pub Fits : DedicatedServer F D M → Type 0
  Fits s = length s.sessions.entries ≤ s.config.connections

  -- Room for so many more.
  abbrev HasRoom : ℕ → DedicatedServer F D M → Type 0
  HasRoom more s = length s.sessions.entries + more ≤ s.config.connections

  HasRoom-Kept : (more : ℕ) → Kept (HasRoom more) anyone
  HasRoom-Kept more = record {
    same = λ s t es ec eo h.
        subst (λ m. length m.entries + more ≤ t.config.connections) (sym es)
          (subst (λ c. length s.sessions.entries + more ≤ c.connections) (sym ec) h);
    sends = λ s addr frame a h. h;
    updates = λ s addr old new e st h. omega (arith, size-insert_present s.sessions addr new old e);
    removes = λ s addr h. omega (arith, size-remove-le s.sessions addr);
    recipients = λ s h. everyone (ingame_addrs s);
  }

  recv-Fits :
      (p : Platform F D M) (s : DedicatedServer F D M) (addr : ℕ) (bytes : Bytes) (now : ℕ)
      → Fits s
      → Fits (handle_recv p s addr bytes now)
  unfolding with_session
  recv-Fits p s addr bytes now h =
      let kept : HasRoom 0 (handle_recv p s addr bytes now) =
        handle_recv-Kept p (HasRoom-Kept 1) (HasRoom-Kept 0) addr refl
          (λ t session room. omega (arith, size-insert-le t.sessions addr session))
          (λ t room. omega arith) s bytes now (λ e. ground arith) (omega arith) in
      omega arith

  tick-Fits :
      (p : Platform F D M) (s : DedicatedServer F D M) (now : ℕ) → Fits s → Fits (tick p s now)
  tick-Fits p s now h =
      let kept : HasRoom 0 (tick p s now) =
        tick-Kept p (HasRoom-Kept 0) everyone (λ u out g. g) s now (omega arith) in
      omega arith

  -- Whatever arrives from wherever, and whatever the scripts do in between, the server never has more
  -- sessions than its configuration allows.
  pub Runs-Fits : (p : Platform F D M) {s t : DedicatedServer F D M} → Fits s → Runs p s t → Fits t
  Runs-Fits p h here = h
  Runs-Fits p h (next r (receives t addr bytes now)) =
      recv-Fits p t addr bytes now (Runs-Fits p h r)
  Runs-Fits p h (next r (ticks t now)) = tick-Fits p t now (Runs-Fits p h r)
