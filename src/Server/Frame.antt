-- ===== src/Server/Frame.antt =====
-- What every part of crates/ashfall-server/src/dedicated.rs that sends or ends sessions keeps: an invariant
-- of the sessions, the configuration and what is sent.
use ashfall.Prelude.{ℕ, ◌≡◌, refl, Bool, true, Option, none, some, List, [], ◌∷◌, ◌++◌, nat_eq, All}
use ashfall.Map
use ashfall.Map.{Map}
use ashfall.Reliable.{Bytes}
use ashfall.Network.{NetworkManager, Sent, ok, err}
use ashfall.Packet.{Packet, ownership_released}
use ashfall.Session.{Session}
use ashfall.Script.{Call, ScriptState, on_player_disconnect}
use ashfall.World.Registry
use ashfall.World.Registry.{ObjectRegistry, release_player_owned}
use ashfall.Server.{
  Platform, DedicatedServer, after_scripts, ingame_addrs, bind_for, hand_over, notify, send,
  send_each, send_all, release_each, set_registry, leave, end_session, disconnect,
}

-- A property that rests on the sessions, the configuration and what is sent: it stays where a packet
-- goes to an address that is allowed, where a session changes but not its state, and where one ends.
pub record Kept {F D M : Type 0} (P : DedicatedServer F D M → Type 0) (allowed : ℕ → Bool)
    : Type 0 where
  pub same :
      (s t : DedicatedServer F D M)
      → t.sessions ≡ s.sessions
      → t.config ≡ s.config
      → t.out ≡ s.out
      → P s
      → P t
  pub sends :
      (s : DedicatedServer F D M) (addr : ℕ) (frame : Bytes)
      → allowed addr ≡ true
      → P s
      → P (record s { out = s.out ++ (addr, frame) ∷ [] })
  pub updates :
      (s : DedicatedServer F D M) (addr : ℕ) (old new : Session)
      → Map.lookup s.sessions addr ≡ some old
      → new.state ≡ old.state
      → P s
      → P (record s { sessions = Map.insert s.sessions addr new })
  pub removes :
      (s : DedicatedServer F D M) (addr : ℕ)
      → P s
      → P (record s { sessions = Map.remove s.sessions addr })
  pub recipients :
      (s : DedicatedServer F D M) → P s → All (λ addr. allowed addr ≡ true) (ingame_addrs s)

abbrev pub anyone : ℕ → Bool
anyone addr = true

pub everyone : (addrs : List ℕ) → All (λ addr. anyone addr ≡ true) addrs
everyone [] = tt
everyone (addr ∷ addrs) = (refl, everyone addrs)

module _ {F D M : Type 0} (p : Platform F D M) {P : DedicatedServer F D M → Type 0}
    {allowed : ℕ → Bool} (k : Kept P allowed) where
  pub scripts-Kept :
      (s : DedicatedServer F D M) (w : List M × ScriptState F) → P s → P (after_scripts s w)
  unfolding after_scripts
  scripts-Kept s w h = k.same s (after_scripts s w) refl refl refl h

  pub notify-Kept : (s : DedicatedServer F D M) (call : Call F) → P s → P (notify p s call)
  unfolding notify
  notify-Kept s call h = scripts-Kept s _ h

  bind-Kept :
      (s : DedicatedServer F D M) (addr : ℕ) (packet : Packet F) (o : Option Session)
      → Map.lookup s.sessions addr ≡ o
      → P s
      → P (bind_for s addr packet o).1
  unfolding bind_for
  bind-Kept s addr packet none e h = h
  bind-Kept s addr packet (some session) e h = k.updates s addr session _ e refl h

  over-Kept :
      (s : DedicatedServer F D M) (addr : ℕ) (r : Sent (Bytes × NetworkManager))
      → allowed addr ≡ true
      → P s
      → P (hand_over s addr r)
  unfolding hand_over
  over-Kept s addr (ok (frame, network)) a h =
      k.same (record s { out = s.out ++ (addr, frame) ∷ [] }) _ refl refl refl
        (k.sends s addr frame a h)
  over-Kept s addr (err e) a h = h

  pub send-Kept :
      (s : DedicatedServer F D M) (addr : ℕ) (packet : Packet F) (now : ℕ)
      → allowed addr ≡ true
      → P s
      → P (send p s addr packet now)
  unfolding send
  send-Kept s addr packet now a h =
      over-Kept _ addr _ a (bind-Kept s addr packet (Map.lookup s.sessions addr) refl h)

  pub send_each-Kept :
      (s : DedicatedServer F D M) (addrs : List ℕ) (packet : Packet F) (now : ℕ)
      → All (λ addr. allowed addr ≡ true) addrs
      → P s
      → P (send_each p s addrs packet now)
  unfolding send_each
  send_each-Kept s [] packet now a h = h
  send_each-Kept s (addr ∷ addrs) packet now (a, more) h =
      send_each-Kept (send p s addr packet now) addrs packet now more
        (send-Kept s addr packet now a h)

  pub send_all-Kept :
      (s : DedicatedServer F D M) (addr : ℕ) (packets : List (Packet F)) (now : ℕ)
      → allowed addr ≡ true
      → P s
      → P (send_all p s addr packets now)
  unfolding send_all
  send_all-Kept s addr [] now a h = h
  send_all-Kept s addr (packet ∷ packets) now a h =
      send_all-Kept (send p s addr packet now) addr packets now a (send-Kept s addr packet now a h)

  release_each-Kept :
      (s : DedicatedServer F D M) (ids addrs : List ℕ) (now : ℕ)
      → All (λ addr. allowed addr ≡ true) addrs
      → P s
      → P (release_each p s ids addrs now)
  unfolding release_each
  release_each-Kept s [] addrs now a h = h
  release_each-Kept s (id ∷ ids) addrs now a h =
      release_each-Kept (send_each p s addrs (ownership_released id) now) ids addrs now a
        (send_each-Kept s addrs (ownership_released id) now a h)

  registry-Kept : (s : DedicatedServer F D M) (r : ObjectRegistry F) → P s → P (set_registry s r)
  unfolding set_registry
  registry-Kept s r h = k.same s (set_registry s r) refl refl refl h

  pub leave-Kept :
      (s : DedicatedServer F D M) (player_id : Option ℕ) (now : ℕ)
      → P s
      → P (leave p s player_id now)
  unfolding leave
  leave-Kept s none now h = h
  leave-Kept s (some player_id) now h =
      let told = notify p s (on_player_disconnect player_id 4) in
      let (released, r) = release_player_owned told.dispatcher.registry player_id in
      let freed = set_registry told r in
      let h' : P freed =
        registry-Kept told r (notify-Kept s (on_player_disconnect player_id 4) h) in
      let sent = release_each p freed released (ingame_addrs freed) now in
      registry-Kept sent (Registry.remove sent.dispatcher.registry player_id).1
        (release_each-Kept freed released (ingame_addrs freed) now (k.recipients freed h') h')

  end-Kept :
      (s : DedicatedServer F D M) (addr : ℕ) (o : Option Session) (now : ℕ)
      → P s
      → P (end_session p s addr o now)
  unfolding end_session
  end-Kept s addr none now h = h
  end-Kept s addr (some session) now h =
      k.same _ _ refl refl refl (leave-Kept _ session.player_id now (k.removes s addr h))

  pub disconnect-Kept :
      (s : DedicatedServer F D M) (addr : ℕ) (now : ℕ) → P s → P (disconnect p s addr now)
  unfolding disconnect
  disconnect-Kept s addr now h = end-Kept s addr (Map.lookup s.sessions addr) now h
