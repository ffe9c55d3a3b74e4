-- ===== src/Server/Recv/Login.antt =====
-- What a login keeps, and so a datagram of any kind: `handle_auth` and `handle_recv` of
-- crates/ashfall-server/src/dedicated.rs.
use ashfall.Prelude.{
  ℕ, ◌+◌, ◌≡◌, refl, inl, inr, Bool, true, false, Bool-cases, Option, none, some, List, [], ◌∷◌,
  ◌++◌, leb, length, nat_eq,
}
use ashfall.Map
use ashfall.StringCache.{Text}
use ashfall.Reliable.{Bytes}
use ashfall.Network.{try_recv}
use ashfall.Network.Rate.{check_rate}
use ashfall.Packet.{Packet, game_auth, game_end, server_settings}
use ashfall.Session.{Session, in_game}
use ashfall.Script.{on_spawn, on_client_authenticate, spawn_cell}
use ashfall.World.Objects.{a_player, new_player}
use ashfall.World.Registry
use ashfall.Dispatch
use ashfall.Dispatch.{handle_connection}
use ashfall.Server.{
  Platform, DedicatedServer, notify, send_all, shared, after_scripts, set_registry,
}
use ashfall.Server.Frame.{Kept, notify-Kept, scripts-Kept, send-Kept, send_all-Kept}
use ashfall.Server.Recv.Kept.{others-Kept, ask-Kept, routed-Kept}
use ashfall.Server.Recv.{
  with_session, welcome, opened, voted, handle_auth, received, handle_recv, ask_scripts, own_packet,
  clock_packet, denied, full,
}

-- `P` holds until the new session is entered at the address, and `Q` from there on.
module _ {F D M : Type 0} (p : Platform F D M) {P Q : DedicatedServer F D M → Type 0}
    {allowed : ℕ → Bool} (k : Kept P allowed) (l : Kept Q allowed) (addr : ℕ)
    (own : allowed addr ≡ true)
    (enter : (s : DedicatedServer F D M) (session : Session)
      → P s
      → Q (with_session s addr session))
    (weaken : (s : DedicatedServer F D M) → P s → Q s) where
  welcome-Kept :
      (s : DedicatedServer F D M) (session : Session) (now : ℕ)
      → P s
      → Q (welcome p s addr session now)
  unfolding welcome set_registry
  welcome-Kept s session now h =
      let (player_id, r) = Registry.allocate_id s.dispatcher.registry in
      let allocated = set_registry s r in
      let (cell, w) = spawn_cell p.run allocated.instances player_id (shared allocated) in
      let asked = after_scripts allocated w in
      let r' =
        (Registry.insert asked.dispatcher.registry
          (a_player (new_player p.float player_id 0x14 0x07 cell))).1 in
      let inserted = set_registry asked r' in
      let session' = record session { player_id = some player_id; state = in_game } in
      let spawned = notify p inserted (on_spawn player_id) in
      let own_packets = own_packet (Registry.get spawned.dispatcher.registry player_id) in
      let introduced = send_all p spawned addr own_packets now in
      let packets =
        Dispatch.send_world_state p.float introduced.dispatcher session'
        ++ server_settings introduced.config.pvp_enabled ∷ clock_packet introduced ∷ [] in
      let present = with_session introduced addr session' in
      let entered = send_all p present addr packets now in
      let h1 : P asked = scripts-Kept p k allocated w (k.same s allocated refl refl refl h) in
      let h2 : P spawned =
        notify-Kept p k inserted (on_spawn player_id) (k.same asked inserted refl refl refl h1) in
      let h3 : Q present =
        enter introduced session' (send_all-Kept p k spawned addr own_packets now own h2) in
      others-Kept p l entered addr (own_packet (Registry.get entered.dispatcher.registry player_id))
        now (send_all-Kept p l present addr packets now own h3)

  opened-Kept :
      (s : DedicatedServer F D M) (now : ℕ) (r : Option Session × List (Packet F))
      → P s
      → Q (opened p s addr now r)
  unfolding opened
  opened-Kept s now (none, responses) h =
      weaken (send_all p s addr responses now) (send_all-Kept p k s addr responses now own h)
  opened-Kept s now (some session, responses) h =
      welcome-Kept (send_all p s addr responses now) session now
        (send_all-Kept p k s addr responses now own h)

  voted-Kept :
      (b : Bool) (s : DedicatedServer F D M) (name password version : Text) (session_id now : ℕ)
      → P s
      → Q (voted p s addr name password version session_id now b)
  unfolding voted
  voted-Kept false s name password version session_id now h =
      send-Kept p l s addr (game_end denied) now own (weaken s h)
  voted-Kept true s name password version session_id now h =
      opened-Kept s now
        (handle_connection p.float s.dispatcher addr name password version session_id now) h

  auth-Kept :
      (s : DedicatedServer F D M) (name password version : Text) (now : ℕ)
      → (leb s.config.connections (length s.sessions.entries) ≡ false → P s)
      → Q s
      → Q (handle_auth p s addr name password version now)
  unfolding handle_auth
  auth-Kept s name password version now room h =
      elim (Bool-cases (leb s.config.connections (length s.sessions.entries))) [
        | inl e ↦ rw e (send-Kept p l s addr (game_end full) now own h)
        | inr e ↦
            let counted = record s { next_guid = s.next_guid + 1 } in
            let call = on_client_authenticate name password in
            let (allows, asked) = ask_scripts p counted call in
            rw e (
              voted-Kept allows asked name password version s.next_guid now
                (ask-Kept p k counted call (k.same s counted refl refl refl (room e))))
      ]

  received-Kept :
      (s : DedicatedServer F D M) (bytes now : ℕ) (o : Option (Packet F))
      → (leb s.config.connections (length s.sessions.entries) ≡ false → P s)
      → Q s
      → Q (received p s addr bytes now o)
  unfolding received
  received-Kept s bytes now none room h = h
  received-Kept s bytes now (some (game_auth name password version)) room h =
      auth-Kept s name password version now room h
  received-Kept s bytes now (some packet) room h =
      routed-Kept p l s addr packet bytes now (Map.lookup s.sessions addr) refl own h

  pub handle_recv-Kept :
      (s : DedicatedServer F D M) (bytes : Bytes) (now : ℕ)
      → (leb s.config.connections (length s.sessions.entries) ≡ false → P s)
      → Q s
      → Q (handle_recv p s addr bytes now)
  unfolding handle_recv
  handle_recv-Kept s bytes now room h =
      let (passes, limiters) = check_rate p.double s.rate_limiters addr now in
      let limited = record s { rate_limiters = limiters } in
      let network = (try_recv p.codec s.network addr bytes now).1 in
      let read = record limited { network = network } in
      elim (Bool-cases passes) [
        | inl e ↦ rw e (
            received-Kept read (length bytes) now (try_recv p.codec s.network addr bytes now).0
              (λ r. k.same s read refl refl refl (room r)) (l.same s read refl refl refl h))
        | inr e ↦ rw e (l.same s limited refl refl refl h)
      ]
