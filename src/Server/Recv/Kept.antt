-- ===== src/Server/Recv/Kept.antt =====
-- What a datagram keeps, up to the login of a new session: `handle_recv` of
-- crates/ashfall-server/src/dedicated.rs.
use ashfall.Prelude.{
  ℕ, ◌≡◌, refl, inl, inr, Bool, true, false, Bool-cases, Option, none, some, List, [], ◌∷◌, ◌++◌,
  ◌==◌, nat_eq, nat_beq_iff, arith, All, filterb,
}
use ashfall.Map
use ashfall.Map.{Map}
use ashfall.Map.Laws.{lookup-insert}
use ashfall.Map.Iter.{other_than}
use ashfall.StringCache.{resolve}
use ashfall.Packet.{Packet, Cells, update_context, game_chat, actor_hit}
use ashfall.Session.{Session, update_cell_context, record_recv}
use ashfall.Script.{Call, on_player_chat, on_hit}
use ashfall.World.Registry.{ObjectRegistry}
use ashfall.Handlers.Actor.{same_id}
use ashfall.Handlers.Player.{handle_update_context}
use ashfall.Float.{Float}
use ashfall.Dispatch.{Dispatcher, DispatchResult, dispatch}
use ashfall.Server.{Platform, DedicatedServer, notify, send_each, send_all, ingame_addrs}
use ashfall.Server.Frame.{
  Kept, notify-Kept, scripts-Kept, send_each-Kept, send_all-Kept, disconnect-Kept,
}
use ashfall.Server.Recv.Notices.{
  notify_each, notify_packets, notify_deaths, notices, deaths, player_id_at,
}
use ashfall.Server.Recv.{
  with_session, ask_scripts, gate, end_if, send_others, notify_cell, deliver, dispatched, passed,
  routed, center_cell, or_zero,
}

module _ {F : Type 0} where
  context-state :
      (r : ObjectRegistry F) (s : Session) (id : ℕ) (cells : Cells) (spawn : Bool)
      → (handle_update_context r s id cells spawn).1.0.state ≡ s.state
  unfolding handle_update_context update_cell_context
  context-state r s id cells spawn = elim (Bool-cases (same_id s.player_id (some id))) [
    | inl e ↦ rw e refl
    | inr e ↦ rw e refl
  ]

  -- The dispatcher never changes the state of a session.
  dispatch-state :
      (f : Float F) (d : Dispatcher F) (s : Session) (packet : Packet F) (now : ℕ)
      → (dispatch f d s packet now).1.0.state ≡ s.state
  unfolding dispatch
  dispatch-state f d s (update_context id cells spawn) now =
      context-state d.registry s id cells spawn
  dispatch-state f d s packet now = refl

module _ {A : Type 0} where
  All-filterb :
      (Q : A → Type 0) (test : A → Bool) (xs : List A) → All Q xs → All Q (filterb test xs)
  All-filterb Q test [] h = tt
  All-filterb Q test (x ∷ xs) (q, qs) = elim (Bool-cases (test x)) [
    | inl e ↦ rw e (q, All-filterb Q test xs qs)
    | inr e ↦ rw e (All-filterb Q test xs qs)
  ]

module _ {F D M : Type 0} (p : Platform F D M) {P : DedicatedServer F D M → Type 0}
    {allowed : ℕ → Bool} (k : Kept P allowed) where
  each-Kept : (s : DedicatedServer F D M) (calls : List (Call F)) → P s → P (notify_each p s calls)
  unfolding notify_each
  each-Kept s [] h = h
  each-Kept s (call ∷ calls) h = each-Kept (notify p s call) calls (notify-Kept p k s call h)

  packets-Kept :
      (s : DedicatedServer F D M) (addr : ℕ) (packets : List (Packet F))
      → P s
      → P (notify_packets p s addr packets)
  unfolding notify_packets
  packets-Kept s addr [] h = h
  packets-Kept s addr (packet ∷ packets) h =
      let calls = notices s.dispatcher.registry (player_id_at s addr) packet in
      packets-Kept (notify_each p s calls) addr packets (each-Kept s calls h)

  deaths-Kept :
      (s : DedicatedServer F D M) (packets : List (Packet F)) → P s → P (notify_deaths p s packets)
  unfolding notify_deaths
  deaths-Kept s [] h = h
  deaths-Kept s (packet ∷ packets) h =
      deaths-Kept (notify_each p s (deaths packet)) packets (each-Kept s (deaths packet) h)

  pub others-Kept :
      (s : DedicatedServer F D M) (addr : ℕ) (packets : List (Packet F)) (now : ℕ)
      → P s
      → P (send_others p s addr packets now)
  unfolding send_others
  others-Kept s addr [] now h = h
  others-Kept s addr (packet ∷ packets) now h =
      let addrs = other_than addr (ingame_addrs s) in
      others-Kept (send_each p s addrs packet now) addr packets now (
        send_each-Kept p k s addrs packet now
          (All-filterb (λ a. allowed a ≡ true) _ (ingame_addrs s) (k.recipients s h)) h)

  cell-Kept :
      (s : DedicatedServer F D M) (addr before after : ℕ)
      → P s
      → P (notify_cell p s addr before after)
  unfolding notify_cell
  cell-Kept s addr before after h = elim (Bool-cases (before == after)) [
    | inl e ↦ rw e h
    | inr e ↦ rw e (notify-Kept p k s _ h)
  ]

  end_if-Kept :
      (b : Bool) (s : DedicatedServer F D M) (addr now : ℕ) → P s → P (end_if p b s addr now)
  unfolding end_if
  end_if-Kept true s addr now h = disconnect-Kept p k s addr now h
  end_if-Kept false s addr now h = h

  deliver-Kept :
      (s : DedicatedServer F D M) (addr : ℕ) (result : DispatchResult F) (before after now : ℕ)
      → allowed addr ≡ true
      → P s
      → P (deliver p s addr result before after now)
  unfolding deliver
  deliver-Kept s addr result before after now a h =
      let packets = result.responses ++ result.broadcasts in
      let told = notify_packets p s addr packets in
      let moved = notify_cell p told addr before after in
      let mourned = notify_deaths p moved packets in
      let answered = send_all p mourned addr result.responses now in
      end_if-Kept result.disconnect (send_others p answered addr result.broadcasts now) addr now (
        others-Kept answered addr result.broadcasts now (
          send_all-Kept p k mourned addr result.responses now a (
            deaths-Kept moved packets
              (cell-Kept told addr before after (packets-Kept s addr packets h)))))

  dispatched-Kept :
      (s : DedicatedServer F D M) (addr : ℕ) (packet : Packet F) (now : ℕ) (o : Option Session)
      → Map.lookup s.sessions addr ≡ o
      → allowed addr ≡ true
      → P s
      → P (dispatched p s addr packet now o)
  unfolding dispatched with_session
  dispatched-Kept s addr packet now none e a h = h
  dispatched-Kept s addr packet now (some session) e a h =
      let d = (dispatch p.float s.dispatcher session packet now).1.1 in
      let session' = (dispatch p.float s.dispatcher session packet now).1.0 in
      let s' = record s { dispatcher = d } in
      deliver-Kept (with_session s' addr session') addr
        (dispatch p.float s.dispatcher session packet now).0 (center_cell session)
        (center_cell session') now a
        (k.updates s' addr session session' e
          (dispatch-state p.float s.dispatcher session packet now) (k.same s s' refl refl refl h))

  passed-Kept :
      (b : Bool) (s : DedicatedServer F D M) (addr : ℕ) (packet : Packet F) (now : ℕ)
      → allowed addr ≡ true
      → P s
      → P (passed p s addr packet now b)
  unfolding passed
  passed-Kept true s addr packet now a h =
      dispatched-Kept s addr packet now (Map.lookup s.sessions addr) refl a h
  passed-Kept false s addr packet now a h = h

  pub ask-Kept : (s : DedicatedServer F D M) (call : Call F) → P s → P (ask_scripts p s call).1
  unfolding ask_scripts
  ask-Kept s call h = scripts-Kept p k s _ h

  gate-Kept :
      (s : DedicatedServer F D M) (addr : ℕ) (session : Session) (packet : Packet F)
      → Map.lookup s.sessions addr ≡ some session
      → P s
      → P (gate p s addr session packet).1
  unfolding gate with_session
  gate-Kept s addr session (game_chat message) e h =
      let (text, table) = resolve message session.string_table in
      let s' = with_session s addr (record session { string_table = table }) in
      ask-Kept s' (on_player_chat (or_zero session.player_id) text)
        (k.updates s addr session (record session { string_table = table }) e refl h)
  gate-Kept s addr session (actor_hit target attacker limb base_damage flags weapon_id projectile) e
        h =
      ask-Kept s (on_hit target attacker limb base_damage) h
  gate-Kept s addr session packet e h = h

  pub routed-Kept :
      (s : DedicatedServer F D M) (addr : ℕ) (packet : Packet F) (bytes now : ℕ)
      (o : Option Session)
      → Map.lookup s.sessions addr ≡ o
      → allowed addr ≡ true
      → P s
      → P (routed p s addr packet bytes now o)
  unfolding routed with_session record_recv
  routed-Kept s addr packet bytes now none e a h = h
  routed-Kept s addr packet bytes now (some session) e a h =
      let session' = record_recv session bytes now in
      let s' = with_session s addr session' in
      let (allows, after) = gate p s' addr session' packet in
      passed-Kept allows after addr packet now a (
        gate-Kept s' addr session' packet
          (ground (arith, lookup-insert s.sessions addr addr session', nat_beq_iff addr addr))
          (k.updates s addr session session' e refl h))
