-- ===== src/Server/Leave.antt =====
-- What is left of a player when its session ends, in crates/ashfall-server/src/dedicated.rs: `disconnect`
-- and the registry's part in it.
use ashfall.Prelude.{
  ℕ, ◌≡◌, ◌≢◌, refl, sym, ◌∙◌, subst, inl, inr, true, Option, Option-cases, none, some, List, [],
  ◌∷◌, arith, nat_eq, nat_beq_iff,
}
use ashfall.Map
use ashfall.Map.{Map}
use ashfall.Map.Laws.{lookup-insert, lookup-remove}
use ashfall.Reliable.{Bytes}
use ashfall.Network.{NetworkManager, Sent, ok, err, remove_session}
use ashfall.Packet.{Packet, ownership_released}
use ashfall.Session.{Session}
use ashfall.Script.{on_player_disconnect}
use ashfall.World.Registry.{ObjectRegistry, release_player_owned, remove, get, owner_of, is_deleted}
use ashfall.World.Registry.Steps.{owner_of-remove, remove_missing, release_player_owned_iff}
use ashfall.Server.{
  Platform, DedicatedServer, ingame_addrs, bind_for, hand_over, notify, send, send_each,
  release_each, set_registry, leave, end_session, disconnect,
}
use ashfall.Server.Frame.{Kept, leave-Kept, anyone, everyone}

module _ {F : Type 0} where
  get-remove : (r : ObjectRegistry F) (id : ℕ) → get (remove r id).1 id ≡ none
  unfolding get remove is_deleted
  get-remove r id = elim (Option-cases (Map.lookup r.objects id)) [
    | inl e ↦ rw e (ground arith)
    | inr (x, e) ↦ rw e (ground (arith, lookup-insert r.deleted id id true, nat_beq_iff id id))
  ]

  owner_of-remove_none :
      (r : ObjectRegistry F) (i id p : ℕ)
      → owner_of r id ≢ some p
      → owner_of (remove r i).1 id ≢ some p
  owner_of-remove_none r i id p h = elim (Option-cases (Map.lookup r.objects i)) [
    | inl e ↦ λ o. h (sym (remove_missing r i id e) ∙ o)
    | inr (x, e) ↦ λ o. ground (arith, owner_of-remove r i id x e)
  ]

  owner_of-released :
      (r : ObjectRegistry F) (p id : ℕ) → owner_of (release_player_owned r p).1 id ≢ some p
  owner_of-released r p id o = (((release_player_owned_iff r p id p).0).0 o).1 refl

  -- A registry in which a player is neither an object nor an owner.
  abbrev pub Left : ℕ → ObjectRegistry F → Type 0
  Left pid r = (get r pid ≡ none) × ((id : ℕ) → owner_of r id ≢ some pid)

  -- For the player of a session, if there is one.
  abbrev pub LeftBy : Option ℕ → ObjectRegistry F → Type 0
  LeftBy none r = Unit
  LeftBy (some pid) r = Left pid r

module _ {F D M : Type 0} where
  bind-dispatcher :
      (s : DedicatedServer F D M) (addr : ℕ) (packet : Packet F) (o : Option Session)
      → (bind_for s addr packet o).1.dispatcher ≡ s.dispatcher
  unfolding bind_for
  bind-dispatcher s addr packet none = refl
  bind-dispatcher s addr packet (some session) = refl

  over-dispatcher :
      (s : DedicatedServer F D M) (addr : ℕ) (r : Sent (Bytes × NetworkManager))
      → (hand_over s addr r).dispatcher ≡ s.dispatcher
  unfolding hand_over
  over-dispatcher s addr (ok (frame, network)) = refl
  over-dispatcher s addr (err e) = refl

  -- Nothing of the address is left: no session, no channel, no rate limiter.
  abbrev pub Forgotten : ℕ → DedicatedServer F D M → Type 0
  Forgotten addr s =
      (Map.lookup s.sessions addr ≡ none)
      × ((Map.lookup s.network.reliable addr ≡ none) × (Map.lookup s.rate_limiters addr ≡ none))

module _ {F D M : Type 0} (p : Platform F D M) where
  send-dispatcher :
      (s : DedicatedServer F D M) (addr : ℕ) (packet : Packet F) (now : ℕ)
      → (send p s addr packet now).dispatcher ≡ s.dispatcher
  unfolding send
  send-dispatcher s addr packet now =
      over-dispatcher _ addr _ ∙ bind-dispatcher s addr packet (Map.lookup s.sessions addr)

  send_each-dispatcher :
      (s : DedicatedServer F D M) (addrs : List ℕ) (packet : Packet F) (now : ℕ)
      → (send_each p s addrs packet now).dispatcher ≡ s.dispatcher
  unfolding send_each
  send_each-dispatcher s [] packet now = refl
  send_each-dispatcher s (addr ∷ addrs) packet now =
      send_each-dispatcher (send p s addr packet now) addrs packet now
      ∙ send-dispatcher s addr packet now

  release_each-dispatcher :
      (s : DedicatedServer F D M) (ids addrs : List ℕ) (now : ℕ)
      → (release_each p s ids addrs now).dispatcher ≡ s.dispatcher
  unfolding release_each
  release_each-dispatcher s [] addrs now = refl
  release_each-dispatcher s (id ∷ ids) addrs now =
      release_each-dispatcher (send_each p s addrs (ownership_released id) now) ids addrs now
      ∙ send_each-dispatcher s addrs (ownership_released id) now

  leave-Left :
      (s : DedicatedServer F D M) (pid now : ℕ)
      → Left pid (leave p s (some pid) now).dispatcher.registry
  unfolding leave set_registry
  leave-Left s pid now =
      let told = notify p s (on_player_disconnect pid 4) in
      let released = (release_player_owned told.dispatcher.registry pid).0 in
      let r = (release_player_owned told.dispatcher.registry pid).1 in
      let freed = set_registry told r in
      let sent = release_each p freed released (ingame_addrs freed) now in
      let same : sent.dispatcher ≡ freed.dispatcher =
        release_each-dispatcher freed released (ingame_addrs freed) now in
      (
        get-remove sent.dispatcher.registry pid,
        λ id. owner_of-remove_none sent.dispatcher.registry pid id pid (
            subst (λ d. owner_of d.registry id ≢ some pid) (sym same)
              (owner_of-released told.dispatcher.registry pid id)),
      )

  end-Left :
      (s : DedicatedServer F D M) (addr : ℕ) (session : Session) (pid now : ℕ)
      → session.player_id ≡ some pid
      → Left pid (end_session p s addr (some session) now).dispatcher.registry
  unfolding end_session
  end-Left s addr session pid now e =
      subst
        (λ o.
          Left pid
            (leave p (record s { sessions = Map.remove s.sessions addr }) o
              now).dispatcher.registry)
        (sym e) (leave-Left (record s { sessions = Map.remove s.sessions addr }) pid now)

  end-LeftBy :
      (s : DedicatedServer F D M) (addr : ℕ) (session : Session) (now : ℕ) (o : Option ℕ)
      → session.player_id ≡ o
      → LeftBy o (end_session p s addr (some session) now).dispatcher.registry
  end-LeftBy s addr session now none e = tt
  end-LeftBy s addr session now (some pid) e = end-Left s addr session pid now e

  gone-Kept :
      (gone : ℕ) → Kept (λ (s : DedicatedServer F D M). Map.lookup s.sessions gone ≡ none) anyone
  gone-Kept gone = record {
    same = λ s t es ec eo h. subst (λ m. Map.lookup m gone ≡ none) (sym es) h;
    sends = λ s addr frame a h. h;
    updates = λ s addr old new e st h.
        ground (arith, lookup-insert s.sessions addr gone new, nat_beq_iff addr gone);
    removes = λ s addr h. ground (arith, lookup-remove s.sessions addr gone);
    recipients = λ s h. everyone (ingame_addrs s);
  }

  end-sessions :
      (s : DedicatedServer F D M) (addr : ℕ) (session : Session) (now : ℕ)
      → Map.lookup (end_session p s addr (some session) now).sessions addr ≡ none
  unfolding end_session
  end-sessions s addr session now =
      leave-Kept p (gone-Kept addr) (record s { sessions = Map.remove s.sessions addr })
        session.player_id now
        (ground (arith, lookup-remove s.sessions addr addr, nat_beq_iff addr addr))

  end-Forgotten :
      (s : DedicatedServer F D M) (addr : ℕ) (session : Session) (now : ℕ)
      → Forgotten addr (end_session p s addr (some session) now)
  unfolding end_session remove_session
  end-Forgotten s addr session now =
      let left =
        leave p (record s { sessions = Map.remove s.sessions addr }) session.player_id now in
      (
        end-sessions s addr session now,
        (
          ground (arith, lookup-remove left.network.reliable addr addr, nat_beq_iff addr addr),
          ground (arith, lookup-remove left.rate_limiters addr addr, nat_beq_iff addr addr),
        ),
      )

  -- After `disconnect`, as for a client that leaves or that a script kicks, the address has neither a
  -- session nor a channel nor a rate limiter, and if a player had entered the game on the session, the
  -- player's object is not found any more and no object is owned by the player, whatever the scripts did
  -- when they were told. Sessions that are culled or replaced do not go this way.
  pub disconnect-gone :
      (s : DedicatedServer F D M) (addr : ℕ) (session : Session) (now : ℕ)
      → Map.lookup s.sessions addr ≡ some session
      → Forgotten addr (disconnect p s addr now)
        × LeftBy session.player_id (disconnect p s addr now).dispatcher.registry
  unfolding disconnect
  disconnect-gone s addr session now e =
      rw e (end-Forgotten s addr session now, end-LeftBy s addr session now session.player_id refl)
