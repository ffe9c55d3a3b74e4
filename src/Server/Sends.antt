-- ===== src/Server/Sends.antt =====
-- To whom a datagram makes the server of crates/ashfall-server/src/dedicated.rs send.
use ashfall.Prelude.{
  ℕ, ◌≡◌, sym, ap, ◌∙◌, subst, inl, inr, Bool, true, false, ◌||◌, Bool-cases, Option-cases, some,
  List, [], ◌∷◌, ◌++◌, arith, ◌==◌, nat_eq, nat_beq_iff, contains, All, append_assoc, append-nil,
}
use ashfall.Map
use ashfall.Map.{Map}
use ashfall.Map.Laws.{lookup-insert, lookup-remove_inv}
use ashfall.Map.Iter.{keys_where, contains-keys_where}
use ashfall.Reliable.{Bytes}
use ashfall.Session.{Session, SessionState, in_game, is_ingame}
use ashfall.Server.{Platform, DedicatedServer, ingame_addrs}
use ashfall.Server.Frame.{Kept}
use ashfall.Server.Recv.{handle_recv, with_session}
use ashfall.Server.Recv.Login.{handle_recv-Kept}

All-of_contains : (Q : ℕ → Type 0) (xs : List ℕ) → ((x : ℕ) → contains xs x ≡ true → Q x) → All Q xs
All-of_contains Q [] h = tt
All-of_contains Q (x ∷ xs) h = (
  h x (ground (arith, nat_beq_iff x x)),
  All-of_contains Q xs (λ y e. h y (ground (arith, Bool-cases (x == y)))),
)

All-snoc {ℓ} :
    {A : Type ℓ} (Q : A → Type 0) (xs : List A) (x : A) → All Q xs → Q x → All Q (xs ++ x ∷ [])
All-snoc Q [] x h q = (q, tt)
All-snoc Q (y ∷ ys) x (h, hs) q = (h, All-snoc Q ys x hs q)

abbrev plays : SessionState → Bool
plays st = elim st [ in_game ↦ true | _ ↦ false ]

is_ingame-state : (s t : Session) → s.state ≡ t.state → is_ingame s ≡ is_ingame t
unfolding is_ingame
is_ingame-state s t e = ap plays e

-- Whoever is in the game is among the allowed.
Players : (ℕ → Bool) → Map ℕ Session → Type 0
Players allowed sessions =
    (addr : ℕ) (session : Session)
    → Map.lookup sessions addr ≡ some session
    → is_ingame session ≡ true
    → allowed addr ≡ true

insert-Players :
    (allowed : ℕ → Bool) (sessions : Map ℕ Session) (addr : ℕ) (new : Session)
    → (is_ingame new ≡ true → allowed addr ≡ true)
    → Players allowed sessions
    → Players allowed (Map.insert sessions addr new)
unfolding Players
insert-Players allowed sessions addr new ok h j session found ingame =
    elim (Bool-cases (addr == j)) [
      | inl e ↦
          let same : new ≡ session = ground (arith, lookup-insert sessions addr j new) in
          rw (← (nat_beq_iff addr j).0 e) (ok (rw same ingame))
      | inr e ↦ h j session (ground (arith, lookup-insert sessions addr j new)) ingame
    ]

remove-Players :
    (allowed : ℕ → Bool) (sessions : Map ℕ Session) (addr : ℕ)
    → Players allowed sessions
    → Players allowed (Map.remove sessions addr)
unfolding Players
remove-Players allowed sessions addr h j session found ingame =
    h j session (lookup-remove_inv sessions addr j session found).1 ingame

recipients-All :
    (allowed : ℕ → Bool) (sessions : Map ℕ Session)
    → Players allowed sessions
    → All (λ addr. allowed addr ≡ true) (keys_where is_ingame sessions)
unfolding Players
recipients-All allowed sessions h = All-of_contains _ _ (λ j c.
    elim (Option-cases (Map.lookup sessions j)) [
      | inl e ↦ ground (arith, contains-keys_where is_ingame sessions j)
      | inr (session, e) ↦ h j session e (ground (arith, contains-keys_where is_ingame sessions j))
    ])

-- What has been sent since `before` went to the allowed.
SentTo : (ℕ → Bool) → List (ℕ × Bytes) → List (ℕ × Bytes) → Type 0
SentTo allowed before out =
    (new : List (ℕ × Bytes)) × (out ≡ before ++ new) × All (λ e. allowed e.0 ≡ true) new

snoc-SentTo :
    (allowed : ℕ → Bool) (before out : List (ℕ × Bytes)) (addr : ℕ) (frame : Bytes)
    → allowed addr ≡ true
    → SentTo allowed before out
    → SentTo allowed before (out ++ (addr, frame) ∷ [])
unfolding SentTo
snoc-SentTo allowed before out addr frame a (new, e, all) = (
  new ++ (addr, frame) ∷ [],
  rw e (append_assoc before new ((addr, frame) ∷ [])),
  All-snoc (λ (e : ℕ × Bytes). allowed e.0 ≡ true) new (addr, frame) all a,
)

module _ {F D M : Type 0} where
  -- The sender, and the sessions that are in the game.
  unfoldable pub may_hear : DedicatedServer F D M → (sender addr : ℕ) → Bool
  may_hear s sender addr = sender == addr || contains (ingame_addrs s) addr

  Heard : (ℕ → Bool) → List (ℕ × Bytes) → DedicatedServer F D M → Type 0
  Heard allowed before t = SentTo allowed before t.out × Players allowed t.sessions

  Heard-Kept :
      (allowed : ℕ → Bool) (before : List (ℕ × Bytes)) → Kept (Heard allowed before) allowed
  unfolding Heard Players ingame_addrs
  Heard-Kept allowed before = record {
    same = λ s t es ec eo (sent, players).
        (subst (SentTo allowed before) (sym eo) sent, subst (Players allowed) (sym es) players);
    sends = λ s addr frame a (sent, players).
        (snoc-SentTo allowed before s.out addr frame a sent, players);
    updates = λ s addr old new e st (sent, players). (
      sent,
      insert-Players allowed s.sessions addr new
          (λ ingame. players addr old e (sym (is_ingame-state new old st) ∙ ingame)) players,
    );
    removes = λ s addr (sent, players). (sent, remove-Players allowed s.sessions addr players);
    recipients = λ s (sent, players). recipients-All allowed s.sessions players;
  }

  hears_self : (s : DedicatedServer F D M) (addr : ℕ) → may_hear s addr addr ≡ true
  unfolding may_hear
  hears_self s addr = ground (arith, nat_beq_iff addr addr)

  Heard-start : (s : DedicatedServer F D M) (addr : ℕ) → Heard (may_hear s addr) s.out s
  unfolding Heard SentTo Players may_hear ingame_addrs
  Heard-start s addr = (
    ([], sym (append-nil s.out), tt),
    λ j session found ingame.
        ground (arith, contains-keys_where is_ingame s.sessions j, Bool-cases (addr == j)),
  )

  -- Whatever an address sends, all that the server sends because of it goes to that address and to
  -- the sessions that were in the game.
  pub handle_recv-recipients :
      (p : Platform F D M) (s : DedicatedServer F D M) (addr : ℕ) (bytes : Bytes) (now : ℕ)
      → (new : List (ℕ × Bytes)) × ((handle_recv p s addr bytes now).out ≡ s.out ++ new)
        × All (λ e. may_hear s addr e.0 ≡ true) new
  unfolding Heard SentTo with_session
  handle_recv-recipients p s addr bytes now =
      let allowed = may_hear s addr in
      let k = Heard-Kept allowed s.out in
      (handle_recv-Kept p k k addr (hears_self s addr)
        (λ t session (sent, players).
          (sent, insert-Players allowed t.sessions addr session (λ _. hears_self s addr) players))
        (λ t h. h) s bytes now (λ _. Heard-start s addr) (Heard-start s addr)).0
