-- ===== src/Handlers/Player/View.antt =====
-- `handle_update_context` of crates/ashfall-server/src/handlers/player.rs: what is taken from a
-- client's view.
use ashfall.Prelude.{
  ℕ, ◌≡◌, refl, ap, ◌∙◌, inl, inr, Bool, true, false, not, ◌&&◌, ◌||◌, Bool-cases, Option, none,
  some, List, [], ◌∷◌, ◌++◌, ◌==◌, nat_eq, nat_beq_iff, if◌then◌else◌, contains,
}
use ashfall.Packet.{Packet, Cells, object_remove}
use ashfall.World.Objects.{
  GameObject, a_reference, an_object, an_item, a_container, an_actor, a_player,
}
use ashfall.World.Objects.Announce.{object_packet, item_packet, actor_packet, player_packet}
use ashfall.World.Registry.{ObjectRegistry, get}
use ashfall.Handlers.Player.{
  announce, withdraw, with_some, entity_new_packet, new_packet, entity_cell, still_visible,
}

-- The entity itself is looked at wherever it is listed.
either : (v b c w : Bool) → (b ≡ true → v ≡ w) → (not v && b) || (c && not w) ≡ (b || c) && not w
either true false c w h = refl
either false false c w h = refl
either v true true true h = rw (h refl) refl
either v true true false h = rw (h refl) refl
either v true false true h = rw (h refl) refl
either v true false false h = rw (h refl) refl

module _ {F : Type 0} where
  unfoldable pub is_removal : ℕ → Packet F → Bool
  is_removal x (object_remove j silent) = j == x
  is_removal x _ = false

  -- Whether a list of packets removes an entity.
  unfoldable pub removes : ℕ → List (Packet F) → Bool
  unfolding is_removal
  removes x [] = false
  removes x (p ∷ ps) = is_removal x p || removes x ps

  pub removes-append :
      (x : ℕ) (ps qs : List (Packet F)) → removes x (ps ++ qs) ≡ removes x ps || removes x qs
  unfolding removes
  removes-append x [] qs = refl
  removes-append x (p ∷ ps) qs = elim (Bool-cases (is_removal x p)) [
    | inl e ↦ rw e refl
    | inr e ↦ rw e (removes-append x ps qs)
  ]

  removes-with_some :
      (x : ℕ) (o : Option (GameObject F)) (ps : List (Packet F))
      → removes x (with_some (new_packet o) ps) ≡ removes x ps
  unfolding removes is_removal with_some new_packet object_packet item_packet actor_packet
      player_packet
  removes-with_some x (some (an_object o)) ps = refl
  removes-with_some x (some (a_container c)) ps = refl
  removes-with_some x (some (an_item i)) ps = refl
  removes-with_some x (some (an_actor a)) ps = refl
  removes-with_some x (some (a_player p)) ps = refl
  removes-with_some x (some (a_reference t)) ps = refl
  removes-with_some x none ps = refl

  pub removes-announce :
      (r : ObjectRegistry F) (id x : ℕ) (xs : List ℕ) → removes x (announce r id xs) ≡ false
  unfolding removes announce entity_new_packet
  removes-announce r id x [] = refl
  removes-announce r id x (y ∷ ys) = elim (Bool-cases (y == id)) [
    | inl e ↦ rw e (removes-announce r id x ys)
    | inr e ↦ rw (e, removes-with_some x (get r y) (announce r id ys)) (removes-announce r id x ys)
  ]

  removes-unless :
      (x y : ℕ) (v : Bool) (ps : List (Packet F))
      → removes x (if v then ps else object_remove y true ∷ ps)
        ≡ (not v && (y == x)) || removes x ps
  unfolding removes is_removal
  removes-unless x y true ps = refl
  removes-unless x y false ps = refl

  pub removes-withdraw :
      (r : ObjectRegistry F) (cells : Cells) (x : ℕ) (xs : List ℕ)
      → removes x (withdraw r cells xs)
        ≡ contains xs x && not (still_visible cells (entity_cell r x))
  unfolding removes withdraw
  removes-withdraw r cells x [] = refl
  removes-withdraw r cells x (y ∷ ys) =
      removes-unless x y (still_visible cells (entity_cell r y)) (withdraw r cells ys)
      ∙ ap (λ b. (not (still_visible cells (entity_cell r y)) && (y == x)) || b)
          (removes-withdraw r cells x ys)
      ∙ either (still_visible cells (entity_cell r y)) (y == x) (contains ys x)
          (still_visible cells (entity_cell r x))
          (λ e. ap (λ z. still_visible cells (entity_cell r z)) ((nat_beq_iff y x).0 e))
