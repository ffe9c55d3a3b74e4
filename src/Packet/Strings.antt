-- ===== src/Packet/Strings.antt =====
-- `Packet::finalize_strings`: the pass that binds a packet's string before it is sent.
use ashfall.Prelude.{
  bytes_eq, nat_eq, ◌≡◌, refl, inl, inr, Option-cases, arith, List, [], ◌∷◌, map, All,
}
use ashfall.Map
use ashfall.StringCache.{StringTable, CachedString, plain, inline, id_only, bind}
use ashfall.Packet.{
  Packet, game_message, game_chat, object_new, update_name, update_actor_idle, update_interior,
}
use ashfall.Packet.Routing.{from_packet, is_unreliable}

-- `if let CachedString::Plain(s) = field { *field = CachedString::intern(table, s) }`
unfoldable pub bind_plain : CachedString → StringTable → CachedString × StringTable
bind_plain (plain s) t = bind t s
bind_plain (inline id s) t = (inline id s, t)
bind_plain (id_only id) t = (id_only id, t)

unfoldable pub finalize_strings : {F : Type 0} → Packet F → StringTable → Packet F × StringTable
finalize_strings (game_message message emoticon) t =
    let (w, t') = bind_plain message t in (game_message w emoticon, t')
finalize_strings (game_chat message) t = let (w, t') = bind_plain message t in (game_chat w, t')
finalize_strings
      (object_new id ref_id base_id name game_pos net_pos angle scale cell enabled lock owner) t =
    let (w, t') = bind_plain name t in
    (object_new id ref_id base_id w game_pos net_pos angle scale cell enabled lock owner, t')
finalize_strings (update_name id name) t = let (w, t') = bind_plain name t in (update_name id w, t')
finalize_strings (update_actor_idle id idle name) t =
    let (w, t') = bind_plain name t in (update_actor_idle id idle w, t')
finalize_strings (update_interior id cell spawn) t =
    let (w, t') = bind_plain cell t in (update_interior id w spawn, t')
finalize_strings packet t = (packet, t)

bind_plain_twice :
    (w : CachedString) (t t' : StringTable)
    → bind_plain (bind_plain w t).0 t' ≡ ((bind_plain w t).0, t')
unfolding bind_plain bind
bind_plain_twice (plain s) t t' = ground arith
bind_plain_twice (inline id s) t t' = refl
bind_plain_twice (id_only id) t t' = refl

-- The strings that a packet has for the table.
unfoldable pub strings : {F : Type 0} → Packet F → List CachedString
strings (game_message message emoticon) = message ∷ []
strings (game_chat message) = message ∷ []
strings (object_new id ref_id base_id name game_pos net_pos angle scale cell enabled lock owner) =
    name ∷ []
strings (update_name id name) = name ∷ []
strings (update_actor_idle id idle name) = name ∷ []
strings (update_interior id cell spawn) = cell ∷ []
strings _ = []

-- A string that is bound is sent as an id, with or without its text.
abbrev pub IsBound : CachedString → Type 0
IsBound (plain s) = ⊥
IsBound (inline id s) = Unit {0}
IsBound (id_only id) = Unit {0}

-- What a string becomes: a plain one is bound by the table, another one stays.
abbrev pub bound : StringTable → CachedString → CachedString
bound t (plain s) = (bind t s).0
bound t (inline id s) = inline id s
bound t (id_only id) = id_only id

bind_plain-bound : (w : CachedString) (t : StringTable) → (bind_plain w t).0 ∷ [] ≡ bound t w ∷ []
unfolding bind_plain
bind_plain-bound (plain s) t = refl
bind_plain-bound (inline id s) t = refl
bind_plain-bound (id_only id) t = refl

bind_plain-IsBound : (w : CachedString) (t : StringTable) → IsBound (bind_plain w t).0
unfolding bind_plain bind
bind_plain-IsBound (plain s) t = elim (Option-cases (Map.lookup t.by_str s)) [
  | inl e ↦ rw e tt
  | inr (id, e) ↦ rw e tt
]
bind_plain-IsBound (inline id s) t = tt
bind_plain-IsBound (id_only id) t = tt

-- The pass binds every plain string of a packet by the table and leaves the bound ones, so that none is
-- plain afterwards. It is idempotent, whatever table the second pass has: it leaves a packet that has
-- been through it alone, and that table too. It never changes how a packet travels.
pub finalize_strings_once :
    {F : Type 0} (p : Packet F) (t t' : StringTable)
    → (strings (finalize_strings p t).0 ≡ map (bound t) (strings p))
      × All IsBound (strings (finalize_strings p t).0)
      × (finalize_strings (finalize_strings p t).0 t' ≡ ((finalize_strings p t).0, t'))
      × (from_packet (finalize_strings p t).0 ≡ from_packet p)
      × (is_unreliable (finalize_strings p t).0 ≡ is_unreliable p)
unfolding finalize_strings strings from_packet is_unreliable
finalize_strings_once (game_message message emoticon) t t' = (
  bind_plain-bound message t,
  (bind_plain-IsBound message t, tt),
  cc (bind_plain_twice message t t'),
  refl,
  refl,
)
finalize_strings_once (game_chat message) t t' = (
  bind_plain-bound message t,
  (bind_plain-IsBound message t, tt),
  cc (bind_plain_twice message t t'),
  refl,
  refl,
)
finalize_strings_once
      (object_new id ref_id base_id name game_pos net_pos angle scale cell enabled lock owner) t
      t' =
    (
      bind_plain-bound name t,
      (bind_plain-IsBound name t, tt),
      cc (bind_plain_twice name t t'),
      refl,
      refl,
    )
finalize_strings_once (update_name id name) t t' = (
  bind_plain-bound name t,
  (bind_plain-IsBound name t, tt),
  cc (bind_plain_twice name t t'),
  refl,
  refl,
)
finalize_strings_once (update_actor_idle id idle name) t t' = (
  bind_plain-bound name t,
  (bind_plain-IsBound name t, tt),
  cc (bind_plain_twice name t t'),
  refl,
  refl,
)
finalize_strings_once (update_interior id cell spawn) t t' = (
  bind_plain-bound cell t,
  (bind_plain-IsBound cell t, tt),
  cc (bind_plain_twice cell t t'),
  refl,
  refl,
)
finalize_strings_once _ t t' = (refl, tt, refl, refl, refl)
