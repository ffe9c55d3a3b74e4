-- ===== src/Handlers/Auth.antt =====
-- crates/ashfall-server/src/handlers/auth.rs, and the load order check of handlers/game.rs: who is let in.
pub mod Admission
use ashfall.Prelude.{
  ℕ, Bool, true, false, Option, none, some, List, [], ◌∷◌, ltb, ◌==◌, nat_eq, bytes_eq,
  if◌then◌else◌, length,
}
use ashfall.Session
use ashfall.Session.{Session}
use ashfall.StringCache.{Text}
use ashfall.Packet.{Packet, game_end, game_load}

abbrev pub max_player_name : ℕ
max_player_name = 16

-- The bytes of `0.1a snapshot "Gary 2.10"`.
abbrev pub dedicated_version : Text
dedicated_version =
    48 ∷ 46 ∷ 49 ∷ 97 ∷ 32 ∷ 115 ∷ 110 ∷ 97 ∷ 112 ∷ 115 ∷ 104 ∷ 111 ∷ 116 ∷ 32 ∷ 34 ∷ 71 ∷ 97 ∷ 114
    ∷ 121 ∷ 32 ∷ 50 ∷ 46 ∷ 49 ∷ 48 ∷ 34 ∷ []

-- `Reason::Denied`
abbrev pub denied : ℕ
denied = 3

module _ {F : Type 0} where
  -- A name is measured in bytes.
  unfoldable pub handle_auth :
      (addr : ℕ) (name password version : Text) (session_guid now : ℕ)
      → Option Session × List (Packet F)
  handle_auth addr name password version session_guid now =
      if length name == 0
      then (none, game_end denied ∷ [])
      else if ltb max_player_name (length name)
      then (none, game_end denied ∷ [])
      else if version == dedicated_version
      then (some (Session.new session_guid addr name now), game_load ∷ [])
      else (none, game_end denied ∷ [])

  unfoldable pub handle_disconnect : Session → ℕ → List (Packet F)
  handle_disconnect session reason = game_end reason ∷ []

  -- The entries in order; the lists are of one length.
  match_mods : List (Text × ℕ) → List (Text × ℕ) → Option (Packet F)
  match_mods expected [] = none
  match_mods [] (m ∷ mods) = none
  match_mods ((server_m, server_crc) ∷ expected) ((client_m, client_crc) ∷ mods) =
      let rest = match_mods expected mods in
      if client_m == server_m
      then if client_crc == server_crc then rest else some (game_end denied)
      else some (game_end denied)

  unfoldable pub handle_mod_list : List (Text × ℕ) → List (Text × ℕ) → Option (Packet F)
  unfolding match_mods
  handle_mod_list [] mods = none
  handle_mod_list (e ∷ expected) mods =
      if length mods == length (e ∷ expected)
      then match_mods (e ∷ expected) mods
      else some (game_end denied)
