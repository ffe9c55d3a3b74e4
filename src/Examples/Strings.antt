-- ===== src/Examples/Strings.antt =====
-- Runs of the string cache and of the string pass.
use ashfall.Prelude.{ℕ, ◌≡◌, refl, none, some, List, [], ◌∷◌, arith, map, All}
use ashfall.Map
use ashfall.StringCache
use ashfall.StringCache.{Text, StringTable, inline, plain, resolve, lookup, intern}
use ashfall.StringCache.Sync.{transmit, transmit-new}
use ashfall.StringCache.Forget.{resolve-inline_forgets}
use ashfall.Packet.{Packet, game_chat}
use ashfall.Packet.Routing.{from_packet, is_unreliable}
use ashfall.Packet.Strings.{finalize_strings, strings, bound, IsBound, finalize_strings_once}

abbrev greetings : List Text
greetings = (104 ∷ 105 ∷ []) ∷ (98 ∷ 121 ∷ 101 ∷ []) ∷ (104 ∷ 105 ∷ []) ∷ []

transmit-new_example : transmit StringCache.new StringCache.new greetings ≡ greetings
transmit-new_example = transmit-new greetings (omega arith)

-- A receiver that was taught id 3, and no lower one.
abbrev taught : StringTable
taught = (resolve (inline 3 (99 ∷ [])) StringCache.new).1

taught-lookup : lookup taught 3 ≡ some (99 ∷ [])
unfolding lookup resolve StringCache.new Map.empty
taught-lookup = refl

untaught-lookup : lookup taught 0 ≡ none
unfolding lookup resolve StringCache.new Map.empty
untaught-lookup = refl

resolve-inline_forgets_example : lookup (resolve (inline 0 (97 ∷ [])) taught).1 3 ≡ none
resolve-inline_forgets_example =
    resolve-inline_forgets taught 0 (97 ∷ []) 3 untaught-lookup (omega arith)

abbrev hello : Packet ℕ
hello = game_chat (plain (104 ∷ 105 ∷ []))

finalize_strings_once_example :
    (strings (finalize_strings hello StringCache.new).0
      ≡ map (bound StringCache.new) (strings hello))
    × All IsBound (strings (finalize_strings hello StringCache.new).0)
    × (finalize_strings (finalize_strings hello StringCache.new).0 StringCache.new
        ≡ ((finalize_strings hello StringCache.new).0, StringCache.new))
    × (from_packet (finalize_strings hello StringCache.new).0 ≡ from_packet hello)
    × (is_unreliable (finalize_strings hello StringCache.new).0 ≡ is_unreliable hello)
finalize_strings_once_example = finalize_strings_once hello StringCache.new StringCache.new
