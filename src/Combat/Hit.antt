-- ===== src/Combat/Hit.antt =====
-- crates/ashfall-server/src/handlers/combat.rs: what a hit that is accepted has been checked for, and what
-- it changes.
use ashfall.Prelude.{◌≡◌, refl, Bool, true, false, Option, none, List, nat_eq, if◌then◌else◌}
use ashfall.Map
use ashfall.Map.{is_some}
use ashfall.Float.{Float}
use ashfall.Session.{Session}
use ashfall.Packet.{Packet}
use ashfall.World.Objects.{Actor}
use ashfall.World.Registry.{ObjectRegistry}

abbrev Outcome : Type 0 → Type 0
Outcome F = Option (List (Packet F)) × ObjectRegistry F

-- A result that is there came past a test that rejects.
passed :
    {F : Type 0} (b : Bool) (r : ObjectRegistry F) (x : Outcome F)
    → is_some (if◌then◌else◌ {A = Outcome F} b (none, r) x).0 ≡ true
    → (b ≡ false) × ((if◌then◌else◌ {A = Outcome F} b (none, r) x) ≡ x)
passed true r x h = cc
passed false r x h = (refl, refl)
