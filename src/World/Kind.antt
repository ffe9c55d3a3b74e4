-- ===== src/World/Kind.antt =====
-- crates/ashfall-core/src/types.rs: the kinds of objects and their hierarchy, as bit masks.
use ashfall.Prelude.{ℕ, ◌≡◌, ◌↔◌, refl, Bool, true, false, bit_and, ◌==◌, nat_eq, if◌then◌else◌}

pub data ObjectKind : Type 0 where
  reference object item_list item container actor player : ObjectKind
  window button text edit checkbox radio_button list_item list : ObjectKind

unfoldable pub mask : ObjectKind → ℕ
mask reference = 0x0001
mask object = 0x0002
mask item_list = 0x0004
mask item = 0x0008
mask container = 0x0010
mask actor = 0x0020
mask player = 0x0040
mask window = 0x0080
mask button = 0x0100
mask text = 0x0200
mask edit = 0x0400
mask checkbox = 0x0800
mask radio_button = 0x1000
mask list_item = 0x2000
mask list = 0x4000

abbrev pub all_references : ℕ
all_references = 0x007F

abbrev pub all_objects : ℕ
all_objects = 0x007E

abbrev pub all_item_lists : ℕ
all_item_lists = 0x0074

abbrev pub all_containers : ℕ
all_containers = 0x0070

abbrev pub all_actors : ℕ
all_actors = 0x0060

abbrev pub all_windows : ℕ
all_windows = 0x7F80

abbrev pub overlaps : ℕ → ℕ → Bool
overlaps a b = if bit_and a b == 0 then false else true

-- Whether a kind is, or descends from, the second one.
unfoldable pub is_kind : ObjectKind → ObjectKind → Bool
unfolding mask
is_kind k reference = overlaps (mask k) all_references
is_kind k object = overlaps (mask k) all_objects
is_kind k item_list = overlaps (mask k) all_item_lists
is_kind k container = overlaps (mask k) all_containers
is_kind k actor = overlaps (mask k) all_actors
is_kind k item = overlaps (mask k) (mask item)
is_kind k player = overlaps (mask k) (mask player)
is_kind k window = overlaps (mask k) all_windows
is_kind k other = mask k == mask other

-- The direct parent of a kind, as a tree: what the masks stand for.
pub data Parent : ObjectKind → ObjectKind → Type 0 where
  object_reference : Parent object reference
  item_object : Parent item object
  item_list_object : Parent item_list object
  container_item_list : Parent container item_list
  actor_container : Parent actor container
  player_actor : Parent player actor
  button_window : Parent button window
  text_window : Parent text window
  edit_window : Parent edit window
  checkbox_window : Parent checkbox window
  radio_button_window : Parent radio_button window
  list_item_window : Parent list_item window
  list_window : Parent list window

pub data Descends : ObjectKind → ObjectKind → Type 0 where
  here : {k : ObjectKind} → Descends k k
  up : {j k l : ObjectKind} → Parent j k → Descends k l → Descends j l

Descends-is_kind : (k l : ObjectKind) → is_kind k l ≡ true → Descends k l
unfolding is_kind
Descends-is_kind reference reference h = here
Descends-is_kind object object h = here
Descends-is_kind object reference h = up object_reference here
Descends-is_kind item_list item_list h = here
Descends-is_kind item_list object h = up item_list_object here
Descends-is_kind item_list reference h = up item_list_object (up object_reference here)
Descends-is_kind item item h = here
Descends-is_kind item object h = up item_object here
Descends-is_kind item reference h = up item_object (up object_reference here)
Descends-is_kind container container h = here
Descends-is_kind container item_list h = up container_item_list here
Descends-is_kind container object h = up container_item_list (up item_list_object here)
Descends-is_kind container reference h =
    up container_item_list (up item_list_object (up object_reference here))
Descends-is_kind actor actor h = here
Descends-is_kind actor container h = up actor_container here
Descends-is_kind actor item_list h = up actor_container (up container_item_list here)
Descends-is_kind actor object h =
    up actor_container (up container_item_list (up item_list_object here))
Descends-is_kind actor reference h =
    up actor_container (up container_item_list (up item_list_object (up object_reference here)))
Descends-is_kind player player h = here
Descends-is_kind player actor h = up player_actor here
Descends-is_kind player container h = up player_actor (up actor_container here)
Descends-is_kind player item_list h =
    up player_actor (up actor_container (up container_item_list here))
Descends-is_kind player object h =
    up player_actor (up actor_container (up container_item_list (up item_list_object here)))
Descends-is_kind player reference h =
    up player_actor
      (up actor_container (up container_item_list (up item_list_object (up object_reference here))))
Descends-is_kind window window h = here
Descends-is_kind button button h = here
Descends-is_kind button window h = up button_window here
Descends-is_kind text text h = here
Descends-is_kind text window h = up text_window here
Descends-is_kind edit edit h = here
Descends-is_kind edit window h = up edit_window here
Descends-is_kind checkbox checkbox h = here
Descends-is_kind checkbox window h = up checkbox_window here
Descends-is_kind radio_button radio_button h = here
Descends-is_kind radio_button window h = up radio_button_window here
Descends-is_kind list_item list_item h = here
Descends-is_kind list_item window h = up list_item_window here
Descends-is_kind list list h = here
Descends-is_kind list window h = up list_window here
Descends-is_kind _ _ h = cc

is_kind-Parent :
    {j k : ObjectKind} → Parent j k → (l : ObjectKind) → is_kind k l ≡ true → is_kind j l ≡ true
unfolding is_kind
is_kind-Parent object_reference reference h = cc
is_kind-Parent item_object reference h = cc
is_kind-Parent item_list_object reference h = cc
is_kind-Parent container_item_list reference h = cc
is_kind-Parent actor_container reference h = cc
is_kind-Parent player_actor reference h = cc
is_kind-Parent button_window reference h = cc
is_kind-Parent text_window reference h = cc
is_kind-Parent edit_window reference h = cc
is_kind-Parent checkbox_window reference h = cc
is_kind-Parent radio_button_window reference h = cc
is_kind-Parent list_item_window reference h = cc
is_kind-Parent list_window reference h = cc
is_kind-Parent _ _ h = cc

is_kind-Descends : {k l : ObjectKind} → Descends k l → is_kind k l ≡ true
unfolding is_kind
is_kind-Descends (here {k = reference}) = refl
is_kind-Descends here = refl
is_kind-Descends (up {l = l} p d) = is_kind-Parent p l (is_kind-Descends d)

-- The masks mean the hierarchy: a kind passes another's test exactly when it descends from it.
pub is_kind_iff : (k l : ObjectKind) → (is_kind k l ≡ true) ↔ Descends k l
is_kind_iff k l = (Descends-is_kind k l, is_kind-Descends)
