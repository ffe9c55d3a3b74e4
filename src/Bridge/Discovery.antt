-- ===== src/Bridge/Discovery.antt =====
-- crates/ashfall-bridge/src/hooks/discovery.rs: the actors that the game processes, and the events of those
-- that come and go. A hash set is a list without repetitions, whose order stands for the set's.
use ashfall.Prelude.{
  ℕ, zero, suc, ◌+◌, ◌≡◌, refl, Bool, not, ◌&&◌, ◌||◌, List, [], ◌∷◌, ◌++◌, arith, ◌==◌, nat_eq,
  nat_beq_iff, if◌then◌else◌, contains, filterb,
}
use ashfall.World.Registry.{sort, dedup}
use ashfall.World.Registry.Cells.{contains-append}
use ashfall.Pipe.Events.{encode_npc_spawn_event, encode_npc_remove_event}
use ashfall.Bridge.{Bridge, Engine, local_player_ref, push_event_frame}

-- `HashSet::insert`
abbrev with_ref_id : List ℕ → ℕ → List ℕ
with_ref_id set ref_id = if contains set ref_id then set else set ++ ref_id ∷ []

insert_all : List ℕ → List ℕ → List ℕ
insert_all set [] = set
insert_all set (ref_id ∷ ref_ids) = insert_all (with_ref_id set ref_id) ref_ids

-- Those that were not seen before, and the set with them.
unfoldable pub spawns : List ℕ → List ℕ → List ℕ × List ℕ
spawns seen [] = ([], seen)
spawns seen (ref_id ∷ observed) =
    let known = spawns seen observed in
    let (added, after) = spawns (seen ++ ref_id ∷ []) observed in
    if ref_id == local_player_ref
    then known
    else if contains seen ref_id
    then known
    else (ref_id ∷ added, after)

-- The spawned, the gone, and what is seen now.
unfoldable pub npc_diff : List ℕ → List ℕ → (List ℕ × List ℕ) × List ℕ
unfolding spawns
npc_diff seen observed =
    let (added, all) = spawns seen observed in
    (
      (added, filterb (λ (ref_id : ℕ). not (contains observed ref_id)) all),
      filterb (λ (ref_id : ℕ). contains observed ref_id) all,
    )

-- The walk of a chain of nodes, of at most 4096; `reader` reads memory.
walk_from : (fuel : ℕ) → (ℕ → ℕ) → (next : ℕ) → List ℕ
walk_from zero reader next = []
walk_from (suc fuel) reader next =
    let actor = reader next in
    let ref_id = reader (actor + 0x0C) in
    let rest = walk_from fuel reader (reader (next + 4)) in
    if next == 0
    then []
    else if actor == 0
    then rest
    else if ref_id == 0
    then rest
    else if ref_id == local_player_ref
    then rest
    else ref_id ∷ rest

unfoldable pub walk_actor_list : (head : ℕ) → (ℕ → ℕ) → List ℕ
unfolding walk_from
walk_actor_list head reader = walk_from 4096 reader (reader (head + 4))

unfoldable pub fnv_enumerate_actors : (ℕ → ℕ) → List ℕ
unfolding walk_actor_list
fnv_enumerate_actors reader = dedup (sort (walk_actor_list 0x11E0E80 reader))

module _ {G : Type 0} (e : Engine G) where
  unfoldable pub collect_ref_ids : Bridge G → List ℕ → Bridge G
  unfolding insert_all
  collect_ref_ids b ref_ids = record b { current = insert_all b.current ref_ids }

  unfoldable pub collect_actor_ptr : Bridge G → ℕ → Bridge G
  unfolding collect_ref_ids
  collect_actor_ptr b actor =
      let ref_id = e.rd_u32 b.game (actor + 0x0C) in
      if actor == 0 then b else if ref_id == 0 then b else collect_ref_ids b (ref_id ∷ [])

  spawn_frames : Bridge G → List ℕ → Bridge G
  unfolding push_event_frame
  spawn_frames b [] = b
  spawn_frames b (ref_id ∷ added) =
      spawn_frames
        (push_event_frame b (
          encode_npc_spawn_event (record {
            ref_id = ref_id;
            base_id = e.get_base b.game ref_id;
            pos = e.get_pos b.game ref_id;
            cell = e.get_cell b.game ref_id;
          })))
        added

  remove_frames : Bridge G → List ℕ → Bridge G
  unfolding push_event_frame
  remove_frames b [] = b
  remove_frames b (ref_id ∷ removed) =
      remove_frames (push_event_frame b (encode_npc_remove_event (record { ref_id = ref_id })))
        removed

  -- A window in which nothing was seen is no departure.
  unfoldable pub flush_npc_diff : Bridge G → Bridge G
  unfolding npc_diff spawn_frames remove_frames
  flush_npc_diff b =
      let ((added, removed), last) = npc_diff b.last b.current in
      elim b.current [
        | [] ↦ b
        | id ∷ ids ↦
            remove_frames (spawn_frames (record b { current = []; last = last }) added) removed
      ]

contains-filterb :
    (test : ℕ → Bool) (xs : List ℕ) (id : ℕ)
    → contains (filterb test xs) id ≡ contains xs id && test id
contains-filterb test [] id = refl
contains-filterb test (x ∷ xs) id = ground (arith, contains-filterb test xs id, nat_beq_iff x id)

-- Which of the observed are new, and what is seen with them.
contains-spawns :
    (seen observed : List ℕ) (id : ℕ)
    → (contains (spawns seen observed).0 id
        ≡ contains observed id && (not (id == local_player_ref) && not (contains seen id)))
      × (contains (spawns seen observed).1 id
          ≡ contains seen id || (contains observed id && not (id == local_player_ref)))
unfolding spawns
contains-spawns seen [] id = (refl, ground arith)
contains-spawns seen (x ∷ observed) id = ground (
  arith,
  contains-spawns seen observed id,
  contains-spawns (seen ++ x ∷ []) observed id,
  contains-append seen (x ∷ []) id,
  nat_beq_iff x id,
)

-- After an update, what is seen is what was seen and is observed, and what is observed now but for the
-- player: an actor is reported as new just when it is observed, is not the player and was not seen, and
-- as gone just when it was seen and is not observed, so that a client that adds the ones and drops the
-- others sees what the bridge does.
pub npc_diff_iff :
    (seen observed : List ℕ) (id : ℕ)
    → (contains (npc_diff seen observed).0.0 id
        ≡ contains observed id && (not (id == local_player_ref) && not (contains seen id)))
      × ((contains (npc_diff seen observed).0.1 id ≡ contains seen id && not (contains observed id))
          × (contains (npc_diff seen observed).1 id
              ≡ (contains seen id || contains (npc_diff seen observed).0.0 id)
                && not (contains (npc_diff seen observed).0.1 id)))
unfolding npc_diff
npc_diff_iff seen observed id = ground (
  arith,
  contains-spawns seen observed id,
  contains-filterb (λ (ref_id : ℕ). not (contains observed ref_id)) (spawns seen observed).1 id,
  contains-filterb (λ (ref_id : ℕ). contains observed ref_id) (spawns seen observed).1 id,
)
