-- ===== src/StringCache/Sync.antt =====
-- The server's table and the client's stay in step, so every string arrives as it was sent.
use ashfall.Prelude.{
  ℕ, zero, suc, ◌+◌, ◌-◌, ◌%◌, ◌≤◌, ◌<◌, ◌≡◌, refl, ap, ◌∙◌, inl, inr, none, some, List, [], ◌∷◌,
  ◌++◌, arith, Option-cases, length, length-append, get_elem?, set, take_all, bytes_eq, nat_eq,
}
use ashfall.Map
use ashfall.Map.{Map}
use ashfall.Map.Laws.{lookup-insert_inv, lookup-empty}
use ashfall.StringCache.{
  Text, StringTable, new, intern, lookup, nonempty, or_empty, CachedString, inline, id_only, resize,
  resolve, bind,
}

get_elem?-append_left :
    (xs ys : List Text) (i : ℕ) (s : Text)
    → get_elem? xs i ≡ some s
    → get_elem? (xs ++ ys) i ≡ some s
get_elem?-append_left [] ys i s h = absurd (cc)
get_elem?-append_left (x ∷ xs) ys zero s h = h
get_elem?-append_left (x ∷ xs) ys (suc i) s h = get_elem?-append_left xs ys i s h

get_elem?-append_last : (xs : List Text) (s : Text) → get_elem? (xs ++ s ∷ []) (length xs) ≡ some s
get_elem?-append_last [] s = refl
get_elem?-append_last (x ∷ xs) s = get_elem?-append_last xs s

get_elem?-length : (xs : List Text) → get_elem? xs (length xs) ≡ none
get_elem?-length [] = refl
get_elem?-length (x ∷ xs) = get_elem?-length xs

-- Growing a table by one slot and filling that slot appends a string.
set-resize :
    (xs : List Text) (s : Text) → set (resize xs (length xs + 1) []) (length xs) s ≡ xs ++ s ∷ []
set-resize xs s = rw (take_all (length xs + 1) xs (omega arith)) (rw (room xs) (fill xs))
  where
    room : (xs : List Text) → length xs + 1 - length xs ≡ 1
    room xs = omega arith

    fill : (xs : List Text) → set (xs ++ [] ∷ []) (length xs) s ≡ xs ++ s ∷ []
    fill [] = refl
    fill (x ∷ xs) = ap (◌∷◌ x) (fill xs)

-- The server's table: every id that it knows stands for its string.
pub record IsCoherent (t : StringTable) : Type 0 where
  pub small : length t.by_id ≤ 65536
  pub bound : (s : Text) (id : ℕ) → Map.lookup t.by_str s ≡ some id → get_elem? t.by_id id ≡ some s

new-IsCoherent : IsCoherent new
unfolding new
new-IsCoherent = record {
  small = omega arith;
  bound = λ s id h. ground (arith, lookup-empty {V = ℕ} s);
}

-- One string on its way: the server has bound it to `w`, and the client reads that.
pub record Arrives (t c : StringTable) (value : Text) (w : CachedString × StringTable)
    : Type 0 where
  pub read : (resolve w.0 c).0 ≡ value
  pub in_step : (resolve w.0 c).1.by_id ≡ w.1.by_id
  pub coherent : IsCoherent w.1
  pub grows : length w.1.by_id ≤ suc (length t.by_id)

append-IsCoherent :
    (t : StringTable) (value : Text)
    → IsCoherent t
    → length t.by_id < 65536
    → Map.lookup t.by_str value ≡ none
    → IsCoherent (record {
      by_id = t.by_id ++ value ∷ [];
      by_str = Map.insert t.by_str value (length t.by_id % 65536);
    })
append-IsCoherent t value h room fresh = record {
  small = omega (arith, length-append t.by_id (value ∷ []));
  bound = λ s id found.
      elim (lookup-insert_inv t.by_str value s (length t.by_id % 65536) id found) [
        | inl (same, e) ↦
            let here : id ≡ length t.by_id = omega arith in
            rw here (rw (← same) (get_elem?-append_last t.by_id value))
        | inr old ↦ get_elem?-append_left t.by_id (value ∷ []) id s (h.bound s id old)
      ];
}

or_empty-nonempty : (s : Text) → or_empty (nonempty (some s)) ≡ s
unfolding nonempty
or_empty-nonempty [] = refl
or_empty-nonempty (x ∷ s) = refl

bind_fresh :
    (t : StringTable) (value : Text)
    → Map.lookup t.by_str value ≡ none
    → bind t value ≡ (
      inline (length t.by_id % 65536) value,
      record {
        by_id = t.by_id ++ value ∷ [];
        by_str = Map.insert t.by_str value (length t.by_id % 65536);
      },
    )
unfolding bind intern
bind_fresh t value e = rw (e, bind) (rw (e, intern))

bind_known :
    (t : StringTable) (value : Text) (id : ℕ)
    → Map.lookup t.by_str value ≡ some id
    → bind t value ≡ (id_only id, t)
unfolding bind
bind_known t value id e = rw (e, bind)

learn_next :
    (c : StringTable) (value : Text)
    → (resolve (inline (length c.by_id) value) c).1.by_id ≡ c.by_id ++ value ∷ []
unfolding resolve lookup nonempty
learn_next c value = rw (get_elem?-length c.by_id, resolve) (set-resize c.by_id value)

read_known :
    (c : StringTable) (value : Text) (id : ℕ)
    → get_elem? c.by_id id ≡ some value
    → (resolve (id_only id) c).0 ≡ value
unfolding resolve lookup
read_known c value id e = rw (e, resolve) (or_empty-nonempty value)

bind-Arrives :
    (t c : StringTable) (value : Text)
    → IsCoherent t
    → length t.by_id < 65536
    → c.by_id ≡ t.by_id
    → Arrives t c value (bind t value)
bind-Arrives t c value h room same = elim (Option-cases (Map.lookup t.by_str value)) [
  | inl e ↦
      let next : length t.by_id % 65536 ≡ length c.by_id = omega (arith, ap length same) in
      rw (bind_fresh t value e) (record {
        read = unfold resolve in refl;
        in_step = rw next (learn_next c value ∙ ap (λ (l : List Text). l ++ value ∷ []) same);
        coherent = append-IsCoherent t value h room e;
        grows = omega (arith, length-append t.by_id (value ∷ []));
      })
  | inr (id, e) ↦ rw (bind_known t value id e) (record {
    read = read_known c value id (rw same (h.bound value id e));
    in_step = unfold resolve in same;
    coherent = h;
    grows = omega arith;
  })
]

-- A run of the connection: each string is bound by the server's table and read by the client's.
pub transmit : StringTable → StringTable → List Text → List Text
transmit t c [] = []
transmit t c (value ∷ rest) =
    let (w, t') = bind t value in let (s, c') = resolve w c in s ∷ transmit t' c' rest

transmit-eq :
    (t c : StringTable) (values : List Text)
    → IsCoherent t
    → length t.by_id + length values ≤ 65536
    → c.by_id ≡ t.by_id
    → transmit t c values ≡ values
unfolding transmit
transmit-eq t c [] h room same = refl
transmit-eq t c (value ∷ rest) h room same =
    let a = bind-Arrives t c value h (omega arith) same in
    let grows = a.grows in
    rw (a.read) (
      ap (◌∷◌ value) (
        transmit-eq (bind t value).1 (resolve (bind t value).0 c).1 rest a.coherent
          (omega (arith, grows)) a.in_step))

-- On a fresh connection every string of up to 65536 messages is read as it was sent, whichever of them go
-- out as ids alone, where each message is read right after it was bound: in order, and none lost.
pub transmit-new : (values : List Text) → length values ≤ 65536 → transmit new new values ≡ values
transmit-new values h = transmit-eq new new values new-IsCoherent (unfold new in omega arith) refl
