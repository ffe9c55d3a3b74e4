-- ===== src/StringCache/Forget.antt =====
-- What a receiver forgets: learning an id cuts its table off behind that id.
use ashfall.Prelude.{
  ℕ, zero, suc, ◌+◌, ◌-◌, ◌≤◌, ◌<◌, ◌≡◌, refl, ap, none, List, [], ◌∷◌, arith, length,
  length-append, get_elem?, set, take, replicate, length-replicate,
}
use ashfall.StringCache.{Text, StringTable, lookup, nonempty, inline, resize, resolve}

length-set : (xs : List Text) (i : ℕ) (s : Text) → length (set xs i s) ≡ length xs
length-set [] i s = refl
length-set (x ∷ xs) zero s = refl
length-set (x ∷ xs) (suc i) s = ap suc (length-set xs i s)

length-take-room : (n : ℕ) (xs : List Text) → length (take n xs) + (n - length xs) ≡ n
length-take-room zero xs = omega arith
length-take-room (suc n) [] = omega arith
length-take-room (suc n) (x ∷ xs) = omega (arith, length-take-room n xs)

length-resize : (xs : List Text) (n : ℕ) (s : Text) → length (resize xs n s) ≡ n
length-resize xs n s = omega (
  arith,
  length-append (take n xs) (replicate (n - length xs) s),
  length-replicate (n - length xs) s,
  length-take-room n xs,
)

get_elem?_beyond : (xs : List Text) (i : ℕ) → length xs ≤ i → get_elem? xs i ≡ none
get_elem?_beyond [] i h = refl
get_elem?_beyond (x ∷ xs) zero h = absurd (omega arith)
get_elem?_beyond (x ∷ xs) (suc i) h = get_elem?_beyond xs i (omega arith)

-- Where an `Inline` teaches an id that the receiver has not learned, every higher id that it has
-- learned before is missing afterwards.
pub resolve-inline_forgets :
    (t : StringTable) (id : ℕ) (value : Text) (later : ℕ)
    → lookup t id ≡ none
    → id < later
    → lookup (resolve (inline id value) t).1 later ≡ none
unfolding resolve
resolve-inline_forgets t id value later missing above =
    let table = resize t.by_id (id + 1) [] in
    let short : length (set table id value) ≤ later =
      omega (arith, length-set table id value, length-resize t.by_id (id + 1) []) in
    rw (missing, resolve)
      (unfold lookup nonempty in rw (get_elem?_beyond (set table id value) later short, nonempty))
