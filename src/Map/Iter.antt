-- ===== src/Map/Iter.antt =====
-- Iterating over a map and changing its values in place. A key is held once, so that what stands
-- behind an entry is read without its key.
use ashfall.Prelude.{
  Bool, true, false, ◌≡◌, refl, Option, none, some, List, [], ◌∷◌, arith, Eq, ◌==◌, inl, inr,
  if◌then◌else◌, filterb, contains, Option-cases,
}
use ashfall.Map.{Map, find, without, lookup, remove}
use ashfall.Map.Laws.{find-without, lookup-remove}

module _ {ℓ} {K : Type ℓ} ⦃e : Eq K⦄ where
  abbrev pub other_than : K → List K → List K
  other_than k l = filterb (λ (i : K). if i == k then false else true) l

  pub contains-other_than :
      (j k : K) (l : List K)
      → contains (other_than j l) k ≡ (if j == k then false else contains l k)
  contains-other_than j k [] = ground arith
  contains-other_than j k (i ∷ l) =
      ground (arith, e.beq_iff j k, e.beq_iff i j, e.beq_iff i k, contains-other_than j k l)

module _ {κ} {V : Type κ} where
  abbrev pub and_then : Option V → (V → Option V) → Option V
  and_then none f = none
  and_then (some v) f = f v

  abbrev pub passes : (V → Bool) → Option V → Bool
  passes p none = false
  passes p (some v) = p v

module _ {ℓ κ} {K : Type ℓ} {V : Type κ} ⦃e : Eq K⦄ where
  revise : (V → Option V) → List (K × V) → List (K × V)
  revise f [] = []
  revise f ((j, v) ∷ l) =
      let rest = without j (revise f l) in elim (f v) [ some w ↦ (j, w) ∷ rest | none ↦ rest ]

  -- `retain` with a closure that changes the value it looks at.
  unfoldable pub retain_mut : (V → Option V) → Map K V → Map K V
  unfolding revise without
  retain_mut f m = record { entries = revise f m.entries }

  keys_in : (V → Bool) → List (K × V) → List K
  keys_in p [] = []
  keys_in p ((j, v) ∷ l) = let rest = other_than j (keys_in p l) in if p v then j ∷ rest else rest

  -- `iter().filter(..).map(key).collect()`
  unfoldable pub keys_where : (V → Bool) → Map K V → List K
  unfolding keys_in
  keys_where p m = keys_in p m.entries

  -- A removal per key of a list.
  unfoldable pub remove_all : List K → Map K V → Map K V
  remove_all [] m = m
  remove_all (k ∷ ks) m = remove_all ks (remove m k)

  find-revise :
      (f : V → Option V) (k : K) (l : List (K × V)) → find k (revise f l) ≡ and_then (find k l) f
  unfolding find revise
  find-revise f k [] = refl
  find-revise f k ((j, v) ∷ l) = elim (Option-cases (f v)) [
    | inl h ↦ ground (arith, e.beq_iff j k, find-without j k (revise f l), find-revise f k l)
    | inr (w, h) ↦ ground (arith, e.beq_iff j k, find-without j k (revise f l), find-revise f k l)
  ]

  pub lookup-retain_mut :
      (f : V → Option V) (m : Map K V) (k : K) → lookup (retain_mut f m) k ≡ and_then (lookup m k) f
  unfolding lookup retain_mut
  lookup-retain_mut f m k = find-revise f k m.entries

  contains-keys_in :
      (p : V → Bool) (k : K) (l : List (K × V)) → contains (keys_in p l) k ≡ passes p (find k l)
  unfolding find keys_in
  contains-keys_in p k [] = refl
  contains-keys_in p k ((j, v) ∷ l) =
      ground (arith, e.beq_iff j k, contains-other_than j k (keys_in p l), contains-keys_in p k l)

  pub contains-keys_where :
      (p : V → Bool) (m : Map K V) (k : K) → contains (keys_where p m) k ≡ passes p (lookup m k)
  unfolding lookup keys_where
  contains-keys_where p m k = contains-keys_in p k m.entries

  pub lookup-remove_all :
      (ks : List K) (m : Map K V) (k : K)
      → lookup (remove_all ks m) k ≡ (if contains ks k then none else lookup m k)
  unfolding remove_all
  lookup-remove_all [] m k = refl
  lookup-remove_all (j ∷ ks) m k =
      ground (arith, lookup-remove_all ks (remove m j) k, lookup-remove m j k)
