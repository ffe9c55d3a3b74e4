-- ===== src/Map/Laws.antt =====
-- What a client of a map may rely on. Lookups after an update are stated with a test, so that they
-- serve `simp` and `ground` alike.
use ashfall.Prelude.{
  suc, ◌≤◌, ◌<◌, ◌≡◌, ◌≢◌, ◌⊎◌, refl, none, some, List, [], ◌∷◌, arith, Eq, ◌==◌, if◌then◌else◌,
  length,
}
use ashfall.Map.{Map, empty, find, put, without, lookup, insert, remove}

module _ {ℓ κ} {K : Type ℓ} {V : Type κ} ⦃e : Eq K⦄ where
  find-put :
      (k j : K) (v : V) (l : List (K × V))
      → find j (put k v l) ≡ (if k == j then some v else find j l)
  unfolding find put
  find-put k j v [] = refl
  find-put k j v ((i, w) ∷ l) =
      ground (arith, e.beq_iff k j, e.beq_iff i k, e.beq_iff i j, find-put k j v l)

  pub find-without :
      (k j : K) (l : List (K × V)) → find j (without k l) ≡ (if k == j then none else find j l)
  unfolding find without
  find-without k j [] = ground arith
  find-without k j ((i, w) ∷ l) =
      ground (arith, e.beq_iff k j, e.beq_iff i k, e.beq_iff i j, find-without k j l)

  pub lookup-empty : (k : K) → lookup (empty {V = V}) k ≡ none
  unfolding lookup empty
  lookup-empty k = refl

  pub lookup-insert :
      (m : Map K V) (k j : K) (v : V)
      → lookup (insert m k v) j ≡ (if k == j then some v else lookup m j)
  unfolding lookup insert
  lookup-insert m k j v = find-put k j v m.entries

  pub lookup-remove :
      (m : Map K V) (k j : K) → lookup (remove m k) j ≡ (if k == j then none else lookup m j)
  unfolding lookup remove
  lookup-remove m k j = find-without k j m.entries

  -- Where a lookup after an update finds its value.
  pub lookup-remove_inv :
      (m : Map K V) (k j : K) (d : V)
      → lookup (remove m k) j ≡ some d
      → (k ≢ j) × (lookup m j ≡ some d)
  lookup-remove_inv m k j d h = (
    λ same. ground (arith, lookup-remove m k j, e.beq_iff k j),
    ground (arith, lookup-remove m k j, e.beq_iff k j),
  )

  pub lookup-insert_inv :
      (m : Map K V) (k j : K) (v d : V)
      → lookup (insert m k v) j ≡ some d
      → ((k ≡ j) × (v ≡ d)) ⊎ (lookup m j ≡ some d)
  lookup-insert_inv m k j v d h = ground (arith, lookup-insert m k j v, e.beq_iff k j)

  length-without : (k : K) (l : List (K × V)) → length (without k l) ≤ length l
  unfolding without
  length-without k [] = omega arith
  length-without k ((i, w) ∷ l) = ground (arith, length-without k l)

  -- A key that is there makes the map smaller when it is removed.
  length-without-lt :
      (k : K) (v : V) (l : List (K × V)) → find k l ≡ some v → length (without k l) < length l
  unfolding find without
  length-without-lt k v [] h = cc
  length-without-lt k v ((i, w) ∷ l) h = ground (arith, length-without k l, length-without-lt k v l)

  pub size-remove-lt :
      (m : Map K V) (k : K) (v : V)
      → lookup m k ≡ some v
      → length (remove m k).entries < length m.entries
  unfolding lookup remove
  size-remove-lt m k v h = length-without-lt k v m.entries h

  length-put-le : (k : K) (v : V) (l : List (K × V)) → length (put k v l) ≤ suc (length l)
  unfolding put
  length-put-le k v [] = omega arith
  length-put-le k v ((i, w) ∷ l) = ground (arith, length-put-le k v l)

  length-put_present :
      (k : K) (v w : V) (l : List (K × V)) → find k l ≡ some w → length (put k v l) ≡ length l
  unfolding find put
  length-put_present k v w [] h = cc
  length-put_present k v w ((i, x) ∷ l) h = ground (arith, length-put_present k v w l)

  pub size-insert-le :
      (m : Map K V) (k : K) (v : V) → length (insert m k v).entries ≤ suc (length m.entries)
  unfolding insert
  size-insert-le m k v = length-put-le k v m.entries

pub size-insert_present {ℓ κ} :
    {K : Type ℓ} {V : Type κ} ⦃e : Eq K⦄ (m : Map K V) (k : K) (v w : V)
    → lookup m k ≡ some w
    → length (insert m k v).entries ≡ length m.entries
unfolding lookup insert
size-insert_present m k v w h = length-put_present k v w m.entries h

pub size-remove-le {ℓ κ} :
    {K : Type ℓ} {V : Type κ} ⦃e : Eq K⦄ (m : Map K V) (k : K)
    → length (remove m k).entries ≤ length m.entries
unfolding remove
size-remove-le m k = length-without k m.entries

pub ruleset map_laws = (lookup-empty, lookup-insert, lookup-remove)
