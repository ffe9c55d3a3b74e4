-- ===== src/Map.antt =====
-- The standard library's maps (`HashMap`, `DashMap`, `BTreeMap`) as the program uses them: an
-- association list that holds a key at most once. The order of the entries is the order of
-- insertion, where the library's is not fixed.
pub mod Laws
pub mod Iter
use ashfall.Prelude.{
  Bool, true, false, Option, none, some, List, [], ◌∷◌, Eq, ◌==◌, if◌then◌else◌, map,
}

pub record Map {ℓ κ} (K : Type ℓ) (V : Type κ) : Type (ℓ ⊔ κ) where
  pub entries : List (K × V)

abbrev pub is_some {ℓ} : {A : Type ℓ} → Option A → Bool
is_some none = false
is_some (some a) = true

module _ {ℓ κ} {K : Type ℓ} {V : Type κ} where
  unfoldable pub empty : Map K V
  empty = record { entries = [] }

  -- `values()`
  unfoldable pub values : Map K V → List V
  values m = map (λ (e : K × V). e.1) m.entries

module _ {ℓ κ} {K : Type ℓ} {V : Type κ} ⦃e : Eq K⦄ where
  pub find : K → List (K × V) → Option V
  find k [] = none
  find k ((j, v) ∷ l) = if j == k then some v else find k l

  put : K → V → List (K × V) → List (K × V)
  put k v [] = (k, v) ∷ []
  put k v ((j, w) ∷ l) = if j == k then (k, v) ∷ l else (j, w) ∷ put k v l

  pub without : K → List (K × V) → List (K × V)
  without k [] = []
  without k ((j, v) ∷ l) = let rest = without k l in if j == k then rest else (j, v) ∷ rest

  -- Keeps the entries that pass a test of their key and value: `retain`.
  filter_entries : (K → V → Bool) → List (K × V) → List (K × V)
  filter_entries p [] = []
  filter_entries p ((j, v) ∷ l) =
      let rest = filter_entries p l in if p j v then (j, v) ∷ rest else rest

  -- `get`
  unfoldable pub lookup : Map K V → K → Option V
  unfolding find
  lookup m k = find k m.entries

  -- `insert`: an old value of the key is replaced.
  unfoldable pub insert : Map K V → K → V → Map K V
  unfolding put
  insert m k v = record { entries = put k v m.entries }

  unfoldable pub remove : Map K V → K → Map K V
  unfolding without
  remove m k = record { entries = without k m.entries }

  unfoldable pub retain : Map K V → (K → V → Bool) → Map K V
  unfolding filter_entries
  retain m p = record { entries = filter_entries p m.entries }

  abbrev pub contains_key : Map K V → K → Bool
  contains_key m k = is_some (lookup m k)
