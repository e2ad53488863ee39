-- ===== src/Prelude/Map.antt =====
-- `BTreeMap` and `BTreeSet`: entries in the order of their keys.
use Prim.Native.Nat.{Ordering, suc, ◌≤◌}
use mathlib.Core.Path.{◌≡◌, refl}
use mathlib.Core.Bool.{Bool, true, false}
use mathlib.Core.Option.{Option, none, some}
use mathlib.Core.List.{List, [], ◌∷◌, map}
use photo_sync.Prelude.Lists.{filter, length}
use native.Mathlib.Omega.{arith}
use photo_sync.Prelude.Tests.{if◌then◌else◌, is_some}
use photo_sync.Prelude.Order.{Ord, ◌==◌, eq_iff, eq_refl}

abbrev pub Map {ℓ κ} : Type ℓ → Type κ → Type (ℓ ⊔ κ)
Map K V = List (K × V)

abbrev pub Set {ℓ} : Type ℓ → Type ℓ
Set K = Map K (Unit {0})

-- `contains` of a list
module _ {ℓ} {K : Type ℓ} ⦃o : Ord K⦄ where
  abbrev pub elem : K → List K → Bool
  elem k [] = false
  elem k (j ∷ ks) = if j == k then true else elem k ks

module _ {ℓ κ} {K : Type ℓ} {V : Type κ} ⦃o : Ord K⦄ where
  unfoldable pub lookup : K → Map K V → Option V
  lookup k [] = none
  lookup k ((j, v) ∷ m) = if j == k then some v else lookup k m

  unfoldable pub insert : K → V → Map K V → Map K V
  insert k v [] = (k, v) ∷ []
  insert k v ((j, w) ∷ m) = elim (o.cmp k j) [
    | Ordering.lt ↦ (k, v) ∷ (j, w) ∷ m
    | Ordering.eq ↦ (k, v) ∷ m
    | Ordering.gt ↦ (j, w) ∷ insert k v m
  ]

  unfoldable pub remove : K → Map K V → Map K V
  remove k [] = []
  remove k ((j, v) ∷ m) = let rest = remove k m in if j == k then rest else (j, v) ∷ rest

  -- `get_mut` and a write through it: the value of a key, where there is one, is replaced.
  unfoldable pub adjust : K → (V → V) → Map K V → Map K V
  adjust k f [] = []
  adjust k f ((j, v) ∷ m) = if j == k then (j, f v) ∷ m else (j, v) ∷ adjust k f m

  unfoldable pub contains : K → Map K V → Bool
  contains k m = is_some (lookup k m)

  pub lookup-insert :
      (k j : K) (v : V) (m : Map K V)
      → lookup j (insert k v m) ≡ (if k == j then some v else lookup j m)
  unfolding lookup insert ◌==◌
  lookup-insert k j v [] = refl
  lookup-insert k j v ((i, w) ∷ m) = ground (
    arith,
    lookup-insert k j v m,
    o.eq_of_cmp k i,
    o.eq_of_cmp i j,
    o.eq_of_cmp k j,
    o.cmp_refl i,
    o.cmp_refl j,
  )

  pub lookup-remove :
      (k j : K) (m : Map K V) → lookup j (remove k m) ≡ (if k == j then none else lookup j m)
  unfolding lookup remove
  lookup-remove k j [] = ground arith
  lookup-remove k j ((i, w) ∷ m) =
      ground (arith, lookup-remove k j m, eq_iff i k, eq_iff i j, eq_iff k j)

  pub lookup-adjust :
      (k j : K) (f : V → V) (m : Map K V)
      → lookup j (adjust k f m)
        ≡ (if k == j then elim (lookup j m) [ none ↦ none | some v ↦ some (f v) ] else lookup j m)
  unfolding lookup adjust
  lookup-adjust k j f [] = ground arith
  lookup-adjust k j f ((i, w) ∷ m) =
      ground (arith, lookup-adjust k j f m, eq_iff i k, eq_iff i j, eq_iff k j)

  pub lookup-insert_self : (k : K) (v : V) (m : Map K V) → lookup k (insert k v m) ≡ some v
  lookup-insert_self k v m = ground (arith, lookup-insert k k v m, eq_refl k)

  -- `retain`
  abbrev pub retain : (K → V → Bool) → Map K V → Map K V
  retain p m = filter (λ e. p e.0 e.1) m

  pub lookup-retain_key :
      (p : K → Bool) (k : K) (m : Map K V)
      → lookup k (retain (λ j v. p j) m) ≡ (if p k then lookup k m else none)
  unfolding lookup
  lookup-retain_key p k [] = ground arith
  lookup-retain_key p k ((j, v) ∷ m) = ground (arith, lookup-retain_key p k m, eq_iff j k)

  -- What a filter keeps passes it.
  pub lookup-retain_passes :
      (p : K → V → Bool) (k : K) (v : V) (m : Map K V)
      → lookup k (retain p m) ≡ some v
      → p k v ≡ true
  unfolding lookup
  lookup-retain_passes p k v [] h = cc
  lookup-retain_passes p k v ((j, w) ∷ m) h =
      ground (arith, lookup-retain_passes p k v m, eq_iff j k)

  -- `extend`, for every key of a list, with the value the key has.
  abbrev pub insert_each : (K → V) → List K → Map K V → Map K V
  insert_each f [] m = m
  insert_each f (k ∷ ks) m = insert_each f ks (insert k (f k) m)

  pub lookup-insert_each :
      (f : K → V) (k : K) (ks : List K) (m : Map K V)
      → lookup k (insert_each f ks m) ≡ (if elem k ks then some (f k) else lookup k m)
  lookup-insert_each f k [] m = refl
  lookup-insert_each f k (j ∷ ks) m =
      ground
        (arith, lookup-insert_each f k ks (insert j (f j) m), lookup-insert j k (f j) m, eq_iff j k)

  pub elem-keys : (k : K) (m : Map K V) → elem k (map (λ e. e.0) m) ≡ contains k m
  unfolding contains lookup
  elem-keys k [] = refl
  elem-keys k ((j, v) ∷ m) = ground (arith, elem-keys k m)

  abbrev pub values : Map K V → List V
  values m = map (λ e. e.1) m

  abbrev pub keys : Map K V → List K
  keys m = map (λ e. e.0) m

  -- `collect` into a map: a later entry replaces an earlier one with its key.
  unfoldable pub collect_onto : List (K × V) → Map K V → Map K V
  collect_onto [] m = m
  collect_onto ((k, v) ∷ l) m = collect_onto l (insert k v m)

  unfoldable pub collect : List (K × V) → Map K V
  unfolding collect_onto
  collect l = collect_onto l []

pub ruleset map_laws = (lookup-insert, lookup-remove, lookup-adjust)

module _ {ℓ} {K : Type ℓ} ⦃o : Ord K⦄ where
  unfoldable pub add : K → Set K → Set K
  add k s = insert k tt s

  unfoldable pub of_list : List K → Set K
  of_list l = collect (map (λ k. (k, tt)) l)

  pub contains-add :
      (k j : K) (s : Set K) → contains j (add k s) ≡ (if k == j then true else contains j s)
  unfolding contains add
  contains-add k j s = ground (arith, lookup-insert k j tt s)

  pub contains-remove :
      (k j : K) (s : Set K) → contains j (remove k s) ≡ (if k == j then false else contains j s)
  unfolding contains
  contains-remove k j s = ground (arith, lookup-remove k j s)

  pub length-add : (k : K) (s : Set K) → length (add k s) ≤ suc (length s)
  unfolding add insert
  length-add k [] = omega arith
  length-add k ((j, v) ∷ s) = ground (arith, length-add k s)
