-- ===== src/Prelude/Maps.antt =====
-- `std::collections::HashMap` as a list of entries with distinct keys. The order of the list
-- stands for the unspecified order of iteration.
use Prim.Native.Nat.{◌+◌, ◌≤◌, ◌<◌}
use mathlib.Core.Path.{◌≡◌, refl}
use mathlib.Core.Bool.{Bool}
use mathlib.Core.Option
use mathlib.Core.Option.{Option, none, some}
use mathlib.Core.List.{List, [], ◌∷◌}
use native.Mathlib.Omega.{arith}
use frankclaw.Prelude.Tests.{Eq, ◌==◌, if◌then◌else◌}
use frankclaw.Prelude.Lists.{length}

abbrev pub Map : Type 0 → Type 0 → Type 0
Map K V = List (K × V)

-- `values()`.
abbrev pub values : {K V : Type 0} → Map K V → List V
values [] = []
values ((k, v) ∷ m) = v ∷ values m

module _ {K V : Type 0} where
  -- `retain(keep)`.
  unfoldable pub retain : (K → V → Bool) → Map K V → Map K V
  retain keep [] = []
  retain keep ((k, v) ∷ m) = let rest = retain keep m in if keep k v then (k, v) ∷ rest else rest

module _ {K V : Type 0} ⦃e : Eq K⦄ where
  -- `get(k)`.
  unfoldable pub lookup : K → Map K V → Option V
  lookup k [] = none
  lookup k ((i, held) ∷ m) = if i == k then some held else lookup k m

  -- `remove(k)`.
  unfoldable pub remove : K → Map K V → Map K V
  remove k [] = []
  remove k ((j, v) ∷ m) = let rest = remove k m in if j == k then rest else (j, v) ∷ rest

  -- `if let Some(v) = get_mut(k) { *v = f(v) }`.
  unfoldable pub modify : K → (V → V) → Map K V → Map K V
  modify k f [] = []
  modify k f ((j, v) ∷ m) = if j == k then (j, f v) ∷ m else (j, v) ∷ modify k f m

  -- `insert(k, v)`: the key that stands there stays.
  unfoldable pub insert : K → V → Map K V → Map K V
  insert k new [] = (k, new) ∷ []
  insert k new ((i, old) ∷ m) = if i == k then (i, new) ∷ m else (i, old) ∷ insert k new m

  -- No key stands twice.
  abbrev pub Distinct : Map K V → Type 0
  Distinct [] = Unit
  Distinct ((k, v) ∷ m) = (lookup k m ≡ none) × Distinct m

  pub lookup-insert :
      (k j : K) (v : V) (m : Map K V)
      → lookup j (insert k v m) ≡ (if k == j then some v else lookup j m)
  unfolding lookup insert
  lookup-insert k j v [] = refl
  lookup-insert k j v ((i, old) ∷ m) =
      ground (arith, lookup-insert k j v m, e.same_iff i k, e.same_iff i j, e.same_iff k j)

  pub lookup-remove :
      (k j : K) (m : Map K V) → lookup j (remove k m) ≡ (if k == j then none else lookup j m)
  unfolding lookup remove
  lookup-remove k j [] = ground arith
  lookup-remove k j ((i, w) ∷ m) =
      ground (arith, e.same_iff k j, e.same_iff i k, e.same_iff i j, lookup-remove k j m)

  pub lookup-modify :
      (k j : K) (f : V → V) (m : Map K V)
      → lookup j (modify k f m) ≡ (if k == j then Option.map f (lookup j m) else lookup j m)
  unfolding lookup modify
  lookup-modify k j f [] = ground arith
  lookup-modify k j f ((i, w) ∷ m) =
      ground (arith, e.same_iff k j, e.same_iff i k, e.same_iff i j, lookup-modify k j f m)

  -- What `retain` leaves under a key.
  abbrev pub kept : (K → V → Bool) → K → Option V → Option V
  kept keep k none = none
  kept keep k (some v) = if keep k v then some v else none

  lookup-retain_missing :
      (keep : K → V → Bool) (k : K) (m : Map K V)
      → lookup k m ≡ none
      → lookup k (retain keep m) ≡ none
  unfolding lookup retain
  lookup-retain_missing keep k [] h = refl
  lookup-retain_missing keep k ((j, v) ∷ m) h = ground (arith, lookup-retain_missing keep k m)

  pub lookup-retain :
      (keep : K → V → Bool) (k : K) (m : Map K V)
      → Distinct m
      → lookup k (retain keep m) ≡ kept keep k (lookup k m)
  unfolding lookup retain
  lookup-retain keep k [] d = refl
  lookup-retain keep k ((j, v) ∷ m) d =
      ground (arith, e.same_iff j k, lookup-retain keep k m d.1, lookup-retain_missing keep k m)

  pub Distinct-insert : (k : K) (v : V) (m : Map K V) → Distinct m → Distinct (insert k v m)
  unfolding insert lookup
  Distinct-insert k v [] d = (refl, tt)
  Distinct-insert k v ((j, w) ∷ m) d =
      ground
        (arith, e.same_iff j k, e.same_iff k j, lookup-insert k j v m, Distinct-insert k v m d.1)

  pub Distinct-remove : (k : K) (m : Map K V) → Distinct m → Distinct (remove k m)
  unfolding remove
  Distinct-remove k [] d = tt
  Distinct-remove k ((j, w) ∷ m) d =
      ground (arith, e.same_iff k j, lookup-remove k j m, Distinct-remove k m d.1)

  pub Distinct-retain : (keep : K → V → Bool) (m : Map K V) → Distinct m → Distinct (retain keep m)
  unfolding retain
  Distinct-retain keep [] d = tt
  Distinct-retain keep ((j, w) ∷ m) d =
      ground (arith, lookup-retain_missing keep j m, Distinct-retain keep m d.1)

  pub Distinct-modify : (k : K) (f : V → V) (m : Map K V) → Distinct m → Distinct (modify k f m)
  unfolding modify lookup
  Distinct-modify k f [] d = tt
  Distinct-modify k f ((j, w) ∷ m) d =
      ground (arith, lookup-modify k j f m, Distinct-modify k f m d.1)

  pub length-insert-le : (k : K) (v : V) (m : Map K V) → length (insert k v m) ≤ length m + 1
  unfolding insert
  length-insert-le k v [] = omega arith
  length-insert-le k v ((j, w) ∷ m) = ground (arith, length-insert-le k v m)

  pub length-insert_present :
      (k : K) (v w : V) (m : Map K V) → lookup k m ≡ some v → length (insert k w m) ≡ length m
  unfolding insert lookup
  length-insert_present k v w [] h = cc
  length-insert_present k v w ((j, u) ∷ m) h = ground (arith, length-insert_present k v w m)

  pub length-remove-le : (k : K) (m : Map K V) → length (remove k m) ≤ length m
  unfolding remove
  length-remove-le k [] = omega arith
  length-remove-le k ((j, w) ∷ m) = ground (arith, length-remove-le k m)

  pub length-remove_present :
      (k : K) (v : V) (m : Map K V) → lookup k m ≡ some v → length (remove k m) < length m
  unfolding remove lookup
  length-remove_present k v [] h = cc
  length-remove_present k v ((j, w) ∷ m) h =
      ground (arith, length-remove-le k m, length-remove_present k v m)

pub length-retain-le :
    {K V : Type 0} (keep : K → V → Bool) (m : Map K V) → length (retain keep m) ≤ length m
unfolding retain
length-retain-le keep [] = omega arith
length-retain-le keep ((j, w) ∷ m) = ground (arith, length-retain-le keep m)
