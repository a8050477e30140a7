-- ===== src/Prelude/MapsAll.antt =====
-- What holds of every value of a map, and how the operations keep it.
use mathlib.Core.Path.{◌≡◌}
use mathlib.Core.Logic.{inl, inr}
use mathlib.Core.Bool.{Bool}
use mathlib.Core.Option.{some}
use mathlib.Core.List.{[]}
use native.Mathlib.Omega.{arith}
use frankclaw.Prelude.Tests.{Eq, Option-cases}
use frankclaw.Prelude.Maps.{
  Map, lookup, insert, remove, modify, retain, Distinct, lookup-insert, lookup-remove,
  lookup-modify, lookup-retain,
}

module _ {K V : Type 0} ⦃e : Eq K⦄ (P : K → V → Type 0) where
  -- `P` holds of every entry.
  pub record Everywhere (m : Map K V) : Type 0 where
    pub at_key : (k : K) (v : V) → lookup k m ≡ some v → P k v

  pub Everywhere-empty : Everywhere []
  unfolding lookup
  Everywhere-empty = record { at_key = λ k v h. cc }

  pub Everywhere-insert :
      (k : K) (v : V) (m : Map K V) → P k v → Everywhere m → Everywhere (insert k v m)
  Everywhere-insert k v m p h = record {
    at_key = λ j w q. ground (arith, lookup-insert k j v m, e.same_iff k j, h.at_key j w);
  }

  pub Everywhere-remove : (k : K) (m : Map K V) → Everywhere m → Everywhere (remove k m)
  Everywhere-remove k m h = record {
    at_key = λ j w q. ground (arith, lookup-remove k j m, h.at_key j w);
  }

  pub Everywhere-modify :
      (k : K) (f : V → V) (m : Map K V)
      → ((v : V) → lookup k m ≡ some v → P k v → P k (f v))
      → Everywhere m
      → Everywhere (modify k f m)
  Everywhere-modify k f m keep h = record {
    at_key = λ j w q. elim (Option-cases (lookup k m)) [
      | inl absent ↦ ground (arith, lookup-modify k j f m, e.same_iff k j, h.at_key j w)
      | inr (v, present) ↦ ground (
        arith,
        lookup-modify k j f m,
        e.same_iff k j,
        h.at_key j w,
        keep v present (h.at_key k v present),
      )
    ];
  }

  pub Everywhere-retain :
      (keep : K → V → Bool) (m : Map K V) → Distinct m → Everywhere m → Everywhere (retain keep m)
  Everywhere-retain keep m d h = record {
    at_key = λ j w q. elim (Option-cases (lookup j m)) [
      | inl absent ↦ ground (arith, lookup-retain keep j m d)
      | inr (v, present) ↦ ground (arith, lookup-retain keep j m d, h.at_key j v)
    ];
  }
