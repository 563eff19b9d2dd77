-- ===== src/Prelude/Maps.antt =====
-- Keyed tables: `std::unordered_map` as an association list. The order of the list stands for the
-- unspecified iteration order of the container.
use mathlib.Core.Path.{◌≡◌, refl}
use mathlib.Core.Logic.{◌↔◌, ◌≢◌}
use mathlib.Core.Bool.{Bool, true}
use mathlib.Core.List.{List, [], ◌∷◌}
use mathlib.Core.Option.{Option, none, some}
use Prim.Native.Nat.{ℕ}
use Prim.Native.String.{String}
use native.Mathlib.Omega.{arith}
use text.Mathlib.Text.{◌==◌ as str_eq}
use text.Mathlib.TextEquality.{eq_iff}
use glimmer.Prelude.Tests.{◌==◌, if◌then◌else◌}

pub record Eq (K : Type 0) : Type 0 where
  pub beq : K → K → Bool
  pub beq_iff : (a b : K) → (beq a b ≡ true) ↔ (a ≡ b)

pub nat_beq_iff : (a b : ℕ) → ((a == b) ≡ true) ↔ (a ≡ b)
nat_beq_iff a b = ground arith

instance abbrev pub nat_eq : Eq ℕ
nat_eq = record { beq = ◌==◌; beq_iff = nat_beq_iff }

instance abbrev pub string_eq : Eq String
string_eq = record { beq = str_eq; beq_iff = eq_iff }

module _ {K V : Type 0} ⦃e : Eq K⦄ where
  -- `find`, `at`
  unfoldable pub lookup : K → List (K × V) → Option V
  lookup k [] = none
  lookup k ((j, v) ∷ m) = if e.beq j k then some v else lookup k m

  -- a write through an iterator to the entry of `k`
  unfoldable pub assign : K → V → List (K × V) → List (K × V)
  assign k v [] = []
  assign k v ((j, w) ∷ m) = if e.beq j k then (j, v) ∷ m else (j, w) ∷ assign k v m

  -- `erase(key)`; the keys of a table are unique, so at most one entry goes
  unfoldable pub remove : K → List (K × V) → List (K × V)
  remove k [] = []
  remove k ((j, w) ∷ m) = let rest = remove k m in if e.beq j k then rest else (j, w) ∷ rest

  -- `emplace` of a key that is not there; the caller has looked
  unfoldable pub emplace : K → V → List (K × V) → List (K × V)
  emplace k v m = (k, v) ∷ m

  pub lookup-emplace :
      (k j : K) (v : V) (m : List (K × V))
      → lookup j (emplace k v m) ≡ (if e.beq k j then some v else lookup j m)
  unfolding lookup emplace
  lookup-emplace k j v m = refl

  pub lookup-assign :
      (k j : K) (v : V) (m : List (K × V))
      → lookup j (assign k v m)
        ≡ (if e.beq k j then elim (lookup k m) [ none ↦ none | some w ↦ some v ] else lookup j m)
  unfolding lookup assign
  lookup-assign k j v [] = ground arith
  lookup-assign k j v ((i, w) ∷ m) =
      ground (arith, lookup-assign k j v m, e.beq_iff i k, e.beq_iff i j, e.beq_iff k j)

  pub lookup-remove :
      (k j : K) (m : List (K × V))
      → lookup j (remove k m) ≡ (if e.beq k j then none else lookup j m)
  unfolding lookup remove
  lookup-remove k j [] = ground arith
  lookup-remove k j ((i, w) ∷ m) =
      ground (arith, lookup-remove k j m, e.beq_iff i k, e.beq_iff i j, e.beq_iff k j)

  pub lookup-assign_same :
      (k : K) (v w : V) (m : List (K × V)) → lookup k m ≡ some w → lookup k (assign k v m) ≡ some v
  lookup-assign_same k v w m h = ground (arith, lookup-assign k k v m, e.beq_iff k k)

  pub lookup-assign_other :
      (k j : K) (v : V) (m : List (K × V)) → j ≢ k → lookup j (assign k v m) ≡ lookup j m
  lookup-assign_other k j v m d = ground (arith, lookup-assign k j v m, e.beq_iff k j)

  pub lookup-emplace_same : (k : K) (v : V) (m : List (K × V)) → lookup k (emplace k v m) ≡ some v
  lookup-emplace_same k v m = ground (arith, lookup-emplace k k v m, e.beq_iff k k)

  pub lookup-emplace_other :
      (k j : K) (v : V) (m : List (K × V)) → j ≢ k → lookup j (emplace k v m) ≡ lookup j m
  lookup-emplace_other k j v m d = ground (arith, lookup-emplace k j v m, e.beq_iff k j)
