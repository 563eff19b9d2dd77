-- ===== src/Prelude/Lists.antt =====
-- Lists measured and indexed by native numbers, and Boolean quantifiers that compute.
use Prim.Native.Nat.{ℕ, zero, suc, ◌+◌}
use mathlib.Core.Path.{◌≡◌, refl, ap}
use mathlib.Core.Bool.{Bool, true, false, ◌||◌}
use mathlib.Core.List.{List, [], ◌∷◌, ◌++◌, map}
use mathlib.Core.Option.{Option, none, some}
use native.Mathlib.Omega.{arith}
use glimmer.Prelude.Tests.{if◌then◌else◌, ◌==◌, Bool-cases}
use mathlib.Core.Logic.{inl, inr}

module _ {ℓ} {A : Type ℓ} where
  abbrev pub length : List A → ℕ
  length [] = 0
  length (x ∷ xs) = suc (length xs)

  abbrev pub get_elem? : List A → ℕ → Option A
  get_elem? [] i = none
  get_elem? (x ∷ xs) zero = some x
  get_elem? (x ∷ xs) (suc i) = get_elem? xs i

  abbrev pub set : List A → ℕ → A → List A
  set [] i v = []
  set (x ∷ xs) zero v = v ∷ xs
  set (x ∷ xs) (suc i) v = x ∷ set xs i v

  abbrev pub take : ℕ → List A → List A
  take zero xs = []
  take (suc n) [] = []
  take (suc n) (x ∷ xs) = x ∷ take n xs

  abbrev pub any : (A → Bool) → List A → Bool
  any p [] = false
  any p (x ∷ xs) = p x || any p xs

  pub length-append : (xs ys : List A) → length (xs ++ ys) ≡ length xs + length ys
  length-append [] ys = omega arith
  length-append (x ∷ xs) ys = omega (arith, length-append xs ys)

  pub length-set : (xs : List A) (i : ℕ) (v : A) → length (set xs i v) ≡ length xs
  length-set [] i v = refl
  length-set (x ∷ xs) zero v = refl
  length-set (x ∷ xs) (suc i) v = ap suc (length-set xs i v)

-- `std::find` over a sequence of numbers, as a test.
abbrev pub elem : ℕ → List ℕ → Bool
elem n [] = false
elem n (x ∷ xs) = x == n || elem n xs

-- `erase(std::find(…))`: the first occurrence goes.
abbrev pub erase : ℕ → List ℕ → List ℕ
erase n [] = []
erase n (x ∷ xs) = if x == n then xs else x ∷ erase n xs

module _ {ℓ} {A : Type ℓ} where
  pub any_none :
      (p : A → Bool) (xs : List A) (i : ℕ) {x : A}
      → any p xs ≡ false
      → get_elem? xs i ≡ some x
      → p x ≡ false
  any_none p [] i h e = cc
  any_none p (y ∷ xs) zero h e = ground arith
  any_none p (y ∷ xs) (suc i) h e = any_none p xs i (ground arith) e

  pub any-some :
      (p : A → Bool) (xs : List A) (i : ℕ) {x : A}
      → get_elem? xs i ≡ some x
      → p x ≡ true
      → any p xs ≡ true
  any-some p [] i e h = cc
  any-some p (y ∷ xs) zero e h = ground arith
  any-some p (y ∷ xs) (suc i) e h = ground (arith, any-some p xs i e h)

  pub any_found :
      (p : A → Bool) (xs : List A)
      → any p xs ≡ true
      → (i : ℕ) × (x : A) × (get_elem? xs i ≡ some x) × (p x ≡ true)
  any_found p [] h = cc
  any_found p (y ∷ xs) h = elim (Bool-cases (p y)) [
    | inl e ↦ (0, y, refl, e)
    | inr e ↦ let (i, x, at, holds) = any_found p xs (ground arith) in (suc i, x, at, holds)
  ]

  pub get_elem?-map {κ} :
      {B : Type κ} (f : A → B) (xs : List A) (i : ℕ) {x : A}
      → get_elem? xs i ≡ some x
      → get_elem? (map f xs) i ≡ some (f x)
  get_elem?-map f [] i e = cc
  get_elem?-map f (y ∷ xs) zero e = ground arith
  get_elem?-map f (y ∷ xs) (suc i) e = get_elem?-map f xs i e

  pub get_elem?-map_inv {κ} :
      {B : Type κ} (f : A → B) (xs : List A) (i : ℕ) {y : B}
      → get_elem? (map f xs) i ≡ some y
      → (x : A) × (get_elem? xs i ≡ some x) × (y ≡ f x)
  get_elem?-map_inv f [] i e = cc
  get_elem?-map_inv f (x ∷ xs) zero e = (x, refl, ground arith)
  get_elem?-map_inv f (x ∷ xs) (suc i) e = get_elem?-map_inv f xs i e

  pub length-map {κ} : {B : Type κ} (f : A → B) (xs : List A) → length (map f xs) ≡ length xs
  length-map f [] = refl
  length-map f (x ∷ xs) = ap suc (length-map f xs)
