-- ===== src/Prelude/Lists.antt =====
-- Lists measured by native numbers, selected by Boolean tests, and predicates over them.
use Prim.Native.Nat.{ℕ, zero, suc, ◌+◌, ◌≤◌, min}
use mathlib.Core.Path.{◌≡◌, refl, ap}
use mathlib.Core.Logic.{inl, inr}
use mathlib.Core.Bool.{Bool, true, false, ◌||◌}
use mathlib.Core.List.{List, [], ◌∷◌, ◌++◌, map}
use mathlib.Core.Option.{Option, none, some}
use native.Mathlib.Omega.{arith}
use maxbridge.Prelude.Tests.{if◌then◌else◌, Bool-cases}

module _ {ℓ} {A : Type ℓ} where
  abbrev pub length : List A → ℕ
  length [] = 0
  length (x ∷ xs) = suc (length xs)

  abbrev pub take : ℕ → List A → List A
  take zero xs = []
  take (suc n) [] = []
  take (suc n) (x ∷ xs) = x ∷ take n xs

  -- The elements that pass a Boolean test, in order.
  abbrev pub filter : (A → Bool) → List A → List A
  filter test [] = []
  filter test (x ∷ xs) = let rest = filter test xs in if test x then x ∷ rest else rest

  -- Whether an element passes the test.
  abbrev pub any : (A → Bool) → List A → Bool
  any test [] = false
  any test (x ∷ xs) = test x || any test xs

  -- The first element that passes the test.
  abbrev pub find : (A → Bool) → List A → Option A
  find test [] = none
  find test (x ∷ xs) = let rest = find test xs in if test x then some x else rest

  -- `UPDATE … WHERE`: the elements that pass the test are changed in place.
  abbrev pub update : (A → Bool) → (A → A) → List A → List A
  update test change [] = []
  update test change (x ∷ xs) = (if test x then change x else x) ∷ update test change xs

  pub length-append : (xs ys : List A) → length (xs ++ ys) ≡ length xs + length ys
  length-append [] ys = omega arith
  length-append (x ∷ xs) ys = omega (arith, length-append xs ys)

  pub length-take-le : (n : ℕ) (xs : List A) → length (take n xs) ≤ n
  length-take-le zero xs = omega arith
  length-take-le (suc n) [] = omega arith
  length-take-le (suc n) (x ∷ xs) = omega (arith, length-take-le n xs)

  pub length-take : (n : ℕ) (xs : List A) → length (take n xs) ≡ min n (length xs)
  length-take zero xs = omega arith
  length-take (suc n) [] = omega arith
  length-take (suc n) (x ∷ xs) = omega (arith, length-take n xs)

  pub length-filter-le : (test : A → Bool) (xs : List A) → length (filter test xs) ≤ length xs
  length-filter-le test [] = omega arith
  length-filter-le test (x ∷ xs) = ground (arith, length-filter-le test xs)

  pub any-append :
      (test : A → Bool) (xs ys : List A) → any test (xs ++ ys) ≡ (any test xs || any test ys)
  any-append test [] ys = refl
  any-append test (x ∷ xs) ys = ground (arith, any-append test xs ys)

  -- No row passes the test that the deleted rows fail.
  pub any-filter_none :
      (test keep : A → Bool) (xs : List A)
      → ((x : A) → test x ≡ true → keep x ≡ false)
      → any test (filter keep xs) ≡ false
  any-filter_none test keep [] h = refl
  any-filter_none test keep (x ∷ xs) h = ground (arith, h x, any-filter_none test keep xs h)

module _ {ℓ κ} {A : Type ℓ} where
  -- Every element satisfies the predicate.
  abbrev pub All : (A → Type κ) → List A → Type κ
  All P [] = Unit
  All P (x ∷ xs) = P x × All P xs

  pub All-append : (P : A → Type κ) (xs ys : List A) → All P xs → All P ys → All P (xs ++ ys)
  All-append P [] ys hx hy = hy
  All-append P (x ∷ xs) ys hx hy = (hx.0, All-append P xs ys hx.1 hy)

  pub All-filter :
      (P : A → Type κ) (test : A → Bool) (xs : List A) → All P xs → All P (filter test xs)
  All-filter P test [] h = tt
  All-filter P test (x ∷ xs) h = elim (Bool-cases (test x)) [
    | inl t ↦ rw t (h.0, All-filter P test xs h.1)
    | inr f ↦ rw f (All-filter P test xs h.1)
  ]

  pub All-take : (P : A → Type κ) (n : ℕ) (xs : List A) → All P xs → All P (take n xs)
  All-take P zero xs h = tt
  All-take P (suc n) [] h = tt
  All-take P (suc n) (x ∷ xs) h = (h.0, All-take P n xs h.1)

  pub All-update :
      (P : A → Type κ) (test : A → Bool) (change : A → A) (xs : List A)
      → ((x : A) → test x ≡ true → P x → P (change x))
      → All P xs
      → All P (update test change xs)
  All-update P test change [] c h = tt
  All-update P test change (x ∷ xs) c h = elim (Bool-cases (test x)) [
    | inl t ↦ rw t (c x t h.0, All-update P test change xs c h.1)
    | inr f ↦ rw f (h.0, All-update P test change xs c h.1)
  ]

module _ {ℓ} {A : Type ℓ} where
  pub find-All :
      (P : A → Type 0) (test : A → Bool) (xs : List A) {x : A}
      → All P xs
      → find test xs ≡ some x
      → P x × (test x ≡ true)
  find-All P test [] h e = cc
  find-All P test (x ∷ xs) {x = y} h e = elim (Bool-cases (test x)) [
    | inl t ↦ let same : x ≡ y = ground arith in rw (← same) (h.0, t)
    | inr f ↦ find-All P test xs h.1 (ground arith)
  ]

pub length-map {ℓ κ} :
    {A : Type ℓ} {B : Type κ} (f : A → B) (xs : List A) → length (map f xs) ≡ length xs
length-map f [] = refl
length-map f (x ∷ xs) = ap suc (length-map f xs)
