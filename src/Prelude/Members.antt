-- ===== src/Prelude/Members.antt =====
-- Membership with its place kept (`Memᴰ`), against the functions on lists.
use mathlib.Core.Bool.{false, Bool, true}
use Prim.Native.Nat.{ℕ, zero, suc}
use mathlib.Core.Path.{◌≡◌, refl, sym, ap, ◌∙◌, subst}
use mathlib.Core.Logic.{inl, inr}
use native.Mathlib.Omega.{arith}
use mathlib.Core.List.{List, [], ◌∷◌, Memᴰ}
use maxbridge.Prelude.Int.{ℤ, ◌==ℤ◌, ==ℤ_iff}
use maxbridge.Prelude.Tests.{if◌then◌else◌, Bool-cases}
use maxbridge.Prelude.Lists.{All, any, filter, take, update}

module _ {ℓ} {A : Type ℓ} where
  -- `kept` is what the rest of the list gives.
  Memᴰ-cons-filter :
      {x y : A} (test : A → Bool) (ys : List A)
      → test y ≡ true
      → (Memᴰ x (filter test ys) → Memᴰ x ys × (test x ≡ true))
      → Memᴰ x (y ∷ filter test ys)
      → Memᴰ x (y ∷ ys) × (test x ≡ true)
  Memᴰ-cons-filter test ys t kept (Memᴰ.head e) = (Memᴰ.head e, ap test e ∙ t)
  Memᴰ-cons-filter test ys t kept (Memᴰ.tail m) = (Memᴰ.tail (kept m).0, (kept m).1)

  pub Memᴰ-filter :
      {x : A} (test : A → Bool) (xs : List A)
      → Memᴰ x (filter test xs)
      → Memᴰ x xs × (test x ≡ true)
  Memᴰ-filter test [] m = elim m [ ]
  Memᴰ-filter {x} test (y ∷ ys) m = elim (Bool-cases (test y)) [
    | inl t ↦
        Memᴰ-cons-filter test ys t (Memᴰ-filter test ys)
          (subst (λ b. Memᴰ x (if b then y ∷ filter test ys else filter test ys)) t m)
    | inr f ↦
        let later =
          Memᴰ-filter test ys
            (subst (λ b. Memᴰ x (if b then y ∷ filter test ys else filter test ys)) f m) in
        (Memᴰ.tail later.0, later.1)
  ]

  pub filter-Memᴰ :
      {x : A} (test : A → Bool) (xs : List A) → Memᴰ x xs → test x ≡ true → Memᴰ x (filter test xs)
  filter-Memᴰ test [] m t = elim m [ ]
  filter-Memᴰ test (y ∷ ys) (Memᴰ.head e) t = rw (ap test (sym e) ∙ t) (Memᴰ.head e)
  filter-Memᴰ test (y ∷ ys) (Memᴰ.tail m) t = elim (Bool-cases (test y)) [
    | inl p ↦ rw p (Memᴰ.tail (filter-Memᴰ test ys m t))
    | inr p ↦ rw p (filter-Memᴰ test ys m t)
  ]

  pub Memᴰ-take : {x : A} (n : ℕ) (xs : List A) → Memᴰ x (take n xs) → Memᴰ x xs
  Memᴰ-take zero xs m = elim m [ ]
  Memᴰ-take (suc n) [] m = elim m [ ]
  Memᴰ-take (suc n) (y ∷ ys) (Memᴰ.head e) = Memᴰ.head e
  Memᴰ-take (suc n) (y ∷ ys) (Memᴰ.tail m) = Memᴰ.tail (Memᴰ-take n ys m)

  pub any-Memᴰ :
      {x : A} (test : A → Bool) (xs : List A) → Memᴰ x xs → test x ≡ true → any test xs ≡ true
  any-Memᴰ test [] m t = elim m [ ]
  any-Memᴰ test (y ∷ ys) (Memᴰ.head e) t = rw (ap test (sym e) ∙ t)
  any-Memᴰ test (y ∷ ys) (Memᴰ.tail m) t = ground (arith, any-Memᴰ test ys m t)

  pub Memᴰ-any :
      (test : A → Bool) (xs : List A) → any test xs ≡ true → (x : A) × Memᴰ x xs × (test x ≡ true)
  Memᴰ-any test [] t = cc
  Memᴰ-any test (y ∷ ys) t = elim (Bool-cases (test y)) [
    | inl p ↦ (y, Memᴰ.head refl, p)
    | inr p ↦ let (x, m, q) = Memᴰ-any test ys (ground arith) in (x, Memᴰ.tail m, q)
  ]

  pub Memᴰ-update :
      {x : A} (test : A → Bool) (change : A → A) (xs : List A)
      → Memᴰ x xs
      → Memᴰ (if test x then change x else x) (update test change xs)
  Memᴰ-update test change [] m = elim m [ ]
  Memᴰ-update test change (y ∷ ys) (Memᴰ.head e) =
      Memᴰ.head (ap (λ z. if test z then change z else z) e)
  Memᴰ-update test change (y ∷ ys) (Memᴰ.tail m) = Memᴰ.tail (Memᴰ-update test change ys m)

  pub update-Memᴰ :
      {x : A} (test : A → Bool) (change : A → A) (xs : List A)
      → Memᴰ x (update test change xs)
      → (y : A) × Memᴰ y xs × (x ≡ (if test y then change y else y))
  update-Memᴰ test change [] m = elim m [ ]
  update-Memᴰ test change (y ∷ ys) (Memᴰ.head e) = (y, Memᴰ.head refl, e)
  update-Memᴰ test change (y ∷ ys) (Memᴰ.tail m) =
      let (z, n, e) = update-Memᴰ test change ys m in (z, Memᴰ.tail n, e)

module _ {ℓ κ} {A : Type ℓ} where
  pub All-Memᴰ : (P : A → Type κ) {x : A} (xs : List A) → All P xs → Memᴰ x xs → P x
  All-Memᴰ P [] h m = elim m [ ]
  All-Memᴰ P (y ∷ ys) h (Memᴰ.head e) = subst P (sym e) h.0
  All-Memᴰ P (y ∷ ys) h (Memᴰ.tail m) = All-Memᴰ P ys h.1 m

  pub Memᴰ-All : (P : A → Type κ) (xs : List A) → ((x : A) → Memᴰ x xs → P x) → All P xs
  Memᴰ-All P [] h = tt
  Memᴰ-All P (y ∷ ys) h = (h y (Memᴰ.head refl), Memᴰ-All P ys (λ x m. h x (Memᴰ.tail m)))

module _ {ℓ κ} {A : Type ℓ} {K : Type κ} (eq : K → K → Bool) where
  -- No two elements have one key: what a unique column says of a table.
  abbrev pub DistinctBy : (A → K) → List A → Type 0
  DistinctBy key [] = Unit
  DistinctBy key (x ∷ xs) = All (λ y. eq (key x) (key y) ≡ false) xs × DistinctBy key xs

  pub DistinctBy-eq :
      (key : A → K) (xs : List A)
      → ((a b : K) → a ≡ b → eq a b ≡ true)
      → DistinctBy key xs
      → (x y : A) → Memᴰ x xs
      → Memᴰ y xs
      → key x ≡ key y
      → x ≡ y
  DistinctBy-eq key [] complete d x y mx my e = elim mx [ ]
  DistinctBy-eq key (z ∷ zs) complete d x y (Memᴰ.head p) (Memᴰ.head q) e = p ∙ sym q
  DistinctBy-eq key (z ∷ zs) complete d x y (Memᴰ.head p) (Memᴰ.tail n) e = cc (
    All-Memᴰ (λ w. eq (key z) (key w) ≡ false) zs d.0 n,
    complete (key z) (key y) (ap key (sym p) ∙ e),
  )
  DistinctBy-eq key (z ∷ zs) complete d x y (Memᴰ.tail m) (Memᴰ.head q) e = cc (
    All-Memᴰ (λ w. eq (key z) (key w) ≡ false) zs d.0 m,
    complete (key z) (key x) (ap key (sym q) ∙ sym e),
  )
  DistinctBy-eq key (z ∷ zs) complete d x y (Memᴰ.tail m) (Memᴰ.tail n) e =
      DistinctBy-eq key zs complete d.1 x y m n e

module _ {ℓ} {A : Type ℓ} where
  abbrev pub Distinct : (A → ℤ) → List A → Type 0
  Distinct = DistinctBy ◌==ℤ◌

  pub Distinct-eq :
      (key : A → ℤ) (xs : List A)
      → Distinct key xs
      → (x y : A) → Memᴰ x xs
      → Memᴰ y xs
      → key x ≡ key y
      → x ≡ y
  Distinct-eq key xs d = DistinctBy-eq ◌==ℤ◌ key xs (λ a b e. (==ℤ_iff a b).1 e) d

module _ {ℓ} {A : Type ℓ} where
  pub Memᴰ-update_hit :
      {x : A} (test : A → Bool) (change : A → A) (xs : List A)
      → Memᴰ x xs
      → test x ≡ true
      → Memᴰ (change x) (update test change xs)
  Memᴰ-update_hit {x} test change xs m t =
      subst (λ b. Memᴰ (if b then change x else x) (update test change xs)) t
        (Memᴰ-update test change xs m)

  pub Memᴰ-update_miss :
      {x : A} (test : A → Bool) (change : A → A) (xs : List A)
      → Memᴰ x xs
      → test x ≡ false
      → Memᴰ x (update test change xs)
  Memᴰ-update_miss {x} test change xs m t =
      subst (λ b. Memᴰ (if b then change x else x) (update test change xs)) t
        (Memᴰ-update test change xs m)
