-- ===== src/Storage/Queue/Order.antt =====
-- The order and the selection of ClaimJobs: sorting keeps the jobs, and its front is the earliest.
use maxbridge.Prelude.{
  ℕ, zero, suc, ◌≤◌, ◌≡◌, refl, sym, ap, ◌∙◌, subst, ◌⊎◌, inl, inr, Bool, true, List, [], ◌∷◌, Memᴰ,
  arith, leb, Bool-cases, length, take, filter, length-take, All, Memᴰ-filter, Memᴰ-take, All-Memᴰ,
  Memᴰ-All,
}
use Prim.Native.Nat.{suc}
use Prim.Native.Nat.{min}
use maxbridge.Storage.Tables.{Time, DeliveryJob}
use maxbridge.Storage.Queue.{insert_by_time, order_by_time, is_claimable, claimable_jobs}

length-insert_by_time :
    (j : DeliveryJob) (ks : List DeliveryJob) → length (insert_by_time j ks) ≡ suc (length ks)
unfolding insert_by_time
length-insert_by_time j [] = refl
length-insert_by_time j (k ∷ ks) = ground (arith, length-insert_by_time j ks)

length-order_by_time : (js : List DeliveryJob) → length (order_by_time js) ≡ length js
unfolding order_by_time
length-order_by_time [] = refl
length-order_by_time (j ∷ js) =
    length-insert_by_time j (order_by_time js) ∙ ap suc (length-order_by_time js)

-- A predicate of an element and a list carries over to the list with the element inserted.
All-insert_by_time :
    (P : DeliveryJob → Type 0) (j : DeliveryJob) (ks : List DeliveryJob)
    → P j
    → All P ks
    → All P (insert_by_time j ks)
unfolding insert_by_time
All-insert_by_time P j [] h hs = (h, tt)
All-insert_by_time P j (k ∷ ks) h hs = elim (Bool-cases (leb j.available_at k.available_at)) [
  | inl t ↦ rw t (h, hs)
  | inr f ↦ rw f (hs.0, All-insert_by_time P j ks h hs.1)
]

abbrev pub NotBefore : Time → DeliveryJob → Type 0
NotBefore t j = t ≤ j.available_at

abbrev pub IsOrdered : List DeliveryJob → Type 0
IsOrdered [] = Unit {0}
IsOrdered (j ∷ js) = All (NotBefore j.available_at) js × IsOrdered js

NotBefore-trans :
    (s t : Time) (js : List DeliveryJob) → s ≤ t → All (NotBefore t) js → All (NotBefore s) js
NotBefore-trans s t [] h hs = tt
NotBefore-trans s t (j ∷ js) h hs = (omega arith, NotBefore-trans s t js h hs.1)

insert_by_time-IsOrdered :
    (j : DeliveryJob) (ks : List DeliveryJob) → IsOrdered ks → IsOrdered (insert_by_time j ks)
unfolding insert_by_time
insert_by_time-IsOrdered j [] o = (tt, tt)
insert_by_time-IsOrdered j (k ∷ ks) o = elim (Bool-cases (leb j.available_at k.available_at)) [
  | inl t ↦
      let first : j.available_at ≤ k.available_at = ground arith in
      rw t ((first, NotBefore-trans j.available_at k.available_at ks first o.0), o)
  | inr f ↦ rw f (
    All-insert_by_time (NotBefore k.available_at) j ks (ground arith) o.0,
    insert_by_time-IsOrdered j ks o.1,
  )
]

pub order_by_time-IsOrdered : (js : List DeliveryJob) → IsOrdered (order_by_time js)
unfolding order_by_time
order_by_time-IsOrdered [] = tt
order_by_time-IsOrdered (j ∷ js) =
    insert_by_time-IsOrdered j (order_by_time js) (order_by_time-IsOrdered js)

Memᴰ-insert_by_time :
    {i : DeliveryJob} (j : DeliveryJob) (ks : List DeliveryJob)
    → Memᴰ i (insert_by_time j ks)
    → Memᴰ i (j ∷ ks)
Memᴰ-insert_by_time {i} j ks m =
    All-Memᴰ (λ k. Memᴰ k (j ∷ ks)) (insert_by_time j ks)
      (All-insert_by_time (λ k. Memᴰ k (j ∷ ks)) j ks (Memᴰ.head refl)
        (Memᴰ-All _ ks (λ k n. Memᴰ.tail n)))
      m

insert_by_time-Memᴰ_new : (j : DeliveryJob) (ks : List DeliveryJob) → Memᴰ j (insert_by_time j ks)
unfolding insert_by_time
insert_by_time-Memᴰ_new j [] = Memᴰ.head refl
insert_by_time-Memᴰ_new j (k ∷ ks) = elim (Bool-cases (leb j.available_at k.available_at)) [
  | inl t ↦ rw t (Memᴰ.head refl)
  | inr f ↦ rw f (Memᴰ.tail (insert_by_time-Memᴰ_new j ks))
]

insert_by_time-Memᴰ_old :
    {i : DeliveryJob} (j : DeliveryJob) (ks : List DeliveryJob)
    → Memᴰ i ks
    → Memᴰ i (insert_by_time j ks)
unfolding insert_by_time
insert_by_time-Memᴰ_old j [] m = elim m [ ]
insert_by_time-Memᴰ_old j (k ∷ ks) (Memᴰ.head e) =
    elim (Bool-cases (leb j.available_at k.available_at)) [
      | inl t ↦ rw t (Memᴰ.tail (Memᴰ.head e))
      | inr f ↦ rw f (Memᴰ.head e)
    ]
insert_by_time-Memᴰ_old j (k ∷ ks) (Memᴰ.tail m) =
    elim (Bool-cases (leb j.available_at k.available_at)) [
      | inl t ↦ rw t (Memᴰ.tail (Memᴰ.tail m))
      | inr f ↦ rw f (Memᴰ.tail (insert_by_time-Memᴰ_old j ks m))
    ]

Memᴰ-order_by_time :
    {i : DeliveryJob} (js : List DeliveryJob) → Memᴰ i (order_by_time js) → Memᴰ i js
unfolding order_by_time
Memᴰ-order_by_time [] m = m
Memᴰ-order_by_time {i} (j ∷ js) m =
    earlier (Memᴰ-order_by_time js) (Memᴰ-insert_by_time j (order_by_time js) m)
  where
    earlier :
        (Memᴰ i (order_by_time js) → Memᴰ i js) → Memᴰ i (j ∷ order_by_time js) → Memᴰ i (j ∷ js)
    earlier later (Memᴰ.head e) = Memᴰ.head e
    earlier later (Memᴰ.tail n) = Memᴰ.tail (later n)

pub order_by_time-Memᴰ :
    {i : DeliveryJob} (js : List DeliveryJob) → Memᴰ i js → Memᴰ i (order_by_time js)
unfolding order_by_time
order_by_time-Memᴰ [] m = m
order_by_time-Memᴰ {i} (j ∷ js) (Memᴰ.head e) =
    subst (λ x. Memᴰ x (insert_by_time j (order_by_time js))) (sym e)
      (insert_by_time-Memᴰ_new j (order_by_time js))
order_by_time-Memᴰ (j ∷ js) (Memᴰ.tail m) =
    insert_by_time-Memᴰ_old j (order_by_time js) (order_by_time-Memᴰ js m)

-- Of an ordered list, what is not among the first `n` is not before them, and there are `n`.
pub take-IsOrdered :
    {k : DeliveryJob} (n : ℕ) (js : List DeliveryJob)
    → IsOrdered js
    → Memᴰ k js
    → Memᴰ k (take n js)
      ⊎ ((length (take n js) ≡ n) × All (λ j. j.available_at ≤ k.available_at) (take n js))
take-IsOrdered zero js o m = inr (refl, tt)
take-IsOrdered (suc n) [] o m = elim m [ ]
take-IsOrdered (suc n) (j ∷ js) o (Memᴰ.head e) = inl (Memᴰ.head e)
take-IsOrdered {k} (suc n) (j ∷ js) o (Memᴰ.tail m) = elim (take-IsOrdered n js o.1 m) [
  | inl taken ↦ inl (Memᴰ.tail taken)
  | inr (full, earlier) ↦ inr (ap suc full, (All-Memᴰ (NotBefore j.available_at) js o.0 m, earlier))
]

pub claimable_jobs-IsClaimable :
    {j : DeliveryJob} (batch : ℕ) (now : Time) (locked : DeliveryJob → Bool)
    (jobs : List DeliveryJob)
    → Memᴰ j (claimable_jobs batch now locked jobs)
    → Memᴰ j jobs × (is_claimable now locked j ≡ true)
unfolding claimable_jobs
claimable_jobs-IsClaimable batch now locked jobs m = Memᴰ-filter (is_claimable now locked) jobs (
    Memᴰ-order_by_time (filter (is_claimable now locked) jobs)
      (Memᴰ-take batch (order_by_time (filter (is_claimable now locked) jobs)) m))

pub length-claimable_jobs :
    (batch : ℕ) (now : Time) (locked : DeliveryJob → Bool) (jobs : List DeliveryJob)
    → length (claimable_jobs batch now locked jobs)
      ≡ min batch (length (filter (is_claimable now locked) jobs))
unfolding claimable_jobs
length-claimable_jobs batch now locked jobs =
    length-take batch (order_by_time (filter (is_claimable now locked) jobs))
    ∙ ap (min batch) (length-order_by_time (filter (is_claimable now locked) jobs))
