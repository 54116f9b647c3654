-- ===== src/Storage/Queue/Claim.antt =====
-- What ClaimJobs of internal/storage/store.go promises: it takes the earliest claimable jobs, as many
-- as there are up to the batch, leases each, and nobody claims a leased job again.
use maxbridge.Prelude.{
  ◌*◌, ◌/◌, ◌+◌, some, filter-Memᴰ, ==ℤ_iff, inl, Distinct-eq, update-Memᴰ, inr, Memᴰ-any,
  Bool-cases, ◌≤◌, All, Distinct, ◌⊎◌, false, ℕ, suc, ◌≡◌, refl, sym, ap, ◌∙◌, subst, Bool, true,
  List, [], ◌∷◌, map, Memᴰ, arith, if◌then◌else◌, length, filter, update, any-Memᴰ, Memᴰ-update,
  ◌==ℤ◌, ==ℤ_refl,
}
use maxbridge.Storage.Queue.{
  second, processing, order_by_time, Time, is_claimable, claimable_jobs, claim_job, is_among,
  whole_seconds, claim_jobs,
}
use maxbridge.Storage.Tables.{second, DeliveryJob}
use maxbridge.Storage.Queue.Order.{
  order_by_time-Memᴰ, order_by_time-IsOrdered, take-IsOrdered, claimable_jobs-IsClaimable,
  length-claimable_jobs,
}
use Prim.Native.Nat.{min}
use maxbridge.Storage.Database.{Db, ok}

module _ (batch lease : ℕ) (locked : DeliveryJob → Bool) (db : Db) where
  abbrev selected : List DeliveryJob
  selected = claimable_jobs batch db.now locked db.tables.jobs

  abbrev claim : DeliveryJob → DeliveryJob
  claim = claim_job db.now (whole_seconds lease)

  abbrev after : List DeliveryJob
  after = (claim_jobs batch lease locked db).1.tables.jobs

  claim_jobs-ok :
      {js : List DeliveryJob}
      → (claim_jobs batch lease locked db).0 ≡ ok js
      → (js ≡ map claim selected) × (after ≡ update (is_among selected) claim db.tables.jobs)
  unfolding claim_jobs
  claim_jobs-ok h = ground arith

  map-claim_origin :
      {j : DeliveryJob} (cs : List DeliveryJob)
      → Memᴰ j (map claim cs)
      → (c : DeliveryJob) × Memᴰ c cs × (j ≡ claim c)
  map-claim_origin [] m = elim m [ ]
  map-claim_origin (c ∷ cs) (Memᴰ.head e) = (c, Memᴰ.head refl, e)
  map-claim_origin (c ∷ cs) (Memᴰ.tail m) =
      let (d, n, e) = map-claim_origin cs m in (d, Memᴰ.tail n, e)

  length-map-claim : (cs : List DeliveryJob) → length (map claim cs) ≡ length cs
  length-map-claim [] = refl
  length-map-claim (c ∷ cs) = ap suc (length-map-claim cs)

  -- A successful ClaimJobs returns as many jobs as are claimable, up to the batch.
  pub length-claim_jobs :
      (js : List DeliveryJob)
      → (claim_jobs batch lease locked db).0 ≡ ok js
      → length js ≡ min batch (length (filter (is_claimable db.now locked) db.tables.jobs))
  length-claim_jobs js h =
      ap length (claim_jobs-ok h).0
      ∙ length-map-claim selected
      ∙ length-claimable_jobs batch db.now locked db.tables.jobs

  -- Every job that a successful ClaimJobs returns was a claimable row and stands in the table now as it
  -- is returned: that row with the status processing, a lease that ends as many whole seconds from now
  -- as `lease` has, and now as the time of its update, all other columns unchanged.
  pub claim_jobs_leased :
      (js : List DeliveryJob) (j : DeliveryJob)
      → (claim_jobs batch lease locked db).0 ≡ ok js
      → Memᴰ j js
      → (k : DeliveryJob) × Memᴰ k db.tables.jobs
        × (is_claimable db.now locked k ≡ true)
        × (j ≡ record k {
          status = processing;
          leased_until = some (db.now + lease / second * second);
          updated_at = db.now;
        })
        × Memᴰ j (claim_jobs batch lease locked db).1.tables.jobs
  claim_jobs_leased js j h m =
      let (returned, table) = claim_jobs-ok h in
      let (c, n, e) = map-claim_origin selected (subst (Memᴰ j) returned m) in
      let (row, fits) = claimable_jobs-IsClaimable batch db.now locked db.tables.jobs n in
      let chosen = any-Memᴰ (λ d. c.id ==ℤ d.id) selected n (==ℤ_refl c.id) in
      let written =
        subst
          (λ b. Memᴰ (if b then claim c else c) (update (is_among selected) claim db.tables.jobs))
          chosen (Memᴰ-update (is_among selected) claim db.tables.jobs row) in
      (
        c,
        row,
        fits,
        e,
        subst (Memᴰ j) (sym table)
            (subst (λ x. Memᴰ x (update (is_among selected) claim db.tables.jobs)) (sym e) written),
      )

  map-claim-Memᴰ :
      {c : DeliveryJob} (cs : List DeliveryJob) → Memᴰ c cs → Memᴰ (claim c) (map claim cs)
  map-claim-Memᴰ [] m = elim m [ ]
  map-claim-Memᴰ (d ∷ ds) (Memᴰ.head e) = Memᴰ.head (ap claim e)
  map-claim-Memᴰ (d ∷ ds) (Memᴰ.tail m) = Memᴰ.tail (map-claim-Memᴰ ds m)

  map-claim-NotAfter :
      (t : Time) (cs : List DeliveryJob)
      → All (λ j. j.available_at ≤ t) cs
      → All (λ j. j.available_at ≤ t) (map claim cs)
  map-claim-NotAfter t [] h = tt
  map-claim-NotAfter t (c ∷ cs) h = (h.0, map-claim-NotAfter t cs h.1)

  -- A claimable row that a successful ClaimJobs does not return leased has lost to a full batch of
  -- jobs none of which is available later than it.
  pub claim_jobs_fair :
      (js : List DeliveryJob) (k : DeliveryJob)
      → (claim_jobs batch lease locked db).0 ≡ ok js
      → Memᴰ k db.tables.jobs
      → is_claimable db.now locked k ≡ true
      → Memᴰ (claim_job db.now (whole_seconds lease) k) js
        ⊎ ((length js ≡ batch) × All (λ j. j.available_at ≤ k.available_at) js)
  unfolding claimable_jobs
  claim_jobs_fair js k h m fits =
      let waiting = filter (is_claimable db.now locked) db.tables.jobs in
      let returned = (claim_jobs-ok h).0 in
      let ranked = take-IsOrdered batch (order_by_time waiting) (order_by_time-IsOrdered waiting) (
        order_by_time-Memᴰ waiting
          (filter-Memᴰ (is_claimable db.now locked) db.tables.jobs m fits)) in
      rw returned (elim ranked [
        | inl taken ↦ inl (map-claim-Memᴰ selected taken)
        | inr (full, earlier) ↦
            inr
              (length-map-claim selected ∙ full, map-claim-NotAfter k.available_at selected earlier)
      ])

  claim_jobs-jobs :
      (after ≡ update (is_among selected) claim db.tables.jobs) ⊎ (after ≡ db.tables.jobs)
  unfolding claim_jobs
  claim_jobs-jobs = ground arith

  selected-IsClaimable :
      (k : DeliveryJob)
      → Distinct (λ j. j.id) db.tables.jobs
      → Memᴰ k db.tables.jobs
      → is_among selected k ≡ true
      → is_claimable db.now locked k ≡ true
  selected-IsClaimable k d m chosen =
      let (c, n, same) = Memᴰ-any (λ c. k.id ==ℤ c.id) selected chosen in
      let (row, fits) = claimable_jobs-IsClaimable batch db.now locked db.tables.jobs n in
      let equal =
        Distinct-eq (λ j. j.id) db.tables.jobs d c k row m (sym ((==ℤ_iff k.id c.id).0 same)) in
      subst (λ x. is_claimable db.now locked x ≡ true) equal fits

  -- With distinct ids, ClaimJobs leaves a row that is not claimable as it was, whether it succeeds or fails.
  pub claim_jobs_others :
      (k : DeliveryJob)
      → Distinct (λ j. j.id) db.tables.jobs
      → Memᴰ k db.tables.jobs
      → is_claimable db.now locked k ≡ false
      → Memᴰ k (claim_jobs batch lease locked db).1.tables.jobs
  claim_jobs_others k d m unfit = elim claim_jobs-jobs [
    | inr kept ↦ subst (Memᴰ k) (sym kept) m
    | inl written ↦ elim (Bool-cases (is_among selected k)) [
      | inl chosen ↦ cc (selected-IsClaimable k d m chosen)
      | inr passed ↦ subst (Memᴰ k) (sym written) (
          subst
            (λ b. Memᴰ (if b then claim k else k) (update (is_among selected) claim db.tables.jobs))
            passed (Memᴰ-update (is_among selected) claim db.tables.jobs m))
    ]
  ]

-- What is claimable in the table that a claim has written was not selected by that claim.
claimable_again :
    (selected : List DeliveryJob) (now now' interval : ℕ) (locked' : DeliveryJob → Bool)
    (y k : DeliveryJob)
    → k ≡ (if is_among selected y then claim_job now interval y else y)
    → is_claimable now' locked' k ≡ true
    → is_among selected k ≡ false
unfolding is_claimable
claimable_again selected now now' interval locked' y k e fits =
    elim (Bool-cases (is_among selected y)) [
      | inl chosen ↦ cc (e, chosen, fits)
      | inr passed ↦ ground (arith, e)
    ]

-- A job that one ClaimJobs returned is returned by no later ClaimJobs, whatever its batch, its lease,
-- its time and its locks, as long as nothing else has written the job table in between.
pub claim_jobs_exclusive :
    (batch lease batch' lease' : ℕ) (locked locked' : DeliveryJob → Bool) (db db' : Db)
    (js ks : List DeliveryJob) (j k : DeliveryJob)
    → (claim_jobs batch lease locked db).0 ≡ ok js
    → db'.tables.jobs ≡ (claim_jobs batch lease locked db).1.tables.jobs
    → (claim_jobs batch' lease' locked' db').0 ≡ ok ks
    → Memᴰ j js
    → Memᴰ k ks
    → (j.id ==ℤ k.id) ≡ false
claim_jobs_exclusive batch lease batch' lease' locked locked' db db' js ks j k h same h' m m' =
    let cte = claimable_jobs batch db.now locked db.tables.jobs in
    let interval = whole_seconds lease in
    let (returned, table) = claim_jobs-ok batch lease locked db h in
    let (c, n, e) = map-claim_origin batch lease locked db cte (subst (Memᴰ j) returned m) in
    let (k0, row, fits, e', _) = claim_jobs_leased batch' lease' locked' db' ks k h' m' in
    let (y, _, origin) =
      update-Memᴰ (is_among cte) (claim_job db.now interval) db.tables.jobs
        (subst (Memᴰ k0) (same ∙ table) row) in
    let passed = claimable_again cte db.now db'.now interval locked' y k0 origin fits in
    elim (Bool-cases (j.id ==ℤ k.id)) [
      | inr differ ↦ differ
      | inl equal ↦
          let ids : c.id ≡ k0.id = cc (e, e', (==ℤ_iff j.id k.id).0 equal) in
          cc (passed, any-Memᴰ (λ d. k0.id ==ℤ d.id) cte n ((==ℤ_iff k0.id c.id).1 (sym ids)))
    ]
