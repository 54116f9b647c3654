-- ===== src/Delivery/Run/Shutdown.antt =====
-- internal/delivery/worker.go: that Run goes on, and that it returns once its context is cancelled.
use maxbridge.Delivery.Run.{
  at_least_one, Run, Work, taken, processed, returned, Step, worked, claims, handed, cancels,
  closes, Reachable, after,
}
use maxbridge.Prelude.{
  Bool-cases, Bool, ℕ, zero, suc, ◌+◌, ◌*◌, ◌≤◌, ◌<◌, ◌≡◌, refl, ap, ◌∙◌, ◌⊎◌, inl, inr, true,
  false, List, [], ◌∷◌, arith, length, length-append, ℤ, pos, negsuc,
}
use maxbridge.Storage.Tables.{DeliveryJob}
use maxbridge.Delivery.Run.Ledger.{Reachable-IsBalanced}

-- How many ticks of the claims a step is.
abbrev ticks_of : {concurrency : ℕ} {r r' : Run} → Step concurrency r r' → ℕ
ticks_of (worked r r' w) = 0
ticks_of (claims r jobs running idle few) = 1
ticks_of (handed r j js running claiming room) = 0
ticks_of (cancels r running) = 0
ticks_of (closes r running cancelled) = 0

-- `n` steps of the worker, in the main loop and in the goroutines.
pub data Steps (concurrency : ℕ) : ℕ → Run → Run → Type 0 where
  no_more : (r : Run) → Steps concurrency 0 r r
  more :
      (n : ℕ) (r r' r'' : Run)
      → Step concurrency r r'
      → Steps concurrency n r' r''
      → Steps concurrency (suc n) r r''

abbrev pub ticks : {concurrency n : ℕ} {r r' : Run} → Steps concurrency n r r' → ℕ
ticks (no_more r) = 0
ticks (more n r r' r'' s ss) = ticks_of s + ticks ss

-- What the goroutines have left to do, without another job.
abbrev work_left : Run → ℕ
work_left r = 3 * length r.channel + 2 * length r.busy + r.idle

-- What the main loop has left to do, without another claim.
abbrev handing_left : Bool → List DeliveryJob → ℕ
handing_left true jobs = 0
handing_left false jobs = suc (4 * length jobs)

abbrev pub steps_left : Run → ℕ
steps_left r = handing_left r.closed r.claiming + work_left r

work_left-Work : {r r' : Run} → Work r r' → steps_left r' < steps_left r
work_left-Work (taken r i j js idle channel) = ground (arith, idle, ap length channel)
work_left-Work (processed r before j behind busy) =
    let split = ap length busy ∙ length-append before (j ∷ behind) in
    omega (arith, split, length-append before behind)
work_left-Work (returned r i cancelled idle) = omega (arith, idle)

Work-cancelled : {r r' : Run} → Work r r' → r.cancelled ≡ true → r'.cancelled ≡ true
Work-cancelled (taken r i j js idle channel) c = c
Work-cancelled (processed r before j behind busy) c = c
Work-cancelled (returned r i cancelled idle) c = c

finish_one :
    (r : Run) (busy : List DeliveryJob) → r.busy ≡ busy → (busy ≡ []) ⊎ ((r' : Run) × Work r r')
finish_one r [] e = inl refl
finish_one r (j ∷ js) e = inr (_, processed r [] j js e)

return_one :
    (r : Run) (n : ℕ) → r.cancelled ≡ true → r.idle ≡ n → (n ≡ 0) ⊎ ((r' : Run) × Work r r')
return_one r zero c e = inl refl
return_one r (suc n) c e = inr (_, returned r n c e)

take_one :
    (r : Run) (n : ℕ) (channel : List DeliveryJob)
    → r.idle ≡ n
    → r.channel ≡ channel
    → (n ≡ 0) ⊎ ((channel ≡ []) ⊎ ((r' : Run) × Work r r'))
take_one r zero channel e c = inl refl
take_one r (suc n) [] e c = inr (inl refl)
take_one r (suc n) (j ∷ js) e c = inr (inr (_, taken r n j js e c))

nil-cases :
    (xs : List DeliveryJob)
    → (xs ≡ []) ⊎ ((j : DeliveryJob) × (js : List DeliveryJob) × (xs ≡ j ∷ js))
nil-cases [] = inl refl
nil-cases (j ∷ js) = inr (j, js, refl)

-- Run is over: the main loop has closed the channel, and wg.Wait() has no goroutine to wait for.
abbrev pub HasReturned : ℕ → Run → Type 0
HasReturned concurrency r = (r.closed ≡ true) × (r.gone ≡ concurrency) × (r.busy ≡ [])

abbrev Nearer : ℕ → Run → Type 0
Nearer concurrency r = (r' : Run) × Step concurrency r r' × (steps_left r' < steps_left r)

module _ {concurrency : ℕ} where
  Step-cancelled : {r r' : Run} → Step concurrency r r' → r.cancelled ≡ true → r'.cancelled ≡ true
  Step-cancelled (worked r r' w) c = Work-cancelled w c
  Step-cancelled (claims r jobs running idle few) c = c
  Step-cancelled (handed r j js running claiming room) c = c
  Step-cancelled (cancels r running) c = refl
  Step-cancelled (closes r running cancelled) c = c

  steps_left-Step :
      {r r' : Run} (step : Step concurrency r r')
      → r.cancelled ≡ true
      → suc (steps_left r') ≤ steps_left r + ticks_of step * (4 * concurrency + 1)
  steps_left-Step (worked r r' w) c = omega (arith, work_left-Work w)
  steps_left-Step (claims r jobs running idle few) c =
      rw running (omega (arith, few, ap length idle))
  steps_left-Step (handed r j js running claiming room) c =
      rw running (omega (arith, ap length claiming, length-append r.channel (j ∷ [])))
  steps_left-Step (cancels r running) c = cc (running, c)
  steps_left-Step (closes r running cancelled) c = rw running (omega arith)

  steps_left-Steps :
      {n : ℕ} {r r' : Run} (steps : Steps concurrency n r r')
      → r.cancelled ≡ true
      → n + steps_left r' ≤ steps_left r + ticks steps * (4 * concurrency + 1)
  steps_left-Steps (no_more r) c = omega arith
  steps_left-Steps (more n r r' r'' s ss) c =
      omega (arith, steps_left-Step s c, steps_left-Steps ss (Step-cancelled s c))

  Steps-cancelled :
      {n : ℕ} {r r' : Run} → Steps concurrency n r r' → r.cancelled ≡ true → r'.cancelled ≡ true
  Steps-cancelled (no_more r) c = c
  Steps-cancelled (more n r r' r'' s ss) c = Steps-cancelled ss (Step-cancelled s c)

  Steps-Reachable :
      {n : ℕ} {r r' : Run}
      → Steps concurrency n r r'
      → Reachable concurrency r
      → Reachable concurrency r'
  Steps-Reachable (no_more r) reached = reached
  Steps-Reachable (more n r r' r'' s ss) reached = Steps-Reachable ss (after r r' reached s)

  Work-Nearer : {r : Run} → ((r' : Run) × Work r r') → Nearer concurrency r
  Work-Nearer {r} (r', w) = (r', worked r r' w, work_left-Work w)

  cancelled-cases :
      {r : Run}
      → Reachable concurrency r
      → r.cancelled ≡ true
      → HasReturned concurrency r ⊎ Nearer concurrency r
  cancelled-cases {r} reached cancelled = elim (Bool-cases r.closed) [
    | inr running ↦ inr (_, closes r running cancelled, rw running (omega arith))
    | inl closed ↦ elim (finish_one r r.busy refl) [
      | inr step ↦ inr (Work-Nearer step)
      | inl no_job ↦ elim (return_one r r.idle cancelled refl) [
        | inr step ↦ inr (Work-Nearer step)
        | inl no_idle ↦
            let all_ = (Reachable-IsBalanced concurrency reached).workers in
            inl (closed, omega (arith, all_, no_idle, ap length no_job), no_job)
      ]
    ]
  ]

  -- Once the context of a running worker is cancelled, its main loop and its goroutines together can
  -- make only as many steps as the state they are in has left, and 4 * concurrency + 1 more for each
  -- tick of the claims that the select of the main loop still chooses before ctx.Done(). After each of
  -- these steps either Run is over, with the channel closed and all goroutines returned, with no job
  -- left in their hands, or there is a step that leaves fewer. So Run returns unless its select
  -- passes over ctx.Done() for ever.
  pub shutdown_terminates :
      {n : ℕ} {r r' : Run}
      → Reachable concurrency r
      → r.cancelled ≡ true
      → (steps : Steps concurrency n r r')
      → (n + steps_left r' ≤ steps_left r + ticks steps * (4 * concurrency + 1))
        × (HasReturned concurrency r'
            ⊎ ((r'' : Run) × Step concurrency r' r'' × (steps_left r'' < steps_left r')))
  shutdown_terminates reached cancelled steps = (
    steps_left-Steps steps cancelled,
    cancelled-cases (Steps-Reachable steps reached) (Steps-cancelled steps cancelled),
  )

at_least_one-some : (n : ℤ) → 0 < at_least_one n
unfolding at_least_one
at_least_one-some (negsuc n) = omega arith
at_least_one-some (pos n) = ground arith

-- A worker that NewWorker has made, with whatever concurrency it was given, is never stuck before
-- its context is cancelled: either there is no job to be handed over, in the channel or with a
-- goroutine, or a goroutine can make a step, or the channel has room for the next job.
pub running_progress :
    (configured : ℤ) {r : Run}
    → Reachable (at_least_one configured) r
    → r.cancelled ≡ false
    → ((r.claiming ≡ []) × (r.channel ≡ []) × (r.busy ≡ []))
      ⊎ (((r' : Run) × Work r r')
          ⊎ ((j : DeliveryJob) × (js : List DeliveryJob) × (r.claiming ≡ j ∷ js)
              × (length r.channel < at_least_one configured * 2)))
running_progress configured {r} reached running = elim (finish_one r r.busy refl) [
  | inr step ↦ inr (inl step)
  | inl no_job ↦
      let h = Reachable-IsBalanced (at_least_one configured) reached in
      let some_worker = at_least_one-some configured in
      let none_gone : r.gone ≡ 0 = ground (arith, h.gone_after_cancel, running) in
      let idle : r.idle ≡ at_least_one configured =
        omega (arith, h.workers, none_gone, ap length no_job) in
      elim (take_one r r.idle r.channel refl refl) [
        | inl none_idle ↦ absurd (omega (arith, idle, none_idle, some_worker))
        | inr (inr step) ↦ inr (inl step)
        | inr (inl empty) ↦ elim (nil-cases r.claiming) [
          | inl none_left ↦ inl (none_left, empty, no_job)
          | inr (j, js, next) ↦ inr (inr (j, js, next, omega (arith, ap length empty, some_worker)))
        ]
      ]
]
