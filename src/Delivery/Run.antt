-- ===== src/Delivery/Run.antt =====
-- internal/delivery/worker.go: Run, its goroutines and its channel, and the clamps of NewWorker. The
-- jobs that ClaimJobs returns are an environment's choice, of at most `concurrency` of them (the
-- query's LIMIT). The tickers of the stale jobs and of the statistics leave all of this alone.
pub mod Ledger
pub mod Shutdown
use maxbridge.Prelude.{
  ℕ, suc, ◌*◌, ◌≤◌, ◌<◌, ◌≡◌, Bool, true, false, List, [], ◌∷◌, ◌++◌, ltb, if◌then◌else◌, length,
  filter, ℤ, pos, negsuc,
}
use maxbridge.Storage.Tables.{DeliveryJob}

-- `if n < 1 { n = 1 }`, for the concurrency and for the rate
unfoldable pub at_least_one : ℤ → ℕ
at_least_one (negsuc n) = 1
at_least_one (pos n) = if ltb n 1 then 1 else n

-- The main loop hands the jobs of `claiming` over to the channel. Of the goroutines, `idle` wait at
-- their select, one processes each of the jobs in `busy`, and `gone` have returned. `claimed` and
-- `finished` are histories: the jobs that ClaimJobs has returned, and those that processOne is done with.
pub record Run : Type 0 where
  pub cancelled : Bool
  pub closed : Bool
  pub claiming : List DeliveryJob
  pub channel : List DeliveryJob
  pub idle : ℕ
  pub busy : List DeliveryJob
  pub gone : ℕ
  pub claimed : List DeliveryJob
  pub finished : List DeliveryJob

abbrev pub launch : ℕ → Run
launch concurrency = record {
  cancelled = false;
  closed = false;
  claiming = [];
  channel = [];
  idle = concurrency;
  busy = [];
  gone = 0;
  claimed = [];
  finished = [];
}

-- What a goroutine of a worker does.
pub data Work : Run → Run → Type 0 where
  -- `case job, ok := <-jobsCh`; the select may still choose it after a cancellation.
  taken :
      (r : Run) (i : ℕ) (j : DeliveryJob) (js : List DeliveryJob)
      → r.idle ≡ suc i
      → r.channel ≡ j ∷ js
      → Work r (record r { idle = i; busy = j ∷ r.busy; channel = js })
  -- processOne returns.
  processed :
      (r : Run) (before : List DeliveryJob) (j : DeliveryJob) (behind : List DeliveryJob)
      → r.busy ≡ before ++ j ∷ behind
      → Work r (record r { busy = before ++ behind; idle = suc r.idle; finished = j ∷ r.finished })
  -- ctx.Done(), or a closed channel that is empty, which is after ctx.Done() too.
  returned :
      (r : Run) (i : ℕ)
      → r.cancelled ≡ true
      → r.idle ≡ suc i
      → Work r (record r { idle = i; gone = suc r.gone })

pub data Step (concurrency : ℕ) : Run → Run → Type 0 where
  worked : (r r' : Run) → Work r r' → Step concurrency r r'
  -- A tick of the claims; a claim that fails changes nothing here.
  claims :
      (r : Run) (jobs : List DeliveryJob)
      → r.closed ≡ false
      → r.claiming ≡ []
      → length jobs ≤ concurrency
      → Step concurrency r (record r { claiming = jobs; claimed = jobs ++ r.claimed })
  -- `case jobsCh <- j`
  handed :
      (r : Run) (j : DeliveryJob) (js : List DeliveryJob)
      → r.closed ≡ false
      → r.claiming ≡ j ∷ js
      → length r.channel < concurrency * 2
      → Step concurrency r (record r { claiming = js; channel = r.channel ++ j ∷ [] })
  cancels : (r : Run) → r.cancelled ≡ false → Step concurrency r (record r { cancelled = true })
  -- `case <-ctx.Done()`, in either select: the channel is closed, and what is not handed over is left.
  closes :
      (r : Run)
      → r.closed ≡ false
      → r.cancelled ≡ true
      → Step concurrency r (record r { closed = true })

pub data Reachable (concurrency : ℕ) : Run → Type 0 where
  start : Reachable concurrency (launch concurrency)
  after : (r r' : Run) → Reachable concurrency r → Step concurrency r r' → Reachable concurrency r'

-- How many of the jobs pass a test.
abbrev pub count : (DeliveryJob → Bool) → List DeliveryJob → ℕ
count test jobs = length (filter test jobs)
