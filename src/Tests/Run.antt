-- ===== src/Tests/Run.antt =====
-- The theorems on the goroutines of the worker, of one goroutine and two jobs.
use maxbridge.Prelude.{◌+◌, ◌*◌, ◌≤◌, ◌<◌, ◌≡◌, refl, ◌⊎◌, true, List, [], ◌∷◌, arith, length, pos}
use maxbridge.Storage.Tables.{DeliveryJob}
use maxbridge.Delivery.Run.{
  at_least_one, Run, launch, Work, taken, processed, returned, Step, worked, claims, handed,
  cancels, closes, Reachable, start, after,
}
use maxbridge.Delivery.Run.Ledger.{IsBalanced, Reachable-IsBalanced}
use maxbridge.Delivery.Run.Shutdown.{
  Steps, no_more, more, ticks, steps_left, HasReturned, shutdown_terminates, running_progress,
}
use maxbridge.Tests.Data.{early, late}

-- ClaimJobs has returned one job,
abbrev claimed_one : Run
claimed_one = record (launch 1) { claiming = early ∷ []; claimed = early ∷ [] }

-- it is in the channel,
abbrev handed_one : Run
handed_one = record claimed_one { claiming = []; channel = early ∷ [] }

-- a goroutine has taken it, and ClaimJobs has returned another one,
abbrev processing_one : Run
processing_one = record handed_one { idle = 0; busy = early ∷ []; channel = [] }

abbrev claimed_two : Run
claimed_two = record processing_one { claiming = late ∷ []; claimed = late ∷ early ∷ [] }

-- and the context is cancelled.
abbrev stopping : Run
stopping = record claimed_two { cancelled = true }

abbrev processed_one : Run
processed_one = record stopping { busy = []; idle = 1; finished = early ∷ [] }

abbrev returned_one : Run
returned_one = record processed_one { idle = 0; gone = 1 }

abbrev stopped : Run
stopped = record returned_one { closed = true }

claimed_two-Reachable : Reachable 1 claimed_two
claimed_two-Reachable =
    let first =
      after _ claimed_one start (claims (launch 1) (early ∷ []) refl refl (omega arith)) in
    let second = after _ handed_one first (handed claimed_one early [] refl refl (omega arith)) in
    let third =
      after _ processing_one second
        (worked handed_one processing_one (taken handed_one 0 early [] refl refl)) in
    after _ claimed_two third (claims processing_one (late ∷ []) refl refl (omega arith))

stopping-Reachable : Reachable 1 stopping
stopping-Reachable = after _ stopping claimed_two-Reachable (cancels claimed_two refl)

stops : Steps 1 3 stopping stopped
stops =
    more _ _ processed_one _ (worked stopping processed_one (processed stopping [] early [] refl)) (
      more _ _ returned_one _
        (worked processed_one returned_one (returned processed_one 0 refl refl))
        (more _ _ stopped _ (closes returned_one refl refl) (no_more stopped)))

Reachable-IsBalanced_example : IsBalanced 1 stopping
Reachable-IsBalanced_example = Reachable-IsBalanced 1 stopping-Reachable

shutdown_terminates_example :
    (3 + steps_left stopped ≤ steps_left stopping + ticks stops * (4 * 1 + 1))
    × (HasReturned 1 stopped ⊎ ((r : Run) × Step 1 stopped r × (steps_left r < steps_left stopped)))
shutdown_terminates_example = shutdown_terminates stopping-Reachable refl stops

running_progress_example :
    ((claimed_two.claiming ≡ []) × (claimed_two.channel ≡ []) × (claimed_two.busy ≡ []))
    ⊎ (((r : Run) × Work claimed_two r)
        ⊎ ((j : DeliveryJob) × (js : List DeliveryJob) × (claimed_two.claiming ≡ j ∷ js)
            × (length claimed_two.channel < 1 * 2)))
unfolding at_least_one
running_progress_example = running_progress (pos 1) claimed_two-Reachable refl
