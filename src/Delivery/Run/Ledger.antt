-- ===== src/Delivery/Run/Ledger.antt =====
-- internal/delivery/worker.go: where the claimed jobs are while Run runs.
use maxbridge.Prelude.{
  ℕ, ◌+◌, ◌*◌, ◌≤◌, ◌≡◌, refl, ap, ◌∙◌, ◌⊎◌, inl, inr, Bool, true, List, [], ◌∷◌, ◌++◌, arith,
  length, length-append,
}
use maxbridge.Storage.Tables.{DeliveryJob}
use maxbridge.Delivery.Run.{
  Run, Work, taken, processed, returned, Step, worked, claims, handed, cancels, closes, Reachable,
  start, after, count,
}

filter-append :
    (test : DeliveryJob → Bool) (xs ys : List DeliveryJob)
    → count test (xs ++ ys) ≡ count test xs + count test ys
filter-append test [] ys = omega arith
filter-append test (x ∷ xs) ys = ground (arith, filter-append test xs ys)

-- Every job that was claimed is in one place, as often as it was claimed; the lists are bounded.
pub record IsBalanced (concurrency : ℕ) (r : Run) : Type 0 where
  pub accounted :
      (test : DeliveryJob → Bool)
      → count test r.claimed
        ≡ count test r.claiming + count test r.channel + count test r.busy + count test r.finished
  pub workers : r.idle + length r.busy + r.gone ≡ concurrency
  pub claiming_bounded : length r.claiming ≤ concurrency
  pub channel_bounded : length r.channel ≤ concurrency * 2
  pub gone_after_cancel : (r.cancelled ≡ true) ⊎ (r.gone ≡ 0)

module _ (concurrency : ℕ) where
  Work-IsBalanced : {r r' : Run} → Work r r' → IsBalanced concurrency r → IsBalanced concurrency r'
  Work-IsBalanced (taken r i j js idle channel) h = record {
    accounted = λ test. ground (arith, h.accounted test, channel);
    workers = ground (arith, h.workers, idle);
    claiming_bounded = h.claiming_bounded;
    channel_bounded = ground (arith, h.channel_bounded, channel);
    gone_after_cancel = h.gone_after_cancel;
  }
  Work-IsBalanced (processed r before j behind busy) h = record {
    accounted = λ test.
        let split = ap (count test) busy ∙ filter-append test before (j ∷ behind) in
        ground (arith, h.accounted test, split, filter-append test before behind);
    workers =
        let split = ap length busy ∙ length-append before (j ∷ behind) in
        ground (arith, h.workers, split, length-append before behind);
    claiming_bounded = h.claiming_bounded;
    channel_bounded = h.channel_bounded;
    gone_after_cancel = h.gone_after_cancel;
  }
  Work-IsBalanced (returned r i cancelled idle) h = record {
    accounted = h.accounted;
    workers = ground (arith, h.workers, idle);
    claiming_bounded = h.claiming_bounded;
    channel_bounded = h.channel_bounded;
    gone_after_cancel = inl cancelled;
  }

  Step-IsBalanced :
      {r r' : Run} → Step concurrency r r' → IsBalanced concurrency r → IsBalanced concurrency r'
  Step-IsBalanced (worked r r' w) h = Work-IsBalanced w h
  Step-IsBalanced (claims r jobs running idle few) h = record {
    accounted = λ test.
        ground (arith, h.accounted test, ap (count test) idle, filter-append test jobs r.claimed);
    workers = h.workers;
    claiming_bounded = few;
    channel_bounded = h.channel_bounded;
    gone_after_cancel = h.gone_after_cancel;
  }
  Step-IsBalanced (handed r j js running claiming room) h = record {
    accounted = λ test.
        ground (
          arith,
          h.accounted test,
          ap (count test) claiming,
          filter-append test r.channel (j ∷ []),
        );
    workers = h.workers;
    claiming_bounded = ground (arith, h.claiming_bounded, claiming);
    channel_bounded = omega (arith, room, length-append r.channel (j ∷ []));
    gone_after_cancel = h.gone_after_cancel;
  }
  Step-IsBalanced (cancels r running) h = record {
    accounted = h.accounted;
    workers = h.workers;
    claiming_bounded = h.claiming_bounded;
    channel_bounded = h.channel_bounded;
    gone_after_cancel = inl refl;
  }
  Step-IsBalanced (closes r running cancelled) h = record {
    accounted = h.accounted;
    workers = h.workers;
    claiming_bounded = h.claiming_bounded;
    channel_bounded = h.channel_bounded;
    gone_after_cancel = h.gone_after_cancel;
  }

  -- While the worker runs, in whatever order its goroutines, its claims and its shutdown interleave,
  -- every job that ClaimJobs returned is exactly once, as often as it was claimed, still to be handed
  -- over, in the channel, with a goroutine that processes it, or processed. At most `concurrency` jobs
  -- are to be handed over, twice as many in the channel, and `concurrency` with the goroutines, none
  -- of which has returned before the context is cancelled.
  pub Reachable-IsBalanced : {r : Run} → Reachable concurrency r → IsBalanced concurrency r
  Reachable-IsBalanced start = record {
    accounted = λ test. refl;
    workers = omega arith;
    claiming_bounded = omega arith;
    channel_bounded = omega arith;
    gone_after_cancel = inr refl;
  }
  Reachable-IsBalanced (after r r' reached step) =
      Step-IsBalanced step (Reachable-IsBalanced reached)
