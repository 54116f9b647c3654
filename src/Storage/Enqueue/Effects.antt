-- ===== src/Storage/Enqueue/Effects.antt =====
-- What the loop of EnqueueTelegramUpdate in internal/storage/store.go adds to the delivery jobs.
use maxbridge.Storage.Database.{Db, Result, ok, err, >>=-ok}
use maxbridge.Prelude.{
  ℕ, ◌+◌, ◌≡◌, sym, ap, ◌∙◌, ◌⊎◌, inl, inr, true, List, [], ◌∷◌, ◌++◌, arith, length, length-append,
  pos,
}
use maxbridge.Domain.{TelegramMessage}
use maxbridge.Storage.Enqueue.{
  new_job, RouteCandidate, candidate_passes, insert_dedupe, insert_job, enqueue_candidate,
  enqueue_candidates,
}

abbrev pub added : Result ℕ → ℕ
added (ok n) = n
added (err e) = 0

-- One round either leaves the job table alone and counts nothing, or appends the job of a candidate
-- whose filter lets the message through, and counts one.
pub enqueue_candidate-effect :
    (msg : TelegramMessage) (max_attempts : ℕ) (c : RouteCandidate) (db : Db)
    → let (r, db') = enqueue_candidate msg max_attempts c db in
      ((db'.tables.jobs ≡ db.tables.jobs) × (added r ≡ 0))
      ⊎ ((db'.tables.jobs
            ≡ db.tables.jobs ++ new_job (pos db.sequences.jobs) db.now msg c max_attempts ∷ [])
          × (candidate_passes msg c ≡ true)
          × (r ≡ ok 1))
unfolding enqueue_candidate insert_dedupe insert_job
enqueue_candidate-effect msg max_attempts c db = ground arith

-- The loop adds as many jobs as it counts.
pub length-enqueue_candidates :
    (msg : TelegramMessage) (max_attempts : ℕ) (cs : List RouteCandidate) (enqueued : ℕ) (db : Db)
    (n : ℕ)
    → (enqueue_candidates msg max_attempts cs enqueued db).0 ≡ ok n
    → length (enqueue_candidates msg max_attempts cs enqueued db).1.tables.jobs + enqueued
      ≡ length db.tables.jobs + n
unfolding enqueue_candidates
length-enqueue_candidates msg max_attempts [] enqueued db n h = ground arith
length-enqueue_candidates msg max_attempts (c ∷ cs) enqueued db n h =
    let rest = λ (a : ℕ). enqueue_candidates msg max_attempts cs (enqueued + a) in
    let (a, first, e) = >>=-ok (enqueue_candidate msg max_attempts c) rest db h in
    let db' = (enqueue_candidate msg max_attempts c db).1 in
    let later =
      length-enqueue_candidates msg max_attempts cs (enqueued + a) db' n
        (ap (λ r. r.0) (sym e) ∙ h) in
    let same = ap (λ (r : Result ℕ × Db). length r.1.tables.jobs) e in
    elim (enqueue_candidate-effect msg max_attempts c db) [
      | inl (kept, zero_added) ↦
          let added_a : a ≡ 0 = sym (ap added first) ∙ zero_added in
          omega (arith, same, later, added_a, ap length kept)
      | inr (grown, _, one) ↦
          let added_a : a ≡ 1 = sym (ap added first) ∙ ap added one in
          omega (
            arith,
            same,
            later,
            added_a,
            ap length grown,
            length-append db.tables.jobs
                (new_job (pos db.sequences.jobs) db.now msg c max_attempts ∷ []),
          )
    ]
