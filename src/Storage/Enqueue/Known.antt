-- ===== src/Storage/Enqueue/Known.antt =====
-- The dedupe records that the loop of EnqueueTelegramUpdate leaves, and what it does where they are there.
use maxbridge.Storage.Database.{◌>>=◌, served, query, Exec, err, >>=-ok, continue, Result, Db, ok}
use maxbridge.Prelude.{
  ℤ, refl, ◌∙◌, sym, subst, ap, ◌+◌, All, List, pos, ◌∷◌, ℕ, ◌≡◌, Bool, true, not, ◌||◌, [], arith,
  any, any-append,
}
use maxbridge.Storage.Enqueue.{
  select_candidates, enqueue_candidates, new_dedupe, RouteCandidate, candidate_passes,
  candidate_key, has_key, insert_dedupe, insert_job, enqueue_candidate,
}
use maxbridge.Storage.Database.Keeps.{Keeps, Keeps-bind}
use maxbridge.Storage.Tables.{DedupeRow, Tables}
use maxbridge.Text.{==ᵗ_refl}
use maxbridge.Domain.{TelegramMessage}

module _ (msg : TelegramMessage) where
  abbrev inserted : RouteCandidate → Db → DedupeRow
  inserted c db =
      new_dedupe (pos db.sequences.dedupe) db.now (candidate_key msg c) c.route_id msg.chat.id
        msg.message_id

  -- The candidate is filtered out, or its dedupe record is there.
  abbrev pub is_known : Tables → RouteCandidate → Bool
  is_known t c = not (candidate_passes msg c) || any (has_key (candidate_key msg c)) t.dedupe

  enqueue_candidate-is_known :
      (max_attempts : ℕ) (c d : RouteCandidate) (db : Db)
      → is_known db.tables d ≡ true
      → is_known (enqueue_candidate msg max_attempts c db).1.tables d ≡ true
  unfolding enqueue_candidate insert_dedupe insert_job
  enqueue_candidate-is_known max_attempts c d db h =
      ground
        (arith, any-append (has_key (candidate_key msg d)) db.tables.dedupe (inserted c db ∷ []))

  enqueue_candidate_known :
      (max_attempts : ℕ) (c : RouteCandidate) (db : Db) {n : ℕ}
      → (enqueue_candidate msg max_attempts c db).0 ≡ ok n
      → is_known (enqueue_candidate msg max_attempts c db).1.tables c ≡ true
  unfolding enqueue_candidate insert_dedupe insert_job
  enqueue_candidate_known max_attempts c db h = ground (
    arith,
    any-append (has_key (candidate_key msg c)) db.tables.dedupe (inserted c db ∷ []),
    ==ᵗ_refl (candidate_key msg c),
  )

  -- A known candidate is passed over.
  enqueue_candidate_again :
      (max_attempts : ℕ) (c : RouteCandidate) (db : Db)
      → is_known db.tables c ≡ true
      → ((enqueue_candidate msg max_attempts c db).1.tables ≡ db.tables)
        × ((n : ℕ) → (enqueue_candidate msg max_attempts c db).0 ≡ ok n → n ≡ 0)
        × (db.faults ≡ []
            → ((enqueue_candidate msg max_attempts c db).0 ≡ ok 0)
              × ((enqueue_candidate msg max_attempts c db).1.faults ≡ []))
  unfolding enqueue_candidate insert_dedupe
  enqueue_candidate_again max_attempts c db h =
      (ground arith, λ n e. ground arith, λ e. ground arith)

  -- What each round keeps, the loop keeps.
  pub enqueue_candidates-Keeps :
      (P : Tables → Type 0) (max_attempts : ℕ)
      → ((c : RouteCandidate) → Keeps P (enqueue_candidate msg max_attempts c))
      → (cs : List RouteCandidate) (enqueued : ℕ)
      → Keeps P (enqueue_candidates msg max_attempts cs enqueued)
  unfolding enqueue_candidates
  enqueue_candidates-Keeps P max_attempts keep [] enqueued = record { at = λ db h. h }
  enqueue_candidates-Keeps P max_attempts keep (c ∷ cs) enqueued =
      Keeps-bind P (enqueue_candidate msg max_attempts c)
        (λ n. enqueue_candidates msg max_attempts cs (enqueued + n)) (keep c)
        (λ n. enqueue_candidates-Keeps P max_attempts keep cs (enqueued + n))

  pub enqueue_candidates-is_known :
      (max_attempts : ℕ) (cs : List RouteCandidate) (d : RouteCandidate) (enqueued : ℕ) (db : Db)
      → is_known db.tables d ≡ true
      → is_known (enqueue_candidates msg max_attempts cs enqueued db).1.tables d ≡ true
  enqueue_candidates-is_known max_attempts cs d enqueued db h =
      (enqueue_candidates-Keeps (λ t. is_known t d ≡ true) max_attempts
          (λ c. record { at = enqueue_candidate-is_known max_attempts c d }) cs enqueued).at
        db h

  pub enqueue_candidates_known :
      (max_attempts : ℕ) (cs : List RouteCandidate) (enqueued : ℕ) (db : Db) {n : ℕ}
      → (enqueue_candidates msg max_attempts cs enqueued db).0 ≡ ok n
      → All
          (λ c. is_known (enqueue_candidates msg max_attempts cs enqueued db).1.tables c ≡ true)
          cs
  unfolding enqueue_candidates
  enqueue_candidates_known max_attempts [] enqueued db h = tt
  enqueue_candidates_known max_attempts (c ∷ cs) enqueued db h =
      let rest = λ (a : ℕ). enqueue_candidates msg max_attempts cs (enqueued + a) in
      let (a, first, e) = >>=-ok (enqueue_candidate msg max_attempts c) rest db h in
      let db' = (enqueue_candidate msg max_attempts c db).1 in
      let loop = λ (r : Result ℕ × Db). All (λ d. is_known r.1.tables d ≡ true) (c ∷ cs) in
      subst loop (sym e) (
        enqueue_candidates-is_known max_attempts cs c (enqueued + a) db'
            (enqueue_candidate_known max_attempts c db first),
        enqueue_candidates_known max_attempts cs (enqueued + a) db' (ap (λ r. r.0) (sym e) ∙ h),
      )

  pub enqueue_candidates_again :
      (max_attempts : ℕ) (cs : List RouteCandidate) (enqueued : ℕ) (db : Db)
      → All (λ c. is_known db.tables c ≡ true) cs
      → ((enqueue_candidates msg max_attempts cs enqueued db).1.tables ≡ db.tables)
        × ((n : ℕ) → (enqueue_candidates msg max_attempts cs enqueued db).0 ≡ ok n → n ≡ enqueued)
        × (db.faults ≡ []
            → ((enqueue_candidates msg max_attempts cs enqueued db).0 ≡ ok enqueued)
              × ((enqueue_candidates msg max_attempts cs enqueued db).1.faults ≡ []))
  unfolding enqueue_candidates
  enqueue_candidates_again max_attempts [] enqueued db known =
      (refl, λ n e. ground arith, λ e. (refl, e))
  enqueue_candidates_again max_attempts (c ∷ cs) enqueued db known =
      next (enqueue_candidate msg max_attempts c db)
        (enqueue_candidate_again max_attempts c db known.0)
        (λ db' k. enqueue_candidates_again max_attempts cs enqueued db' k)
    where
      next :
          (r : Result ℕ × Db)
          → (r.1.tables ≡ db.tables)
            × ((n : ℕ) → r.0 ≡ ok n → n ≡ 0)
            × (db.faults ≡ [] → (r.0 ≡ ok 0) × (r.1.faults ≡ []))
          → ((db' : Db)
              → All (λ d. is_known db'.tables d ≡ true) cs
              → ((enqueue_candidates msg max_attempts cs enqueued db').1.tables ≡ db'.tables)
                × ((n : ℕ)
                    → (enqueue_candidates msg max_attempts cs enqueued db').0 ≡ ok n
                    → n ≡ enqueued)
                × (db'.faults ≡ []
                    → ((enqueue_candidates msg max_attempts cs enqueued db').0 ≡ ok enqueued)
                      × ((enqueue_candidates msg max_attempts cs enqueued db').1.faults ≡ [])))
          → let s = continue r.0 (λ n. enqueue_candidates msg max_attempts cs (enqueued + n)) r.1 in
            (s.1.tables ≡ db.tables)
            × ((n : ℕ) → s.0 ≡ ok n → n ≡ enqueued)
            × (db.faults ≡ [] → (s.0 ≡ ok enqueued) × (s.1.faults ≡ []))
      next (err e, db') h step = (h.0, λ n q. cc, λ q. cc ((h.2 q).0))
      next (ok n, db') h step =
          let none_added : enqueued + n ≡ enqueued = omega (arith, h.1 n refl) in
          let (kept, same, clean) =
            step db' (subst (λ t. All (λ d. is_known t d ≡ true) cs) (sym h.0) known.1) in
          rw none_added (kept ∙ h.0, same, λ q. clean (h.2 q).1)

  select_candidates-enqueue_candidate :
      (chat_id : ℤ) (max_attempts : ℕ) (c : RouteCandidate) (db : Db)
      → select_candidates chat_id (enqueue_candidate msg max_attempts c db).1.tables
        ≡ select_candidates chat_id db.tables
  unfolding enqueue_candidate insert_dedupe insert_job select_candidates
  select_candidates-enqueue_candidate chat_id max_attempts c db = ground arith

  -- The loop leaves users and routes alone, so a second enqueue selects the same candidates.
  pub select_candidates-enqueue_candidates :
      (chat_id : ℤ) (max_attempts : ℕ) (cs : List RouteCandidate) (enqueued : ℕ) (db : Db)
      → select_candidates chat_id (enqueue_candidates msg max_attempts cs enqueued db).1.tables
        ≡ select_candidates chat_id db.tables
  select_candidates-enqueue_candidates chat_id max_attempts cs enqueued db =
      (enqueue_candidates-Keeps
          (λ t. select_candidates chat_id t ≡ select_candidates chat_id db.tables) max_attempts
          (λ c. record {
            at = λ db' h. select_candidates-enqueue_candidate chat_id max_attempts c db' ∙ h;
          })
          cs enqueued).at
        db refl

  -- The body of the transaction.
  abbrev pub enqueue_body : ℕ → Exec ℕ
  enqueue_body max_attempts = query (λ now tables. select_candidates msg.chat.id tables) >>= λ cs.
      enqueue_candidates msg max_attempts cs 0

  pub enqueue_body-ok :
      (max_attempts : ℕ) (db : Db) {n : ℕ}
      → (enqueue_body max_attempts db).0 ≡ ok n
      → enqueue_body max_attempts db
        ≡ enqueue_candidates msg max_attempts
            (select_candidates msg.chat.id db.tables)
            0
            (served db)
  enqueue_body-ok max_attempts db h = ground arith
