-- ===== src/Storage/Enqueue/Recipients.antt =====
-- Which jobs EnqueueTelegramUpdate of internal/storage/store.go creates, and how many.
use maxbridge.Storage.Enqueue.Effects.{length-enqueue_candidates, enqueue_candidate-effect}
use maxbridge.Storage.Enqueue.Known.{enqueue_body-ok, enqueue_body}
use maxbridge.Storage.Database.{
  transaction_atomic, transaction-ok, transaction, next_fault, Result-cases, served, Db, Result, ok,
}
use maxbridge.Prelude.{
  All-Memᴰ, Option-cases, none, Option, ℕ, ◌+◌, ◌≡◌, refl, sym, ap, ◌∙◌, subst, ◌⊎◌, inl, inr, true,
  not, ◌&&◌, some, List, [], ◌∷◌, map, Memᴰ, arith, length, filter, any, All, All-append,
  Memᴰ-filter, Memᴰ-All, pos, ◌==ℤ◌, ==ℤ_iff,
}
use maxbridge.Domain.{TelegramUpdate, TelegramMessage, pending}
use maxbridge.Storage.Enqueue.{
  enqueue_telegram_update, enqueue_update, new_job, RouteCandidate, candidate, candidate_passes,
  route_passes_filter, is_open_route, select_candidates, enqueue_candidate, enqueue_candidates,
}
use maxbridge.Storage.Tables.{Tables, RouteRow, DeliveryJob, encoded}
use maxbridge.Storage.Database.Keeps.{Keeps, Keeps-bind}

-- The job stands for the message on a route that is enabled, in the message's chat, with an active
-- and unblocked user, and whose filter lets the message through.
pub record IsDue (msg : TelegramMessage) (t : Tables) (j : DeliveryJob) : Type 0 where
  pub route : RouteRow
  pub listed : Memᴰ route t.routes
  pub chat : route.telegram_chat_id ≡ msg.chat.id
  pub enabled : route.enabled ≡ true
  pub recipient :
      any (λ u. u.max_user_id ==ℤ route.max_user_id && u.is_active && not u.is_blocked) t.users
      ≡ true
  pub passes : route_passes_filter route.filter_mode route.ignore_bot_messages (some msg) ≡ true
  pub of_route : j.route_id ≡ route.id
  pub of_user : j.max_user_id ≡ route.max_user_id
  pub of_message : j.telegram_message_id ≡ msg.message_id
  pub payload : j.payload ≡ encoded msg
  pub status : j.status ≡ pending
  pub attempts : j.attempts ≡ 0
  pub unleased : j.leased_until ≡ none

module _ (msg : TelegramMessage) (max_attempts : ℕ) (t : Tables) where
  abbrev OldOrDue : DeliveryJob → Type 0
  OldOrDue j = Memᴰ j t.jobs ⊎ IsDue msg t j

  abbrev AllOldOrDue : Tables → Type 0
  AllOldOrDue u = All OldOrDue u.jobs

  -- The candidate comes of a route that is selected.
  abbrev IsCandidate : RouteCandidate → Type 0
  IsCandidate c =
      (r : RouteRow) × Memᴰ r t.routes
      × (is_open_route msg.chat.id t.users r ≡ true)
      × (c ≡ candidate r)

  new_job-IsDue :
      (c : RouteCandidate) (j : DeliveryJob)
      → IsCandidate c
      → candidate_passes msg c ≡ true
      → j.route_id ≡ c.route_id
      → j.max_user_id ≡ c.max_user_id
      → j.telegram_message_id ≡ msg.message_id
      → j.payload ≡ encoded msg
      → j.status ≡ pending
      → j.attempts ≡ 0
      → j.leased_until ≡ none
      → IsDue msg t j
  unfolding is_open_route
  new_job-IsDue c j (r, listed, open_route, e) passes p q m d s a l = record {
    route = r;
    listed = listed;
    chat = (==ℤ_iff r.telegram_chat_id msg.chat.id).0 (ground (arith, open_route));
    enabled = ground (arith, open_route);
    recipient = ground (arith, open_route);
    passes = rw (← ap (λ x. route_passes_filter x.filter_mode x.ignore_bots (some msg)) e) passes;
    of_route = p ∙ ap (λ x. x.route_id) e;
    of_user = q ∙ ap (λ x. x.max_user_id) e;
    of_message = m;
    payload = d;
    status = s;
    attempts = a;
    unleased = l;
  }

  enqueue_candidate-OldOrDue :
      (c : RouteCandidate)
      → IsCandidate c
      → Keeps AllOldOrDue (enqueue_candidate msg max_attempts c)
  enqueue_candidate-OldOrDue c from = record {
    at = λ db h. elim (enqueue_candidate-effect msg max_attempts c db) [
      | inl (same, _) ↦ subst (All OldOrDue) (sym same) h
      | inr (grown, passes, _) ↦
          let job = new_job (pos db.sequences.jobs) db.now msg c max_attempts in
          subst (All OldOrDue) (sym grown) (
            All-append OldOrDue db.tables.jobs (job ∷ []) h
              (inr (new_job-IsDue c job from passes refl refl refl refl refl refl refl), tt))
    ];
  }

  enqueue_candidates-OldOrDue :
      (cs : List RouteCandidate) (enqueued : ℕ)
      → All IsCandidate cs
      → Keeps AllOldOrDue (enqueue_candidates msg max_attempts cs enqueued)
  unfolding enqueue_candidates
  enqueue_candidates-OldOrDue [] enqueued from = record { at = λ db h. h }
  enqueue_candidates-OldOrDue (c ∷ cs) enqueued from =
      Keeps-bind AllOldOrDue (enqueue_candidate msg max_attempts c)
        (λ n. enqueue_candidates msg max_attempts cs (enqueued + n))
        (enqueue_candidate-OldOrDue c from.0)
        (λ n. enqueue_candidates-OldOrDue cs (enqueued + n) from.1)

  map-candidate-IsCandidate :
      (rs : List RouteRow)
      → All (λ r. Memᴰ r t.routes × (is_open_route msg.chat.id t.users r ≡ true)) rs
      → All IsCandidate (map candidate rs)
  map-candidate-IsCandidate [] h = tt
  map-candidate-IsCandidate (r ∷ rs) h = ((r, h.0.0, h.0.1, refl), map-candidate-IsCandidate rs h.1)

  select_candidates-IsCandidate : All IsCandidate (select_candidates msg.chat.id t)
  unfolding select_candidates
  select_candidates-IsCandidate =
      map-candidate-IsCandidate (filter (is_open_route msg.chat.id t.users) t.routes) (
        Memᴰ-All _ (filter (is_open_route msg.chat.id t.users) t.routes)
          (λ r m. Memᴰ-filter (is_open_route msg.chat.id t.users) t.routes m))

enqueue_body-AllOldOrDue :
    (msg : TelegramMessage) (max_attempts : ℕ) (db : Db)
    → AllOldOrDue msg max_attempts db.tables (enqueue_body msg max_attempts db).1.tables
enqueue_body-AllOldOrDue msg max_attempts db =
    let old : All (OldOrDue msg max_attempts db.tables) db.tables.jobs =
      Memᴰ-All _ db.tables.jobs (λ j m. inl m) in
    let loop =
      enqueue_candidates-OldOrDue msg max_attempts db.tables
        (select_candidates msg.chat.id db.tables) 0
        (select_candidates-IsCandidate msg max_attempts db.tables) in
    elim (Option-cases (next_fault db.faults)) [
      | inl e ↦ rw e (loop.at (served db) old)
      | inr (f, e) ↦ rw e old
    ]

-- What a message may leave in the job table, and how many jobs a successful call counts.
abbrev EnqueuesDue : Option TelegramMessage → ℕ → Db → Type 0
EnqueuesDue message max_attempts db =
    let (r, db') = enqueue_update message max_attempts db in
    ((j : DeliveryJob)
      → Memᴰ j db'.tables.jobs
      → Memᴰ j db.tables.jobs
        ⊎ ((msg : TelegramMessage) × (message ≡ some msg) × IsDue msg db.tables j))
    × ((n : ℕ) → r ≡ ok n → length db'.tables.jobs ≡ length db.tables.jobs + n)

enqueue_message-EnqueuesDue :
    (msg : TelegramMessage) (max_attempts : ℕ) (db : Db) → EnqueuesDue (some msg) max_attempts db
unfolding enqueue_update
enqueue_message-EnqueuesDue msg max_attempts db =
    let body = enqueue_body msg max_attempts in
    let due = enqueue_body-AllOldOrDue msg max_attempts (served db) in
    (
      λ j m. elim (Result-cases (transaction body db).0) [
        | inl (n, h) ↦ tagged j (
            All-Memᴰ (OldOrDue msg max_attempts db.tables) (body (served db)).1.tables.jobs due
              (subst (λ (t : Tables). Memᴰ j t.jobs) (transaction-ok body db h).1 m))
        | inr (e, h) ↦ inl (subst (λ (t : Tables). Memᴰ j t.jobs) (transaction_atomic body db h) m)
      ],
      λ n h.
          let (done, tables) = transaction-ok body db h in
          let e = enqueue_body-ok msg max_attempts (served db) done in
          let cs = select_candidates msg.chat.id db.tables in
          let counted =
            length-enqueue_candidates msg max_attempts cs 0 (served (served db)) n
              (ap (λ r. r.0) (sym e) ∙ done) in
          omega (
            arith,
            counted,
            ap (λ (t : Tables). length t.jobs) tables,
            ap (λ (r : Result ℕ × Db). length r.1.tables.jobs) e,
          ),
    )
  where
    tagged :
        (j : DeliveryJob)
        → OldOrDue msg max_attempts db.tables j
        → Memᴰ j db.tables.jobs
          ⊎ ((m : TelegramMessage) × (some msg ≡ some m) × IsDue m db.tables j)
    tagged j (inl old) = inl old
    tagged j (inr new) = inr (msg, refl, new)

-- Whatever fails on the way, each job in the table after EnqueueTelegramUpdate was there before or is
-- due: pending, unleased and with no attempts, for the update's message on an enabled route of its
-- chat to an active and unblocked user, which the route's filter lets through. A successful call
-- reports exactly how many jobs it has added.
pub enqueue_telegram_update-IsDue :
    (upd : TelegramUpdate) (max_attempts : ℕ) (db : Db)
    → let (r, db') = enqueue_telegram_update upd max_attempts db in
      ((j : DeliveryJob)
        → Memᴰ j db'.tables.jobs
        → Memᴰ j db.tables.jobs
          ⊎ ((msg : TelegramMessage) × (upd.message ≡ some msg) × IsDue msg db.tables j))
      × ((n : ℕ) → r ≡ ok n → length db'.tables.jobs ≡ length db.tables.jobs + n)
unfolding enqueue_telegram_update
enqueue_telegram_update-IsDue upd max_attempts db = go upd.message
  where
    go : (message : Option TelegramMessage) → EnqueuesDue message max_attempts db
    go none = (λ j m. inl m, λ n e. ground arith)
    go (some msg) = enqueue_message-EnqueuesDue msg max_attempts db
