-- ===== src/Storage/Enqueue/Idempotence.antt =====
-- EnqueueTelegramUpdate of internal/storage/store.go called again for the same update, as when Telegram
-- repeats a webhook.
use maxbridge.Storage.Database.{
  transaction-served, transaction_atomic, Exec, Result-cases, next_fault, Result, Db, ok, served,
  transaction, transaction-ok,
}
use maxbridge.Storage.Enqueue.{
  enqueue_update, Tables, select_candidates, enqueue_message, enqueue_telegram_update,
}
use maxbridge.Prelude.{
  ℕ, ◌≡◌, refl, sym, ap, ◌∙◌, subst, inl, inr, true, Option, none, some, [], arith, Option-cases,
  All,
}
use maxbridge.Domain.{TelegramMessage, TelegramUpdate}
use maxbridge.Storage.Enqueue.Known.{
  is_known, enqueue_body, enqueue_body-ok, enqueue_candidates_known, enqueue_candidates_again,
  select_candidates-enqueue_candidates,
}

-- Every candidate that the tables select for the message has been enqueued or filtered out.
abbrev IsSettled : TelegramMessage → Tables → Type 0
IsSettled msg t = All (λ c. is_known msg t c ≡ true) (select_candidates msg.chat.id t)

-- Only the routes, the users and the dedupe records count.
IsSettled-same :
    (msg : TelegramMessage) (t t' : Tables)
    → t'.routes ≡ t.routes
    → t'.users ≡ t.users
    → t'.dedupe ≡ t.dedupe
    → IsSettled msg t
    → IsSettled msg t'
unfolding select_candidates
IsSettled-same msg t t' routes users dedupe h =
    let by_routes = subst (λ rs. IsSettled msg (record t { routes = rs })) (sym routes) h in
    let by_users =
      subst (λ us. IsSettled msg (record t { routes = t'.routes; users = us })) (sym users)
        by_routes in
    subst (λ ds. IsSettled msg (record t { routes = t'.routes; users = t'.users; dedupe = ds }))
      (sym dedupe) by_users

enqueue_body-IsSettled :
    (msg : TelegramMessage) (max_attempts : ℕ) (db : Db) {n : ℕ}
    → (enqueue_body msg max_attempts db).0 ≡ ok n
    → IsSettled msg (enqueue_body msg max_attempts db).1.tables
enqueue_body-IsSettled msg max_attempts db {n} h =
    let cs = select_candidates msg.chat.id db.tables in
    let e = enqueue_body-ok msg max_attempts db h in
    let same = select_candidates-enqueue_candidates msg msg.chat.id max_attempts cs 0 (served db) in
    let known =
      enqueue_candidates_known msg max_attempts cs 0 (served db) (ap (λ r. r.0) (sym e) ∙ h) in
    subst (λ (r : Result ℕ × Db). IsSettled msg r.1.tables) (sym e) (subst (All _) (sym same) known)

enqueue_message-IsSettled :
    (msg : TelegramMessage) (max_attempts : ℕ) (db : Db) {n : ℕ}
    → (enqueue_message msg max_attempts db).0 ≡ ok n
    → IsSettled msg (enqueue_message msg max_attempts db).1.tables
unfolding enqueue_message
enqueue_message-IsSettled msg max_attempts db h =
    let (done, tables) = transaction-ok (enqueue_body msg max_attempts) db h in
    subst (IsSettled msg) (sym tables) (enqueue_body-IsSettled msg max_attempts (served db) done)

-- What a second enqueue does to settled tables.
abbrev AddsNothing : Exec ℕ → Db → Type 0
AddsNothing m db =
    ((m db).1.tables ≡ db.tables)
    × ((n : ℕ) → (m db).0 ≡ ok n → n ≡ 0)
    × (db.faults ≡ [] → ((m db).0 ≡ ok 0) × ((m db).1.faults ≡ []))

enqueue_body_again :
    (msg : TelegramMessage) (max_attempts : ℕ) (db : Db)
    → IsSettled msg db.tables
    → AddsNothing (enqueue_body msg max_attempts) db
enqueue_body_again msg max_attempts db settled =
    let cs = select_candidates msg.chat.id db.tables in
    let (kept, added, clean) = enqueue_candidates_again msg max_attempts cs 0 (served db) settled in
    elim (Option-cases (next_fault db.faults)) [
      | inl e ↦ rw e (kept, added, λ none_left. clean (rw none_left))
      | inr (f, e) ↦ rw e (refl, λ n h. cc, λ none_left. ground (arith, e))
    ]

enqueue_message_again :
    (msg : TelegramMessage) (max_attempts : ℕ) (db : Db)
    → IsSettled msg db.tables
    → ((enqueue_message msg max_attempts db).1.tables ≡ db.tables)
      × ((n : ℕ) → (enqueue_message msg max_attempts db).0 ≡ ok n → n ≡ 0)
      × (db.faults ≡ [] → (enqueue_message msg max_attempts db).0 ≡ ok 0)
unfolding enqueue_message
enqueue_message_again msg max_attempts db settled =
    let body = enqueue_body msg max_attempts in
    let (kept, added, clean) = enqueue_body_again msg max_attempts (served db) settled in
    (
      elim (Result-cases (transaction body db).0) [
        | inl (n, h) ↦ (transaction-ok body db h).1 ∙ kept
        | inr (e, h) ↦ transaction_atomic body db h
      ],
      λ n h. added n (transaction-ok body db h).0,
      λ none_left.
          transaction-served body db none_left (clean (rw none_left)).0 (clean (rw none_left)).1,
    )

-- After a successful EnqueueTelegramUpdate, another for the same update, with any retry limit, at any
-- time and on any course of database failures, changes no table and reports 0 jobs if it succeeds, as
-- long as the routes, the users and the dedupe records are as the first call left them; and it does
-- succeed where the database serves every statement.
pub enqueue_telegram_update_idempotent :
    (upd : TelegramUpdate) (max_attempts max_attempts' : ℕ) (db db' : Db) (n : ℕ)
    → (enqueue_telegram_update upd max_attempts db).0 ≡ ok n
    → let left = (enqueue_telegram_update upd max_attempts db).1.tables in
      db'.tables.routes ≡ left.routes
      → db'.tables.users ≡ left.users
      → db'.tables.dedupe ≡ left.dedupe
      → ((enqueue_telegram_update upd max_attempts' db').1.tables ≡ db'.tables)
        × ((m : ℕ) → (enqueue_telegram_update upd max_attempts' db').0 ≡ ok m → m ≡ 0)
        × (db'.faults ≡ [] → (enqueue_telegram_update upd max_attempts' db').0 ≡ ok 0)
unfolding enqueue_telegram_update
enqueue_telegram_update_idempotent upd max_attempts max_attempts' db db' n h routes users dedupe =
    go upd.message h routes users dedupe
  where
    go :
        (message : Option TelegramMessage)
        → (enqueue_update message max_attempts db).0 ≡ ok n
        → let left = (enqueue_update message max_attempts db).1.tables in
          db'.tables.routes ≡ left.routes
          → db'.tables.users ≡ left.users
          → db'.tables.dedupe ≡ left.dedupe
          → ((enqueue_update message max_attempts' db').1.tables ≡ db'.tables)
            × ((m : ℕ) → (enqueue_update message max_attempts' db').0 ≡ ok m → m ≡ 0)
            × (db'.faults ≡ [] → (enqueue_update message max_attempts' db').0 ≡ ok 0)
    go none done r u d = (refl, λ m e. ground arith, λ none_left. refl)
    go (some msg) done r u d =
        let left = (enqueue_message msg max_attempts db).1.tables in
        enqueue_message_again msg max_attempts' db' (
          IsSettled-same msg left db'.tables r u d
            (enqueue_message-IsSettled msg max_attempts db done))
