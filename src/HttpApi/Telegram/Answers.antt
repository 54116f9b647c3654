-- ===== src/HttpApi/Telegram/Answers.antt =====
-- What an answer of handleTelegramWebhook in internal/httpapi/server.go promises to Telegram.
use maxbridge.HttpApi.Guards.{guarded-Checked, Checked, IsAuthentic, IsRefusal}
use maxbridge.Prelude.{ℕ, suc, ◌≡◌, refl, ap, ◌∙◌, ◌⊎◌, inl, inr, Option, none, some, arith, ℤ}
use maxbridge.Text.{Text}
use maxbridge.Domain.{TelegramUpdate, TelegramChat}
use maxbridge.Storage.Database.{Db, Result, ok, err}
use maxbridge.Storage.Accounts.{add_telegram_group}
use maxbridge.Storage.Enqueue.{enqueue_telegram_update}
use maxbridge.Storage.Enqueue.Failure.{enqueue_telegram_update_atomic}
use maxbridge.HttpApi.{Request, ServerState, Peers, guarded, call}
use maxbridge.HttpApi.Telegram.{
  chat_for_auto_registration, group_title, register, after_register, after_enqueue, accept_update,
  after_guard, handle_telegram_webhook,
}

add_telegram_group-jobs :
    (chat_id : ℤ) (title : Text) (db : Db)
    → (add_telegram_group chat_id title db).1.tables.jobs ≡ db.tables.jobs
unfolding add_telegram_group
add_telegram_group-jobs chat_id title db = ground arith

module _ {W : Type 0} (peers : Peers W) (max_retry : ℕ) where
  -- The update has been enqueued, and the database is left as that call left it.
  abbrev pub Enqueued : TelegramUpdate → ServerState W → Type 0
  Enqueued upd s' =
      (db : Db) × (n : ℕ) × ((enqueue_telegram_update upd max_retry db).0 ≡ ok n)
      × (s'.store ≡ (enqueue_telegram_update upd max_retry db).1)

  -- What an authentic update leads to.
  abbrev pub Handled : TelegramUpdate → ServerState W → ℕ × ServerState W → Type 0
  Handled upd s answer =
      (answer.0 ≡ 200) × Enqueued upd answer.1
      ⊎ (answer.0 ≡ 500) × (answer.1.store.tables.jobs ≡ s.store.tables.jobs)

  after_register-jobs :
      (r : Result (Unit {0})) (s : ServerState W)
      → (after_register peers r s).store.tables.jobs ≡ s.store.tables.jobs
  after_register-jobs (ok _) s = refl
  after_register-jobs (err e) s = refl

  register-jobs :
      (chat : Option TelegramChat) (s : ServerState W)
      → (register peers chat s).store.tables.jobs ≡ s.store.tables.jobs
  unfolding register
  register-jobs none s = refl
  register-jobs (some chat) s =
      let add = add_telegram_group chat.id (group_title chat) in
      let (r, s') = call peers add s in
      after_register-jobs r s'
      ∙ add_telegram_group-jobs chat.id (group_title chat)
          (record s.store { now = peers.database_clock s.world })

  after_enqueue-Handled :
      (upd : TelegramUpdate) (s s2 : ServerState W) (db : Db) (r : Result ℕ)
      → (enqueue_telegram_update upd max_retry db).0 ≡ r
      → s2.store ≡ (enqueue_telegram_update upd max_retry db).1
      → db.tables.jobs ≡ s.store.tables.jobs
      → Handled upd s (after_enqueue peers r s2)
  after_enqueue-Handled upd s s2 db (ok n) h same jobs = inl (refl, (db, n, h, same))
  after_enqueue-Handled upd s s2 db (err e) h same jobs = inr (
    refl,
    ap (λ d. d.tables.jobs) same
        ∙ ap (λ t. t.jobs) (enqueue_telegram_update_atomic upd max_retry db e h)
        ∙ jobs,
  )

  accept_update-Handled :
      (upd : TelegramUpdate) (s : ServerState W)
      → Handled upd s (accept_update peers max_retry upd s)
  unfolding accept_update
  accept_update-Handled upd s =
      let chat = chat_for_auto_registration upd in
      let counted : ServerState W = record s {
        metrics = record s.metrics { telegram_updates = suc s.metrics.telegram_updates };
      } in
      let s1 = register peers chat counted in
      let db : Db = record s1.store { now = peers.database_clock s1.world } in
      let s2 = (call peers (enqueue_telegram_update upd max_retry) s1).1 in
      after_enqueue-Handled upd s s2 db (enqueue_telegram_update upd max_retry db).0 refl refl
        (register-jobs chat counted)

  -- Telegram is answered 200 only when its update, which came in an authentic POST, has been
  -- enqueued. Every other answer is 405, 403 or 400, with the database as it was, or 500 for an
  -- authentic update, with the delivery jobs as they were.
  pub handle_telegram_webhook_lem :
      (secret : Text) (request : Request TelegramUpdate) (s : ServerState W)
      → let (status, s') = handle_telegram_webhook peers secret max_retry request s in
        IsRefusal status × (s'.store ≡ s.store)
        ⊎ (upd : TelegramUpdate) × IsAuthentic secret request upd × Handled upd s (status, s')
  unfolding handle_telegram_webhook
  handle_telegram_webhook_lem secret request s =
      go (guarded secret request) (guarded-Checked secret request)
    where
      go :
          (g : ℕ ⊎ TelegramUpdate)
          → Checked secret request g
          → let (status, s') = after_guard peers max_retry g s in
            IsRefusal status × (s'.store ≡ s.store)
            ⊎ (upd : TelegramUpdate) × IsAuthentic secret request upd × Handled upd s (status, s')
      go (inl status) refused = inl (refused, refl)
      go (inr upd) authentic = inr (upd, authentic, accept_update-Handled upd s)
