-- ===== src/HttpApi/Telegram/Redelivery.antt =====
-- A webhook that Telegram delivers again to handleTelegramWebhook of internal/httpapi/server.go.
use maxbridge.Prelude.{
  ℕ, suc, ◌≡◌, refl, sym, ap, ◌∙◌, subst, inl, inr, Option, none, some, arith, ℤ,
}
use maxbridge.Text.{Text}
use maxbridge.Domain.{TelegramUpdate, TelegramChat}
use maxbridge.Storage.Tables.{Tables}
use maxbridge.Storage.Database.{Db, Result, ok, err}
use maxbridge.Storage.Accounts.{add_telegram_group}
use maxbridge.Storage.Enqueue.{enqueue_telegram_update}
use maxbridge.Storage.Enqueue.Idempotence.{enqueue_telegram_update_idempotent}
use maxbridge.HttpApi.{Request, ServerState, Peers, call}
use maxbridge.HttpApi.Guards.{IsRefusal, guarded-authentic}
use maxbridge.HttpApi.Telegram.{
  chat_for_auto_registration, group_title, register, after_register, after_enqueue, accept_update,
  after_guard, handle_telegram_webhook,
}
use maxbridge.HttpApi.Telegram.Answers.{handle_telegram_webhook_lem}

-- The tables that decide who gets a message are the same.
abbrev pub SameRecipients : Tables → Tables → Type 0
SameRecipients t t' = (t'.routes ≡ t.routes) × (t'.users ≡ t.users) × (t'.dedupe ≡ t.dedupe)

abbrev SameQueue : Tables → Tables → Type 0
SameQueue t t' = SameRecipients t t' × (t'.jobs ≡ t.jobs)

SameRecipients-trans :
    (t t' t'' : Tables) → SameRecipients t t' → SameRecipients t' t'' → SameRecipients t t''
SameRecipients-trans t t' t'' (r, u, d) (r', u', d') = (r' ∙ r, u' ∙ u, d' ∙ d)

add_telegram_group-SameQueue :
    (chat_id : ℤ) (title : Text) (db : Db)
    → SameQueue db.tables (add_telegram_group chat_id title db).1.tables
unfolding add_telegram_group
add_telegram_group-SameQueue chat_id title db =
    ((ground arith, ground arith, ground arith), ground arith)

refusal_not_200 : (status : ℕ) → status ≡ 200 → IsRefusal status → ⊥
refusal_not_200 status h refused = omega arith

failure_not_200 : (status : ℕ) → status ≡ 200 → status ≡ 500 → ⊥
failure_not_200 status h failed = omega arith

module _ {W : Type 0} (peers : Peers W) (max_retry : ℕ) where
  after_register-SameQueue :
      (r : Result (Unit {0})) (s : ServerState W)
      → SameQueue s.store.tables (after_register peers r s).store.tables
  after_register-SameQueue (ok _) s = ((refl, refl, refl), refl)
  after_register-SameQueue (err e) s = ((refl, refl, refl), refl)

  register-SameQueue :
      (chat : Option TelegramChat) (s : ServerState W)
      → SameQueue s.store.tables (register peers chat s).store.tables
  unfolding register
  register-SameQueue none s = ((refl, refl, refl), refl)
  register-SameQueue (some chat) s =
      let add = add_telegram_group chat.id (group_title chat) in
      let (r, s') = call peers add s in
      let db : Db = record s.store { now = peers.database_clock s.world } in
      let (recipients, jobs) = add_telegram_group-SameQueue chat.id (group_title chat) db in
      let (recipients', jobs') = after_register-SameQueue r s' in
      (
        SameRecipients-trans s.store.tables s'.store.tables (after_register peers r s').store.tables
            recipients recipients',
        jobs' ∙ jobs,
      )

  after_enqueue-jobs :
      (r : Result ℕ) (s : ServerState W)
      → (after_enqueue peers r s).1.store.tables.jobs ≡ s.store.tables.jobs
  after_enqueue-jobs (ok n) s = refl
  after_enqueue-jobs (err e) s = refl

  -- An update that was enqueued before adds no job.
  accept_update-again :
      (upd : TelegramUpdate) (db : Db) (n : ℕ) (s : ServerState W)
      → (enqueue_telegram_update upd max_retry db).0 ≡ ok n
      → SameRecipients (enqueue_telegram_update upd max_retry db).1.tables s.store.tables
      → (accept_update peers max_retry upd s).1.store.tables.jobs ≡ s.store.tables.jobs
  unfolding accept_update
  accept_update-again upd db n s h same =
      let counted : ServerState W = record s {
        metrics = record s.metrics { telegram_updates = suc s.metrics.telegram_updates };
      } in
      let s1 = register peers (chat_for_auto_registration upd) counted in
      let db1 : Db = record s1.store { now = peers.database_clock s1.world } in
      let (r, s2) = call peers (enqueue_telegram_update upd max_retry) s1 in
      let (recipients, jobs) = register-SameQueue (chat_for_auto_registration upd) counted in
      let (routes, users, dedupe) =
        SameRecipients-trans (enqueue_telegram_update upd max_retry db).1.tables s.store.tables
          s1.store.tables same recipients in
      let again =
        enqueue_telegram_update_idempotent upd max_retry max_retry db db1 n h routes users dedupe in
      after_enqueue-jobs r s2 ∙ ap (λ t. t.jobs) again.0 ∙ jobs

  -- Once a webhook was answered 200, the same request, delivered again at any later time, adds no job,
  -- whatever has become of the jobs in between, as long as the routes, the users and the dedupe
  -- records are as the first call left them.
  pub handle_telegram_webhook_again :
      (secret : Text) (request : Request TelegramUpdate) (s s' : ServerState W)
      → let first = handle_telegram_webhook peers secret max_retry request s in
        first.0 ≡ 200
        → SameRecipients first.1.store.tables s'.store.tables
        → (handle_telegram_webhook peers secret max_retry request s').1.store.tables.jobs
          ≡ s'.store.tables.jobs
  unfolding handle_telegram_webhook
  handle_telegram_webhook_again secret request s s' h same =
      elim (handle_telegram_webhook_lem peers max_retry secret request s) [
        | inl (refused, _) ↦ elim (refusal_not_200 _ h refused) [ ]
        | inr (upd, authentic, inr (failed, _)) ↦ elim (failure_not_200 _ h failed) [ ]
        | inr (upd, authentic, inl (_, (db, n, done, left))) ↦
            subst
              (λ g. (after_guard peers max_retry g s').1.store.tables.jobs ≡ s'.store.tables.jobs)
              (sym (guarded-authentic secret request upd authentic))
              (accept_update-again upd db n s' done
                (subst (λ d. SameRecipients d.tables s'.store.tables) left same))
      ]
