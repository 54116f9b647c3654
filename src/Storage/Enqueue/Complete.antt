-- ===== src/Storage/Enqueue/Complete.antt =====
-- A successful EnqueueTelegramUpdate of internal/storage/store.go passes over no open route.
use maxbridge.Prelude.{
  All-Memᴰ, filter-Memᴰ, ◌∙◌, ap, some, refl, ◌+◌, any-append, arith, [], ◌∷◌, pos, inr, ◌++◌, sym,
  ◌⊎◌, subst, true, inl, ◌≡◌, any, Memᴰ, List, ℕ,
}
use maxbridge.Storage.Enqueue.Known.{enqueue_candidates_known, enqueue_body-ok, enqueue_body}
use maxbridge.Storage.Database.{served, transaction-ok, Result, >>=-ok, ok, Db}
use maxbridge.Storage.Enqueue.{
  enqueue_update, candidate, route_passes_filter, is_open_route, RouteRow, new_dedupe,
  select_candidates, enqueue_telegram_update, enqueue_message, new_job, candidate_key, insert_job,
  has_key, enqueue_candidates, insert_dedupe, RouteCandidate, enqueue_candidate,
}
use maxbridge.Text.{==ᵗ_iff, Text}
use maxbridge.Storage.Tables.{RouteRow, DeliveryJob, Tables}
use mathlib.Core.List.Memᴰ.{append_left, append_right, map as Memᴰ-map}
use maxbridge.Domain.Rules.{dedupe_key}
use maxbridge.Storage.Enqueue.Effects.{enqueue_candidate-effect}
use maxbridge.Storage.Database.Keeps.{Keeps}
use maxbridge.Domain.{TelegramMessage, TelegramUpdate}

-- A job that carries the dedupe key.
abbrev pub HasJobFor : Text → Tables → Type 0
HasJobFor key t =
    (j : DeliveryJob) × Memᴰ j t.jobs
    × (dedupe_key j.route_id j.telegram_chat_id j.telegram_message_id ≡ key)

module _ (msg : TelegramMessage) (max_attempts : ℕ) where
  enqueue_candidate-HasJobFor :
      (key : Text) (c : RouteCandidate)
      → Keeps (HasJobFor key) (enqueue_candidate msg max_attempts c)
  enqueue_candidate-HasJobFor key c = record {
    at = λ db h. elim (enqueue_candidate-effect msg max_attempts c db) [
      | inl (same, _) ↦ (h.0, subst (Memᴰ h.0) (sym same) h.1, h.2)
      | inr (grown, _, _) ↦ (h.0, subst (Memᴰ h.0) (sym grown) (append_left _ h.1), h.2)
    ];
  }

  -- A dedupe record that a round adds is that of its own candidate, whose job it adds as well.
  enqueue_candidate-key :
      (key : Text) (c : RouteCandidate) (db : Db) {n : ℕ}
      → (enqueue_candidate msg max_attempts c db).0 ≡ ok n
      → any (has_key key) (enqueue_candidate msg max_attempts c db).1.tables.dedupe ≡ true
      → (any (has_key key) db.tables.dedupe ≡ true)
        ⊎ (((enqueue_candidate msg max_attempts c db).1.tables.jobs
              ≡ db.tables.jobs ++ new_job (pos db.sequences.jobs) db.now msg c max_attempts ∷ [])
            × (candidate_key msg c ≡ key))
  unfolding enqueue_candidate insert_dedupe insert_job
  enqueue_candidate-key key c db h k = ground (
    arith,
    any-append (has_key key) db.tables.dedupe (
        new_dedupe (pos db.sequences.dedupe) db.now (candidate_key msg c) c.route_id msg.chat.id
          msg.message_id
        ∷ []),
    ==ᵗ_iff (candidate_key msg c) key,
  )

  -- A key of the first tables, or one that a job carries.
  abbrev Handled : Text → Tables → Tables → Type 0
  Handled key first t = (any (has_key key) first.dedupe ≡ true) ⊎ HasJobFor key t

  abbrev KeysHandled : Text → Tables → Tables → Type 0
  KeysHandled key first t = any (has_key key) t.dedupe ≡ true → Handled key first t

  enqueue_candidate-KeysHandled :
      (key : Text) (first : Tables) (c : RouteCandidate) (db : Db) {n : ℕ}
      → KeysHandled key first db.tables
      → (enqueue_candidate msg max_attempts c db).0 ≡ ok n
      → KeysHandled key first (enqueue_candidate msg max_attempts c db).1.tables
  enqueue_candidate-KeysHandled key first c db handled h k =
      elim (enqueue_candidate-key key c db h k) [
        | inl before ↦ elim (handled before) [
          | inl old ↦ inl old
          | inr job ↦ inr ((enqueue_candidate-HasJobFor key c).at db job)
        ]
        | inr (grown, same) ↦
            let job = new_job (pos db.sequences.jobs) db.now msg c max_attempts in
            inr (
              job,
              subst (Memᴰ job) (sym grown) (append_right db.tables.jobs (Memᴰ.head refl)),
              same,
            )
      ]

  enqueue_candidates-KeysHandled :
      (key : Text) (first : Tables) (cs : List RouteCandidate) (enqueued : ℕ) (db : Db) {n : ℕ}
      → KeysHandled key first db.tables
      → (enqueue_candidates msg max_attempts cs enqueued db).0 ≡ ok n
      → KeysHandled key first (enqueue_candidates msg max_attempts cs enqueued db).1.tables
  unfolding enqueue_candidates
  enqueue_candidates-KeysHandled key first [] enqueued db handled h = handled
  enqueue_candidates-KeysHandled key first (c ∷ cs) enqueued db handled h =
      let rest = λ (a : ℕ). enqueue_candidates msg max_attempts cs (enqueued + a) in
      let (a, one, e) = >>=-ok (enqueue_candidate msg max_attempts c) rest db h in
      subst (λ (r : Result ℕ × Db). KeysHandled key first r.1.tables) (sym e)
        (enqueue_candidates-KeysHandled key first cs (enqueued + a)
          (enqueue_candidate msg max_attempts c db).1
          (enqueue_candidate-KeysHandled key first c db handled one) (ap (λ r. r.0) (sym e) ∙ h))

  -- The candidates of open routes.
  candidate-select_candidates :
      (r : RouteRow) (t : Tables)
      → Memᴰ r t.routes
      → is_open_route msg.chat.id t.users r ≡ true
      → Memᴰ (candidate r) (select_candidates msg.chat.id t)
  unfolding select_candidates
  candidate-select_candidates r t m open_route =
      Memᴰ-map candidate (filter-Memᴰ (is_open_route msg.chat.id t.users) t.routes m open_route)

  enqueue_message-Handled :
      (db : Db) (n : ℕ) (r : RouteRow)
      → (enqueue_message msg max_attempts db).0 ≡ ok n
      → Memᴰ r db.tables.routes
      → is_open_route msg.chat.id db.tables.users r ≡ true
      → route_passes_filter r.filter_mode r.ignore_bot_messages (some msg) ≡ true
      → Handled
          (dedupe_key r.id msg.chat.id msg.message_id)
          db.tables
          (enqueue_message msg max_attempts db).1.tables
  unfolding enqueue_message
  enqueue_message-Handled db n r h m open_route passes =
      let body = enqueue_body msg max_attempts in
      let (done, tables) = transaction-ok body db h in
      let e = enqueue_body-ok msg max_attempts (served db) done in
      let cs = select_candidates msg.chat.id db.tables in
      let db' = served (served db) in
      let finished = ap (λ r. r.0) (sym e) ∙ done in
      let known = enqueue_candidates_known msg max_attempts cs 0 db' finished in
      let here = All-Memᴰ _ cs known (candidate-select_candidates r db.tables m open_route) in
      let key = dedupe_key r.id msg.chat.id msg.message_id in
      let recorded : any (has_key key)
            (enqueue_candidates msg max_attempts cs 0 db').1.tables.dedupe
          ≡ true =
        ground (arith, here, passes) in
      let handled =
        enqueue_candidates-KeysHandled key db.tables cs 0 db' (λ k. inl k) finished recorded in
      subst (Handled key db.tables) (sym (tables ∙ ap (λ (r : Result ℕ × Db). r.1.tables) e))
        handled

-- After a successful EnqueueTelegramUpdate, each enabled route of the message's chat to an active and
-- unblocked user whose filter lets the message through had a dedupe record for the message before,
-- or has a delivery job with its dedupe key now: no recipient is lost.
pub enqueue_telegram_update_complete :
    (upd : TelegramUpdate) (max_attempts : ℕ) (db : Db) (msg : TelegramMessage) (n : ℕ)
    (r : RouteRow)
    → (enqueue_telegram_update upd max_attempts db).0 ≡ ok n
    → upd.message ≡ some msg
    → Memᴰ r db.tables.routes
    → is_open_route msg.chat.id db.tables.users r ≡ true
    → route_passes_filter r.filter_mode r.ignore_bot_messages (some msg) ≡ true
    → (any (has_key (dedupe_key r.id msg.chat.id msg.message_id)) db.tables.dedupe ≡ true)
      ⊎ HasJobFor
          (dedupe_key r.id msg.chat.id msg.message_id)
          (enqueue_telegram_update upd max_attempts db).1.tables
unfolding enqueue_telegram_update
enqueue_telegram_update_complete upd max_attempts db msg n r h here m open_route passes =
    let e = ap (λ x. enqueue_update x max_attempts db) here in
    subst
      (λ (s : Result ℕ × Db).
        (any (has_key (dedupe_key r.id msg.chat.id msg.message_id)) db.tables.dedupe ≡ true)
        ⊎ HasJobFor (dedupe_key r.id msg.chat.id msg.message_id) s.1.tables)
      (sym e)
      (enqueue_message-Handled msg max_attempts db n r (ap (λ s. s.0) (sym e) ∙ h) m open_route
        passes)
