-- ===== src/Tests/Enqueue.antt =====
-- The theorems on EnqueueTelegramUpdate, and on the keys of messages, at one message of the chat.
use maxbridge.Prelude.{
  ◌*◌, ℕ, ◌+◌, ◌≡◌, ◌↔◌, refl, ◌⊎◌, true, some, [], Memᴰ, arith, length, any, pos, negsuc, ◌==ℤ◌,
}
use maxbridge.Storage.Tables.{second, DeliveryJob}
use maxbridge.Storage.Queue.{claim_jobs, claim_job}
use maxbridge.Storage.Queue.Recovery.{not_locked}
use maxbridge.Storage.Enqueue.{
  new_job, candidate, enqueue_telegram_update, insert_dedupe, insert_job, route_passes_filter,
  is_open_route, has_key,
}
use maxbridge.Storage.Lifecycle.{Reachable, start, after, enqueued, claimed}
use maxbridge.Storage.Lifecycle.Leases.{IsLive, Reachable-IsLive}
use maxbridge.Text.{◌==ᵗ◌, utf8}
use maxbridge.Storage.Database.{transaction, Db, ok}
use maxbridge.Domain.{TelegramMessage, TelegramUpdate}
use maxbridge.Domain.Rules.{dedupe_key, dedupe_key-injective}
use maxbridge.Routing.{passes_route_filter}
use maxbridge.Storage.Enqueue.Filters.{route_passes_filter_lem, Passes}
use maxbridge.Storage.Enqueue.Idempotence.{enqueue_telegram_update_idempotent}
use maxbridge.Storage.Enqueue.Recipients.{enqueue_telegram_update-IsDue, IsDue}
use maxbridge.Storage.Enqueue.Complete.{enqueue_telegram_update_complete, HasJobFor}
use maxbridge.Storage.Accounts.{remove_user, set_user_blocked}
use maxbridge.Storage.Accounts.Revocation.{revoked-NoRouteTo, NoRouteTo}
use maxbridge.Tests.Data.{message, update_of, database, an_hour_later, route, chat_id}

abbrev before : Db
before = database [] []

abbrev upd : TelegramUpdate
upd = update_of message

one_job : (enqueue_telegram_update upd 8 before).0 ≡ ok 1
unfolding enqueue_telegram_update transaction ◌==ℤ◌ route_passes_filter ◌==ᵗ◌ insert_dedupe
    insert_job
one_job = refl

enqueue_telegram_update_idempotent_example :
    let db' = an_hour_later (enqueue_telegram_update upd 8 before).1 in
    ((enqueue_telegram_update upd 3 db').1.tables ≡ db'.tables)
    × ((m : ℕ) → (enqueue_telegram_update upd 3 db').0 ≡ ok m → m ≡ 0)
    × (db'.faults ≡ [] → (enqueue_telegram_update upd 3 db').0 ≡ ok 0)
enqueue_telegram_update_idempotent_example =
    enqueue_telegram_update_idempotent upd 8 3 before
      (an_hour_later (enqueue_telegram_update upd 8 before).1) 1 one_job refl refl refl

enqueue_telegram_update-IsDue_example :
    let (r, db') = enqueue_telegram_update upd 8 before in
    ((j : DeliveryJob)
      → Memᴰ j db'.tables.jobs
      → Memᴰ j before.tables.jobs
        ⊎ ((msg : TelegramMessage) × (upd.message ≡ some msg) × IsDue msg before.tables j))
    × ((n : ℕ) → r ≡ ok n → length db'.tables.jobs ≡ length before.tables.jobs + n)
enqueue_telegram_update-IsDue_example = enqueue_telegram_update-IsDue upd 8 before

open_to_seven : is_open_route chat_id before.tables.users (route (pos 1) (pos 7)) ≡ true
unfolding is_open_route ◌==ℤ◌
open_to_seven = refl

passes_all : route_passes_filter (utf8 "all") true (some message) ≡ true
unfolding route_passes_filter ◌==ᵗ◌
passes_all = refl

enqueue_telegram_update_complete_example :
    (any (has_key (dedupe_key (pos 1) chat_id (pos 10))) before.tables.dedupe ≡ true)
    ⊎ HasJobFor
        (dedupe_key (pos 1) chat_id (pos 10))
        (enqueue_telegram_update upd 8 before).1.tables
enqueue_telegram_update_complete_example =
    enqueue_telegram_update_complete upd 8 before message 1 (route (pos 1) (pos 7)) one_job refl
      (Memᴰ.head refl) open_to_seven passes_all

route_passes_filter_example :
    (route_passes_filter (utf8 "mentions_only") true (some message)
      ≡ passes_route_filter (utf8 "mentions_only") true (some message))
    × ((route_passes_filter (utf8 "mentions_only") true (some message) ≡ true)
        ↔ Passes (utf8 "mentions_only") true message)
route_passes_filter_example = route_passes_filter_lem (utf8 "mentions_only") true message

dedupe_key-injective_example : (pos 1 ≡ pos 1) × (negsuc 99 ≡ negsuc 99) × (pos 10 ≡ pos 10)
dedupe_key-injective_example =
    dedupe_key-injective (pos 1) (negsuc 99) (pos 10) (pos 1) (negsuc 99) (pos 10) (omega arith)
      (omega arith) (omega arith) (omega arith) (omega arith) (omega arith) refl

revoked-NoRouteTo_example :
    ((remove_user (pos 7) before).0 ≡ ok tt
      → NoRouteTo (pos 7) (remove_user (pos 7) before).1.tables)
    × ((set_user_blocked (pos 7) true before).0 ≡ ok tt
        → NoRouteTo (pos 7) (set_user_blocked (pos 7) true before).1.tables)
revoked-NoRouteTo_example = revoked-NoRouteTo (pos 7) before

-- One job, enqueued and then claimed.
abbrev after_claim : Db
after_claim = (claim_jobs 5 (90 * second) not_locked (enqueue_telegram_update upd 8 before).1).1

after_claim-Reachable : Reachable after_claim
after_claim-Reachable =
    after (enqueue_telegram_update upd 8 before).1 after_claim
      (after before (enqueue_telegram_update upd 8 before).1 (start before refl)
        (enqueued upd 8 before))
      (claimed 5 (90 * second) not_locked (enqueue_telegram_update upd 8 before).1)

abbrev claimed_job : DeliveryJob
claimed_job =
    claim_job before.now (90 * second)
      (new_job (pos 5) before.now message (candidate (route (pos 1) (pos 7))) 8)

claimed_job-listed : Memᴰ claimed_job after_claim.tables.jobs
unfolding claim_jobs enqueue_telegram_update transaction ◌==ℤ◌ route_passes_filter ◌==ᵗ◌
    insert_dedupe insert_job
claimed_job-listed = Memᴰ.head refl

Reachable-IsLive_example : IsLive claimed_job
Reachable-IsLive_example =
    Reachable-IsLive after_claim claimed_job after_claim-Reachable claimed_job-listed
