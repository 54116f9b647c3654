-- ===== src/Storage/Enqueue/Failure.antt =====
-- EnqueueTelegramUpdate of internal/storage/store.go where it returns an error.
use maxbridge.Prelude.{ℕ, ◌≡◌, refl, Option, none, some}
use maxbridge.Domain.{TelegramUpdate, TelegramMessage}
use maxbridge.Storage.Database.{Db, DbError, err, transaction_atomic}
use maxbridge.Storage.Enqueue.{enqueue_telegram_update, enqueue_update, enqueue_message}

enqueue_update_atomic :
    (message : Option TelegramMessage) (max_attempts : ℕ) (db : Db) (e : DbError)
    → (enqueue_update message max_attempts db).0 ≡ err e
    → (enqueue_update message max_attempts db).1.tables ≡ db.tables
unfolding enqueue_update enqueue_message
enqueue_update_atomic none max_attempts db e h = refl
enqueue_update_atomic (some msg) max_attempts db e h = transaction_atomic _ db h

-- An EnqueueTelegramUpdate that returns an error, at whichever statement, has changed no table: no
-- recipient has a job, and no dedupe record stands in the way of the next try.
pub enqueue_telegram_update_atomic :
    (upd : TelegramUpdate) (max_attempts : ℕ) (db : Db) (e : DbError)
    → (enqueue_telegram_update upd max_attempts db).0 ≡ err e
    → (enqueue_telegram_update upd max_attempts db).1.tables ≡ db.tables
unfolding enqueue_telegram_update
enqueue_telegram_update_atomic upd max_attempts db e h =
    enqueue_update_atomic upd.message max_attempts db e h
