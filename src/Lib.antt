-- ===== src/Lib.antt =====
-- maxbridge: a bridge that forwards the messages of Telegram groups to users of the MAX messenger.
--
-- A webhook of Telegram brings an update (internal/httpapi). The store (internal/storage) selects
-- the routes of the message's chat, and enqueues one delivery job for each in a transaction, behind
-- a dedupe record. Workers (internal/delivery) claim jobs under a lease, render the message, fetch
-- its media, send it through the MAX client (internal/max), and mark the job completed, in retry or
-- dead. Users are linked by invite codes (internal/invites). The parts share the types of
-- internal/domain and meet only in the database.
--
-- Files and code:
-- - Prelude: shared names, tests on numbers, lists, options; Go's signed integers as `ℤ`.
-- - Text: strings as bytes, with the functions of `strings`, `strconv` and `path/filepath` that the
--   code calls (Text/Decimal, Text/Ascii, Text/Fields); Text/Key: why printed numbers joined by
--   colons can be told apart.
-- - Http: net/http, io and net/url as the clients use them.
-- - Domain: internal/domain/models.go; Domain/Rules: internal/domain/rules.go.
-- - Routing: internal/routing/filter.go.
-- - Storage: internal/storage/store.go over the tables of migrations/. Storage/Tables holds the rows,
--   Storage/Database the pool: statements, transactions, errors. Storage/Queue, Storage/Retention,
--   Storage/Stats, Storage/Enqueue, Storage/Invites, Storage/Accounts and Storage/Routes hold the
--   methods of `Store`, each under its Go name in lower case (`ClaimJobs` is `claim_jobs`), and their
--   child modules the proofs. Storage/Listings has the List* methods and LogEvent, Storage/Present what a
--   table has. Storage/Lifecycle is the step relation of all that writes to the jobs.
-- - Storage/Migrate: internal/storage/migrate.go. What a file's SQL does to the schema is a parameter.
-- - InviteService: internal/invites/service.go. SHA-256 and the upper case of texts that are not
--   ASCII are parameters; random bytes are an argument.
-- - MaxApi: internal/max/client.go. MaxApi/Client has its requests, and its child modules what their
--   answers say.
-- - Delivery: internal/delivery. Backoff, Circuit, Render, Send and Worker follow backoff.go,
--   circuit.go and worker.go; Delivery/Outside is the record of what the worker calls. Delivery/Run is
--   the step relation of `Run`: the main loop, the goroutines and the channel between them.
--   Delivery/Clients puts the clients in, as cmd/worker/main.go does.
-- - HttpApi: internal/httpapi/server.go. HttpApi/Guards has what both webhooks check first,
--   HttpApi/Telegram and HttpApi/Max their handlers, HttpApi/Server the paths and the health checks.
-- - TelegramApi: internal/telegram/client.go: the probe, and in TelegramApi/Client the requests.
-- - Config: internal/app/config.go, and in Config/Secrets its two secrets.
-- - Tui: internal/tui. Rows, Menu, Model, Steps, Browse, Entry, Update and View follow model.go: the
--   formats of rows, the menus, the state, the handlers of keys and messages, and the screens.
--   Tui/Service and its child modules are service.go, with the action and the commands that the
--   interface runs on it in Tui/Service/Actions. Tui/Intact, Tui/Confirmed and
--   Tui/Kept hold the proofs.
-- - Tests: concrete states, and the theorems applied to them.
--
-- Bounds and choices. Recursion is structural throughout, so there is no fuel. Times are nanoseconds
-- as natural numbers, without the rounding to microseconds of the database. A statement is atomic,
-- reads the clock of the database, and either fails before it has an effect or succeeds: which ones
-- fail is a list of faults that the theorems leave open. A transaction that fails to commit has not
-- been applied. Sequences move also where a row is refused. `ORDER BY` leaves ties in the order of the
-- table, and RETURNING gives rows in the order of their selection. Rows that other transactions hold
-- (SKIP LOCKED) are a parameter of `claim_jobs`. Attempts, limits and retention periods are natural
-- numbers: they are taken not to be negative. The random jitter is an argument, a multiple of 2^-53.
-- The worker's clients, limiter and clocks are parameters, as functions of a state of the world. A
-- panic of an upload, which nothing in the worker recovers, ends the program: `crashed`, in the
-- worker's state. In `Run`, which leaves panics out, the jobs that ClaimJobs returns are any that are
-- not more than its limit, and the steps of the main loop and of the goroutines interleave in any
-- order, with any choice of a select among its cases that are ready. In the terminal
-- interface, a panic is `none`, a key is its name, replies of commands arrive in any order, and the
-- default format of times is a parameter.
--
-- The clients talk to a server that is a parameter: a request gets an answer or the text of an error.
--
-- Not modelled: JSON and multipart bodies, which are parameters of the clients (a payload in the
-- database is the message it encodes, `{}`, or undecodable), the network, logs, the latency
-- histogram, the schedules of the tickers, RenderSection (which nothing calls), the housekeeping
-- with the partitions it creates, and the programs under cmd/ but for the clients that they make.

pub mod Prelude
pub mod Text
pub mod Domain
pub mod Http
pub mod Routing
pub mod Storage
pub mod InviteService
pub mod MaxApi
pub mod Delivery
pub mod HttpApi
pub mod Config
pub mod Tui
pub mod TelegramApi
pub mod Tests
