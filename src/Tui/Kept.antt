-- ===== src/Tui/Kept.antt =====
-- internal/tui/service.go: the operations that keep every active user, every enabled group, and every
-- route, invite and job.
pub mod Actions
pub mod Loads
pub mod Removal
use maxbridge.Prelude.{
  ℕ, ◌≡◌, refl, ◌⊎◌, inl, inr, Bool, true, false, ◌||◌, Option, none, some, List, [], ◌∷◌, arith,
  Bool-cases, Either-cases, Option-cases, ℤ, if◌then◌else◌,
}
use maxbridge.Text.{Text, utf8, is_empty, trim_space}
use maxbridge.Storage.Tables.{Time}
use maxbridge.Storage.Database.{Db, Exec, Result, ok, err, next_fault}
use maxbridge.Storage.Listings.{Value, Row, int, lookup, list_telegram_groups}
use maxbridge.Storage.Present.{
  Subject, IsPresent, KeepsAll, set_user_blocked-KeepsAll, update_max_user_name-KeepsAll,
  update_group_readiness-KeepsAll, update_route_state-KeepsAll, retry_job_now-KeepsAll,
  add_telegram_group-KeepsAll, create_invite-KeepsAll, create_route-KeepsAll,
}
use maxbridge.TelegramApi.{ProbeResult, probe_group}
use maxbridge.InviteService.{CreateInviteInput, RandomBytes, service_create_invite}
use maxbridge.Tui.Service.{
  Outer, AdminState, Reply, Operation, answer, call, calling, normalize_filter_mode, group_add,
  group_probe, group_probe_all, probe_row, probe_rows, store_probe, probe_listed, invite_create,
}
use maxbridge.Tui.Service.Routes.{route_add, route_pause, route_resume, queue_retry}
use maxbridge.Tui.Service.Users.{user_block, user_unblock, user_test, user_rename}

module _ {W : Type 0} (outer : Outer W) where
  -- What is there before an operation is there after it.
  abbrev pub Spares : {A : Type 0} → (AdminState W → A × AdminState W) → Type 0
  Spares op =
      (subject : Subject) (s : AdminState W)
      → IsPresent subject s.store.tables
      → IsPresent subject (op s).1.store.tables

  pub answer-Spares : (reply : Reply) → Spares (answer outer reply)
  answer-Spares reply subject s h = h

  pub if-Spares :
      (b : Bool) (x y : Operation outer) → Spares x → Spares y → Spares (if b then x else y)
  if-Spares true x y hx hy = hx
  if-Spares false x y hx hy = hy

  pub group_add-Spares : (id : ℤ) (title : Text) → Spares (group_add outer id title)
  unfolding group_add
  group_add-Spares id title subject s h = elim (Bool-cases (is_empty (trim_space title))) [
    | inl missing ↦ rw missing h
    | inr given ↦ rw given ((add_telegram_group-KeepsAll id (trim_space title) subject).at _ h)
  ]

  store_probe-Spares :
      (id : ℤ) (e : Option Text) (res : ProbeResult) (subject : Subject) (s : AdminState W)
      → IsPresent subject s.store.tables
      → IsPresent subject (store_probe outer id e res s).store.tables
  store_probe-Spares id (some e) res subject s h =
      (update_group_readiness-KeepsAll id _ _ subject).at _ h
  store_probe-Spares id none res subject s h =
      (update_group_readiness-KeepsAll id _ _ subject).at _ h

  pub group_probe-Spares : (id : ℤ) → Spares (group_probe outer id)
  unfolding group_probe
  group_probe-Spares id subject s h =
      let (r, w) = probe_group outer.telegram id s.world in
      store_probe-Spares id r.0 r.1 subject (record s { world = w }) h

  pub route_pause-Spares : (id : ℤ) → Spares (route_pause outer id)
  unfolding route_pause
  route_pause-Spares id subject s h = (update_route_state-KeepsAll id false subject).at _ h

  pub route_resume-Spares : (id : ℤ) → Spares (route_resume outer id)
  unfolding route_resume
  route_resume-Spares id subject s h = (update_route_state-KeepsAll id true subject).at _ h

  pub queue_retry-Spares : (id : ℤ) → Spares (queue_retry outer id)
  unfolding queue_retry
  queue_retry-Spares id subject s h = (retry_job_now-KeepsAll id subject).at _ h

  pub user_block-Spares : (id : ℤ) → Spares (user_block outer id)
  unfolding user_block
  user_block-Spares id subject s h = (set_user_blocked-KeepsAll id true subject).at _ h

  pub user_unblock-Spares : (id : ℤ) → Spares (user_unblock outer id)
  unfolding user_unblock
  user_unblock-Spares id subject s h = (set_user_blocked-KeepsAll id false subject).at _ h

  pub user_test-Spares : (id : ℤ) → Spares (user_test outer id)
  unfolding user_test
  user_test-Spares id subject s h = h

  pub user_rename-Spares : (id : ℤ) (name : Text) → Spares (user_rename outer id name)
  unfolding user_rename
  user_rename-Spares id name subject s h = elim (Bool-cases (is_empty (trim_space name))) [
    | inl missing ↦ rw missing h
    | inr given ↦ rw given ((update_max_user_name-KeepsAll id (trim_space name) subject).at _ h)
  ]

  pub route_add-Spares :
      (chat user : ℤ) (mode : Text) (ignore_bots : Bool)
      → Spares (route_add outer chat user mode ignore_bots)
  unfolding route_add
  route_add-Spares chat user mode ignore_bots subject s h =
      elim (Either-cases (normalize_filter_mode mode)) [
        | inl (e, bad) ↦ rw bad h
        | inr (m, good) ↦ rw good ((create_route-KeepsAll chat user m ignore_bots subject).at _ h)
      ]

  probe_row-Spares :
      (v : Option Value) (n : ℕ) (subject : Subject) (s : AdminState W)
      → IsPresent subject s.store.tables
      → IsPresent subject (probe_row outer v (n, s)).1.store.tables
  probe_row-Spares (some (int id)) n subject s h =
      let (r, w) = probe_group outer.telegram id s.world in
      store_probe-Spares id r.0 r.1 subject (record s { world = w }) h
  probe_row-Spares none n subject s h = h
  probe_row-Spares (some (Value.text x)) n subject s h = h
  probe_row-Spares (some (Value.bool x)) n subject s h = h
  probe_row-Spares (some (Value.time x)) n subject s h = h
  probe_row-Spares (some (Value.time_pointer x)) n subject s h = h

  probe_rows-Spares :
      (rows : List Row) (n : ℕ) (subject : Subject) (s : AdminState W)
      → IsPresent subject s.store.tables
      → IsPresent subject (probe_rows outer rows (n, s)).1.store.tables
  unfolding probe_rows
  probe_rows-Spares [] n subject s h = h
  probe_rows-Spares (row ∷ rows) n subject s h =
      let acc = probe_row outer (lookup (utf8 "chat_id") row) (n, s) in
      probe_rows-Spares rows acc.0 subject acc.1
        (probe_row-Spares (lookup (utf8 "chat_id") row) n subject s h)

  listing-keeps :
      (subject : Subject) (db : Db)
      → IsPresent subject db.tables
      → IsPresent subject (list_telegram_groups db).1.tables
  unfolding list_telegram_groups
  listing-keeps subject db h = elim (Option-cases (next_fault db.faults)) [
    | inl served ↦ rw served h
    | inr (e, lost) ↦ rw lost h
  ]

  pub group_probe_all-Spares : Spares (group_probe_all outer)
  unfolding group_probe_all
  group_probe_all-Spares subject s h =
      let (r, s') = call outer list_telegram_groups s in
      listed r subject s' (listing-keeps subject _ h)
    where
      listed :
          (r : Result (List Row)) (subject : Subject) (s' : AdminState W)
          → IsPresent subject s'.store.tables
          → IsPresent subject (probe_listed outer r s').1.store.tables
      listed (err e) subject s' h' = h'
      listed (ok rows) subject s' h' = probe_rows-Spares rows 0 subject s' h'

  service_create_invite-keeps :
      (now : Time) (random : Text ⊎ RandomBytes) (input : CreateInviteInput) (subject : Subject)
      (db : Db)
      → IsPresent subject db.tables
      → IsPresent subject
          (service_create_invite outer.unicode_upper outer.sha256 outer.pepper now random input
            db).1.tables
  unfolding service_create_invite
  service_create_invite-keeps now random input subject db h =
      elim (Bool-cases (is_empty input.scope_type || is_empty input.scope_id)) [
        | inl missing ↦ rw missing h
        | inr given ↦ elim (Either-cases random) [
          | inl (e, failed) ↦ rw (given, failed) h
          | inr (raw, got) ↦ rw (given, got) ((create_invite-KeepsAll _ _ _ _ _ _ subject).at db h)
        ]
      ]

  pub invite_create-Spares :
      (scope_type scope_id ttl_raw name : Text)
      → Spares (invite_create outer scope_type scope_id ttl_raw name)
  unfolding invite_create
  invite_create-Spares scope_type scope_id ttl_raw name subject s h =
      elim (Option-cases (outer.parse_duration (trim_space ttl_raw))) [
        | inl bad ↦ rw bad h
        | inr (ttl, good) ↦ elim (Bool-cases (is_empty (trim_space name))) [
          | inl missing ↦ rw (good, missing) h
          | inr given ↦
              rw (good, given)
                (service_create_invite-keeps _ (outer.random s.world).0 _ subject _ h)
        ]
      ]
