-- ===== src/Storage/Present.antt =====
-- internal/storage/store.go: what is there, and which statements keep all of it.
use maxbridge.Prelude.{
  ◌≡◌, refl, ◌∙◌, Bool, true, ◌&&◌, List, [], ◌∷◌, ◌++◌, arith, any, update, any-append, Bool-cases,
  inl, inr, ℤ, pos,
}
use maxbridge.Text.{Text, trim_space}
use maxbridge.Domain.{GroupReadiness}
use maxbridge.Storage.Tables.{Time, Tables, GroupRow, UserRow, RouteRow, Invite, Metadata}
use maxbridge.Storage.Database.{Db, Exec}
use maxbridge.Storage.Database.Keeps.{Keeps, Keeps-exec, Keeps-statement}
use maxbridge.Storage.Accounts.{
  null_if_empty, has_user_id, has_chat_id, has_route_id, update_users, update_groups, update_routes,
  add_telegram_group, update_group_readiness, set_user_blocked, update_max_user_name,
}
use maxbridge.Storage.Routes.{
  create_route, update_route_state, is_route_between, refers, new_route, is_filter_mode,
}
use maxbridge.Storage.Queue.{has_id, retry_job_now}
use maxbridge.Storage.Invites.{has_invite_id, has_hash, new_invite, create_invite}

pub data Subject : Type 0 where
  active_user enabled_group stored_route stored_invite stored_job : ℤ → Subject

abbrev pub is_active_user : ℤ → UserRow → Bool
is_active_user id u = has_user_id id u && u.is_active

abbrev pub is_enabled_group : ℤ → GroupRow → Bool
is_enabled_group id g = has_chat_id id g && g.is_enabled

unfoldable pub is_present : Subject → Tables → Bool
is_present (active_user id) t = any (is_active_user id) t.users
is_present (enabled_group id) t = any (is_enabled_group id) t.groups
is_present (stored_route id) t = any (has_route_id id) t.routes
is_present (stored_invite id) t = any (has_invite_id id) t.invites
is_present (stored_job id) t = any (has_id id) t.jobs

abbrev pub IsPresent : Subject → Tables → Type 0
IsPresent subject t = is_present subject t ≡ true

-- Whatever is there stays there, whether the statement fails or not.
abbrev pub KeepsAll {ℓ} : {A : Type ℓ} → Exec A → Type 0
KeepsAll action = (subject : Subject) → Keeps (IsPresent subject) action

any-update {ℓ} :
    {A : Type ℓ} (test hit : A → Bool) (change : A → A) (xs : List A)
    → ((x : A) → test (change x) ≡ test x)
    → any test (update hit change xs) ≡ any test xs
any-update test hit change [] same = refl
any-update test hit change (x ∷ xs) same = elim (Bool-cases (hit x)) [
  | inl found ↦ rw (found, same x, any-update test hit change xs same)
  | inr missed ↦ rw (missed, any-update test hit change xs same)
]

any-append-left {ℓ} :
    {A : Type ℓ} (test : A → Bool) (xs ys : List A)
    → any test xs ≡ true
    → any test (xs ++ ys) ≡ true
any-append-left test xs ys h = ground (arith, any-append test xs ys, h)

update_users-KeepsAll :
    (test : UserRow → Bool) (change : Time → UserRow → UserRow)
    → ((id : ℤ) (now : Time) (u : UserRow) → is_active_user id (change now u) ≡ is_active_user id u)
    → KeepsAll (update_users test change)
unfolding is_present
update_users-KeepsAll test change same subject = Keeps-exec (IsPresent subject) _ (keep subject)
  where
    keep :
        (subject : Subject) (now : Time) (t : Tables)
        → IsPresent subject t
        → IsPresent subject (record t { users = update test (change now) t.users })
    keep (active_user id) now t h =
        any-update (is_active_user id) test (change now) t.users (same id now) ∙ h
    keep (enabled_group id) now t h = h
    keep (stored_route id) now t h = h
    keep (stored_invite id) now t h = h
    keep (stored_job id) now t h = h

update_groups-KeepsAll :
    (test : GroupRow → Bool) (change : Time → GroupRow → GroupRow)
    → ((id : ℤ) (now : Time) (g : GroupRow)
        → is_enabled_group id (change now g) ≡ is_enabled_group id g)
    → KeepsAll (update_groups test change)
unfolding is_present
update_groups-KeepsAll test change same subject = Keeps-exec (IsPresent subject) _ (keep subject)
  where
    keep :
        (subject : Subject) (now : Time) (t : Tables)
        → IsPresent subject t
        → IsPresent subject (record t { groups = update test (change now) t.groups })
    keep (active_user id) now t h = h
    keep (enabled_group id) now t h =
        any-update (is_enabled_group id) test (change now) t.groups (same id now) ∙ h
    keep (stored_route id) now t h = h
    keep (stored_invite id) now t h = h
    keep (stored_job id) now t h = h

update_routes-KeepsAll :
    (test : RouteRow → Bool) (change : Time → RouteRow → RouteRow)
    → ((id : ℤ) (now : Time) (r : RouteRow) → has_route_id id (change now r) ≡ has_route_id id r)
    → KeepsAll (update_routes test change)
unfolding is_present
update_routes-KeepsAll test change same subject = Keeps-exec (IsPresent subject) _ (keep subject)
  where
    keep :
        (subject : Subject) (now : Time) (t : Tables)
        → IsPresent subject t
        → IsPresent subject (record t { routes = update test (change now) t.routes })
    keep (active_user id) now t h = h
    keep (enabled_group id) now t h = h
    keep (stored_route id) now t h =
        any-update (has_route_id id) test (change now) t.routes (same id now) ∙ h
    keep (stored_invite id) now t h = h
    keep (stored_job id) now t h = h

pub set_user_blocked-KeepsAll : (id : ℤ) (blocked : Bool) → KeepsAll (set_user_blocked id blocked)
unfolding set_user_blocked
set_user_blocked-KeepsAll id blocked =
    update_users-KeepsAll (has_user_id id)
      (λ now u. record u { is_blocked = blocked; updated_at = now }) λ i now u. refl

pub update_max_user_name-KeepsAll : (id : ℤ) (name : Text) → KeepsAll (update_max_user_name id name)
unfolding update_max_user_name
update_max_user_name-KeepsAll id name =
    update_users-KeepsAll (has_user_id id)
      (λ now u. record u { full_name = null_if_empty (trim_space name); updated_at = now })
      λ i now u. refl

pub update_group_readiness-KeepsAll :
    (id : ℤ) (readiness : GroupReadiness) (reason : Text)
    → KeepsAll (update_group_readiness id readiness reason)
unfolding update_group_readiness
update_group_readiness-KeepsAll id readiness reason =
    update_groups-KeepsAll (has_chat_id id)
      (λ now g. record g { readiness = readiness; readiness_reason = reason; updated_at = now })
      λ i now g. refl

pub update_route_state-KeepsAll :
    (id : ℤ) (enabled : Bool) → KeepsAll (update_route_state id enabled)
unfolding update_route_state
update_route_state-KeepsAll id enabled =
    update_routes-KeepsAll (has_route_id id)
      (λ now r. record r { enabled = enabled; updated_at = now }) λ i now r. refl

pub retry_job_now-KeepsAll : (id : ℤ) → KeepsAll (retry_job_now id)
unfolding retry_job_now is_present
retry_job_now-KeepsAll id (active_user i) = Keeps-exec _ _ λ now t h. h
retry_job_now-KeepsAll id (enabled_group i) = Keeps-exec _ _ λ now t h. h
retry_job_now-KeepsAll id (stored_route i) = Keeps-exec _ _ λ now t h. h
retry_job_now-KeepsAll id (stored_invite i) = Keeps-exec _ _ λ now t h. h
retry_job_now-KeepsAll id (stored_job i) =
    Keeps-exec _ _ λ now t h. any-update (has_id i) (has_id id) _ t.jobs (λ j. refl) ∙ h

pub add_telegram_group-KeepsAll : (id : ℤ) (title : Text) → KeepsAll (add_telegram_group id title)
unfolding add_telegram_group is_present
add_telegram_group-KeepsAll id title (active_user i) = Keeps-statement _ _ λ db h. h
add_telegram_group-KeepsAll id title (stored_route i) = Keeps-statement _ _ λ db h. h
add_telegram_group-KeepsAll id title (stored_invite i) = Keeps-statement _ _ λ db h. h
add_telegram_group-KeepsAll id title (stored_job i) = Keeps-statement _ _ λ db h. h
add_telegram_group-KeepsAll id title (enabled_group i) = Keeps-statement _ _ λ db h.
    elim (Bool-cases (any (has_chat_id id) db.tables.groups)) [
      | inl known ↦
          rw known
            (any-update (is_enabled_group i) (has_chat_id id) _ db.tables.groups (λ g. refl) ∙ h)
      | inr fresh ↦ rw fresh (any-append-left (is_enabled_group i) db.tables.groups _ h)
    ]

pub create_invite-KeepsAll :
    (scope_type scope_id hash : Text) (expires_at : Time) (single_use : Bool) (metadata : Metadata)
    → KeepsAll (create_invite scope_type scope_id hash expires_at single_use metadata)
unfolding create_invite is_present
create_invite-KeepsAll scope_type scope_id hash expires_at single_use metadata subject =
    Keeps-statement _ _ λ db h. elim (Bool-cases (any (has_hash hash) db.tables.invites)) [
      | inl known ↦ rw known h
      | inr fresh ↦ rw fresh (
          keep subject db
            (new_invite (pos db.sequences.invites) db.now scope_type scope_id hash expires_at
              single_use metadata)
            h)
    ]
  where
    keep :
        (subject : Subject) (db : Db) (row : Invite)
        → IsPresent subject db.tables
        → IsPresent subject (record db.tables { invites = db.tables.invites ++ row ∷ [] })
    keep (active_user i) db row h = h
    keep (enabled_group i) db row h = h
    keep (stored_route i) db row h = h
    keep (stored_job i) db row h = h
    keep (stored_invite i) db row h =
        any-append-left (has_invite_id i) db.tables.invites (row ∷ []) h

pub create_route-KeepsAll :
    (chat_id user_id : ℤ) (mode : Text) (ignore_bots : Bool)
    → KeepsAll (create_route chat_id user_id mode ignore_bots)
unfolding create_route is_present
create_route-KeepsAll chat_id user_id mode ignore_bots subject = Keeps-statement _ _ λ db h.
    elim (Bool-cases (is_filter_mode mode)) [
      | inr bad ↦ rw bad h
      | inl good ↦ elim (Bool-cases (any (is_route_between chat_id user_id) db.tables.routes)) [
        | inl known ↦ rw (good, known) h
        | inr fresh ↦ elim (Bool-cases (refers chat_id user_id db.tables)) [
          | inr dangling ↦ rw (good, fresh, dangling) h
          | inl sound ↦
              rw (good, fresh, sound)
                (keep subject db
                  (new_route (pos db.sequences.routes) db.now chat_id user_id mode ignore_bots) h)
        ]
      ]
    ]
  where
    keep :
        (subject : Subject) (db : Db) (row : RouteRow)
        → IsPresent subject db.tables
        → IsPresent subject (record db.tables { routes = db.tables.routes ++ row ∷ [] })
    keep (active_user i) db row h = h
    keep (enabled_group i) db row h = h
    keep (stored_invite i) db row h = h
    keep (stored_job i) db row h = h
    keep (stored_route i) db row h = any-append-left (has_route_id i) db.tables.routes (row ∷ []) h
