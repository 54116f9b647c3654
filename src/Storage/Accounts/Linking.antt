-- ===== src/Storage/Accounts/Linking.antt =====
-- A user who is linked by UpsertLinkedUser of internal/storage/store.go, and what leaves the link alone.
use maxbridge.Storage.Accounts.{has_user_id, upsert_linked_user, update_max_user_delivery_status}
use maxbridge.Storage.Routes.{clone_route, create_route, clone_route_to_user}
use maxbridge.Prelude.{
  ◌≡◌, refl, sym, subst, inl, inr, Bool, true, ◌&&◌, List, [], ◌∷◌, ◌++◌, arith, Bool-cases,
  Option-cases, any, update, ℤ, ==ℤ_refl,
}
use maxbridge.Text.{Text}
use maxbridge.Storage.Tables.{UserRow, Tables}
use maxbridge.Storage.Database.{Db, Exec, ok, next_fault}

-- The user has an active row.
abbrev pub is_link_of : ℤ → UserRow → Bool
is_link_of user u = has_user_id user u && u.is_active

abbrev pub IsLinked : ℤ → Tables → Type 0
IsLinked user t = any (is_link_of user) t.users ≡ true

any-update_hit :
    {A : Type 0} (test hit : A → Bool) (change : A → A) (xs : List A)
    → any hit xs ≡ true
    → ((x : A) → hit x ≡ true → test (change x) ≡ true)
    → any test (update hit change xs) ≡ true
any-update_hit test hit change [] h k = h
any-update_hit test hit change (x ∷ xs) h k = ground (arith, k x, any-update_hit test hit change xs)

any-update_kept :
    {A : Type 0} (test hit : A → Bool) (change : A → A) (xs : List A)
    → any test xs ≡ true
    → ((x : A) → test (change x) ≡ test x)
    → any test (update hit change xs) ≡ true
any-update_kept test hit change [] h k = h
any-update_kept test hit change (x ∷ xs) h k =
    ground (arith, k x, any-update_kept test hit change xs)

any-snoc :
    {A : Type 0} (test : A → Bool) (xs : List A) (x : A)
    → test x ≡ true
    → any test (xs ++ x ∷ []) ≡ true
any-snoc test [] x h = rw h refl
any-snoc test (y ∷ xs) x h = ground (arith, any-snoc test xs x h)

pub upsert_linked_user-IsLinked :
    (user : ℤ) (name : Text) (db : Db) (id : ℤ)
    → (upsert_linked_user user name db).0 ≡ ok id
    → IsLinked user (upsert_linked_user user name db).1.tables
unfolding upsert_linked_user
upsert_linked_user-IsLinked user name db id h = elim (Option-cases (next_fault db.faults)) [
  | inr (e, failed) ↦ ground (arith, failed, h)
  | inl served ↦ elim (Bool-cases (any (has_user_id user) db.tables.users)) [
    | inl known ↦
        rw (served, known)
          (any-update_hit (is_link_of user) (has_user_id user) _ db.tables.users known
            λ u hit. rw hit refl)
    | inr new ↦
        rw (served, new) (any-snoc (is_link_of user) db.tables.users _ (rw (==ℤ_refl user) refl))
  ]
]

-- What an action keeps, whatever it returns.
abbrev pub KeepsLinks {ℓ} : {A : Type ℓ} → Exec A → Type 0
KeepsLinks action =
    (user : ℤ) (db : Db) → IsLinked user db.tables → IsLinked user (action db).1.tables

pub update_max_user_delivery_status-KeepsLinks :
    (id : ℤ) (status detail : Text) → KeepsLinks (update_max_user_delivery_status id status detail)
unfolding update_max_user_delivery_status
update_max_user_delivery_status-KeepsLinks id status detail user db h =
    elim (Option-cases (next_fault db.faults)) [
      | inr (e, failed) ↦ rw failed h
      | inl served ↦
          rw served
            (any-update_kept (is_link_of user) (has_user_id id) _ db.tables.users h λ u. refl)
    ]

create_route-users :
    (chat_id max_user_id : ℤ) (mode : Text) (ignore_bots : Bool) (db : Db)
    → (create_route chat_id max_user_id mode ignore_bots db).1.tables.users ≡ db.tables.users
unfolding create_route
create_route-users chat_id max_user_id mode ignore_bots db = ground arith

clone_route_to_user-users :
    (source max_user_id : ℤ) (db : Db)
    → (clone_route_to_user source max_user_id db).1.tables.users ≡ db.tables.users
unfolding clone_route_to_user clone_route
clone_route_to_user-users source max_user_id db = ground arith

pub create_route-KeepsLinks :
    (chat_id max_user_id : ℤ) (mode : Text) (ignore_bots : Bool)
    → KeepsLinks (create_route chat_id max_user_id mode ignore_bots)
create_route-KeepsLinks chat_id max_user_id mode ignore_bots user db h =
    subst (λ users. any (is_link_of user) users ≡ true)
      (sym (create_route-users chat_id max_user_id mode ignore_bots db)) h

pub clone_route_to_user-KeepsLinks :
    (source max_user_id : ℤ) → KeepsLinks (clone_route_to_user source max_user_id)
clone_route_to_user-KeepsLinks source max_user_id user db h =
    subst (λ users. any (is_link_of user) users ≡ true)
      (sym (clone_route_to_user-users source max_user_id db)) h
