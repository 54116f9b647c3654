-- ===== src/Storage/Accounts/Revocation.antt =====
-- A user who is removed or blocked by internal/storage/store.go is no recipient of new messages.
use maxbridge.Prelude.{
  ◌∙◌, ap, sym, subst, ==ℤ_iff, refl, Memᴰ-filter, inl, [], arith, Memᴰ-All, ◌∷◌, inr, filter,
  Bool-cases, update, map, false, true, ◌≡◌, ◌==ℤ◌, List, All, any, ℤ, Bool,
}
use maxbridge.Storage.Database.{served, >>=-ok, ◌>>◌, transaction-ok, Db}
use maxbridge.Storage.Accounts.{
  disable, is_route_of, update_users, has_user_id, deactivate, update_routes, ok, Db,
  set_user_blocked, remove_user,
}
use maxbridge.Storage.Tables.{Time, UserRow, RouteRow, Tables}
use maxbridge.Storage.Enqueue.{is_recipient, is_open_route, select_candidates, candidate}

-- No message of any chat selects a route to the user.
abbrev pub NoRouteTo : ℤ → Tables → Type 0
NoRouteTo user t =
    (chat_id : ℤ) → All (λ c. (c.max_user_id ==ℤ user) ≡ false) (select_candidates chat_id t)

any-update_none :
    {A : Type 0} (test hit : A → Bool) (change : A → A) (xs : List A)
    → ((x : A) → hit x ≡ true → test (change x) ≡ false)
    → ((x : A) → hit x ≡ false → test x ≡ false)
    → any test (update hit change xs) ≡ false
any-update_none test hit change [] h k = refl
any-update_none test hit change (x ∷ xs) h k =
    ground (arith, h x, k x, any-update_none test hit change xs h k)

-- A route whose user has no active, unblocked row is not open.
closed_without_recipient :
    (user : ℤ) (users : List UserRow) (chat_id : ℤ) (r : RouteRow)
    → any (is_recipient user) users ≡ false
    → is_open_route chat_id users r ≡ true
    → (r.max_user_id ==ℤ user) ≡ false
unfolding is_open_route
closed_without_recipient user users chat_id r gone open_route =
    elim (Bool-cases (r.max_user_id ==ℤ user)) [
      | inr other ↦ other
      | inl same ↦
          let e = (==ℤ_iff r.max_user_id user).0 same in
          let none_left = subst (λ u. any (is_recipient u) users ≡ false) (sym e) gone in
          ground (arith, open_route, none_left)
    ]

map-candidate-other :
    (user : ℤ) (rs : List RouteRow)
    → All (λ r. (r.max_user_id ==ℤ user) ≡ false) rs
    → All (λ c. (c.max_user_id ==ℤ user) ≡ false) (map candidate rs)
map-candidate-other user [] h = tt
map-candidate-other user (r ∷ rs) h = (h.0, map-candidate-other user rs h.1)

NoRouteTo-of_recipient :
    (user : ℤ) (t : Tables) → any (is_recipient user) t.users ≡ false → NoRouteTo user t
unfolding select_candidates
NoRouteTo-of_recipient user t gone chat_id =
    let open_routes = filter (is_open_route chat_id t.users) t.routes in
    map-candidate-other user open_routes (
      Memᴰ-All _ open_routes λ r m.
        closed_without_recipient user t.users chat_id r gone
          (Memᴰ-filter (is_open_route chat_id t.users) t.routes m).1)

update_users-ok :
    (test : UserRow → Bool) (change : Time → UserRow → UserRow) (db : Db)
    → (update_users test change db).0 ≡ ok tt
    → (update_users test change db).1.tables.users ≡ update test (change db.now) db.tables.users
update_users-ok test change db h = ground arith

update_routes-users :
    (test : RouteRow → Bool) (change : Time → RouteRow → RouteRow) (db : Db)
    → (update_routes test change db).1.tables.users ≡ db.tables.users
update_routes-users test change db = ground arith

module _ (user : ℤ) where
  -- A user who is not the one changed was and remains another.
  other_user : (u : UserRow) → has_user_id user u ≡ false → is_recipient user u ≡ false
  other_user u h = ground (arith, h)

  no_recipient_left :
      (change : UserRow → UserRow) (users : List UserRow)
      → ((u : UserRow) → is_recipient user (change u) ≡ false)
      → any (is_recipient user) (update (has_user_id user) change users) ≡ false
  no_recipient_left change users h =
      any-update_none (is_recipient user) (has_user_id user) change users (λ u _. h u) other_user

  deactivated_none : (now : Time) (u : UserRow) → is_recipient user (deactivate now u) ≡ false
  deactivated_none now u = ground arith

  blocked_none :
      (now : Time) (u : UserRow)
      → is_recipient user (record u { is_blocked = true; updated_at = now }) ≡ false
  blocked_none now u = ground arith

  remove_user-none :
      (db : Db)
      → (remove_user user db).0 ≡ ok tt
      → any (is_recipient user) (remove_user user db).1.tables.users ≡ false
  unfolding remove_user
  remove_user-none db h =
      let first = update_users (has_user_id user) deactivate in
      let second = update_routes (is_route_of user) disable in
      let t = transaction-ok (first >> second) db h in
      let b = >>=-ok first (λ _. second) (served db) t.0 in
      let users = update_users-ok (has_user_id user) deactivate (served db) b.1 in
      let same = update_routes-users (is_route_of user) disable (first (served db)).1 in
      let all : (remove_user user db).1.tables.users
          ≡ update (has_user_id user) (deactivate db.now) db.tables.users =
        ap (λ x. x.users) t.1 ∙ ap (λ x. x.1.tables.users) b.2 ∙ same ∙ users in
      subst (λ us. any (is_recipient user) us ≡ false) (sym all)
        (no_recipient_left (deactivate db.now) db.tables.users (deactivated_none db.now))

  set_user_blocked-none :
      (db : Db)
      → (set_user_blocked user true db).0 ≡ ok tt
      → any (is_recipient user) (set_user_blocked user true db).1.tables.users ≡ false
  unfolding set_user_blocked
  set_user_blocked-none db h =
      let change = λ (now : Time) (u : UserRow). record u { is_blocked = true; updated_at = now } in
      subst (λ us. any (is_recipient user) us ≡ false)
        (sym (update_users-ok (has_user_id user) change db h))
        (no_recipient_left (change db.now) db.tables.users (blocked_none db.now))

-- After a successful RemoveUser, or a successful SetUserBlocked to true, no message of any chat
-- selects a route to the user.
pub revoked-NoRouteTo :
    (user : ℤ) (db : Db)
    → ((remove_user user db).0 ≡ ok tt → NoRouteTo user (remove_user user db).1.tables)
      × ((set_user_blocked user true db).0 ≡ ok tt
          → NoRouteTo user (set_user_blocked user true db).1.tables)
revoked-NoRouteTo user db = (
  λ h. NoRouteTo-of_recipient user _ (remove_user-none user db h),
  λ h. NoRouteTo-of_recipient user _ (set_user_blocked-none user db h),
)
