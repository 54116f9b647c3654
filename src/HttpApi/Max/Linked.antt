-- ===== src/HttpApi/Max/Linked.antt =====
-- How handleMaxWebhook of internal/httpapi/server.go answers a user with a valid invite.
use maxbridge.HttpApi.{Time, Request, ServerState, Peers, call}
use maxbridge.Storage.Tables.{Time, Invite}
use maxbridge.Prelude.{
  arith, ◌≢◌, ℕ, ◌≡◌, refl, sym, subst, ◌⊎◌, inl, inr, Bool, true, false, Option, none, some, List,
  [], if◌then◌else◌, ℤ,
}
use maxbridge.Storage.Database.{DbError, transaction, Db, Exec, Result, ok, err}
use maxbridge.HttpApi.Guards.{guarded-authentic, IsAuthentic}
use maxbridge.Text.{Text, utf8, ◌==ᵗ◌}
use maxbridge.Text.Decimal.{parse_int}
use maxbridge.Domain.{MaxWebhookUpdate, MaxWebhookMessage}
use maxbridge.Routing.{route_filter_all}
use maxbridge.Storage.Accounts.{upsert_linked_user, update_max_user_delivery_status}
use maxbridge.Storage.Routes.{create_route, clone_route_to_user}
use maxbridge.Storage.Accounts.Linking.{
  IsLinked, KeepsLinks, upsert_linked_user-IsLinked, update_max_user_delivery_status-KeepsLinks,
  create_route-KeepsLinks, clone_route_to_user-KeepsLinks,
}
use maxbridge.Storage.Invites.{consume_invite}
use maxbridge.MaxApi.{SendError}
use maxbridge.InviteService.{parse_link_command, hash_code}
use maxbridge.HttpApi.Max.{
  extract_max_link_input, invite_name, cut_text, ignore, open_route, copy_route, apply_scope,
  report_test, send_test, test_text, finish_link, link_user, after_parse, try_link, accept_input,
  accept_message, after_guard, handle_max_webhook,
}

consume_invite-served :
    (now : Time) (hash : Text) (db : Db)
    → db.faults ≡ []
    → (consume_invite now hash db).1.faults ≡ []
unfolding consume_invite transaction
consume_invite-served now hash db served = ground arith

upsert_linked_user-served :
    (user : ℤ) (name : Text) (db : Db) (e : DbError)
    → (upsert_linked_user user name db).0 ≡ err e
    → db.faults ≢ []
unfolding upsert_linked_user
upsert_linked_user-served user name db e h served = ground arith

module _ {W : Type 0} (peers : Peers W) (user : ℤ) where
  abbrev Linked : ServerState W → Type 0
  Linked s = IsLinked user s.store.tables

  ignore-Linked {ℓ} :
      {A : Type ℓ} (action : Exec A) (s : ServerState W)
      → KeepsLinks action
      → Linked s
      → Linked (ignore peers action s)
  ignore-Linked action s keeps h =
      keeps user (record s.store { now = peers.database_clock s.world }) h

  open_route-Linked :
      (chat : Option ℤ) (s : ServerState W) → Linked s → Linked (open_route peers chat user s)
  open_route-Linked none s h = h
  open_route-Linked (some chat) s h =
      ignore-Linked (create_route chat user route_filter_all true) s
        (create_route-KeepsLinks chat user route_filter_all true) h

  copy_route-Linked :
      (route : Option ℤ) (s : ServerState W) → Linked s → Linked (copy_route peers route user s)
  copy_route-Linked none s h = h
  copy_route-Linked (some route) s h =
      ignore-Linked (clone_route_to_user route user) s (clone_route_to_user-KeepsLinks route user) h

  if-Linked :
      (b : Bool) (s s' : ServerState W) → Linked s → Linked s' → Linked (if b then s' else s)
  if-Linked true s s' h h' = h'
  if-Linked false s s' h h' = h

  apply_scope-Linked :
      (inv : Invite) (s : ServerState W) → Linked s → Linked (apply_scope peers inv user s)
  unfolding apply_scope
  apply_scope-Linked inv s h =
      let id = parse_int inv.scope_id in
      let first =
        if-Linked (inv.scope_type ==ᵗ utf8 "group") s (open_route peers id user s) h
          (open_route-Linked id s h) in
      if-Linked (inv.scope_type ==ᵗ utf8 "route") _ _ first (copy_route-Linked id _ first)

  status-Linked :
      (status detail : Text) (s : ServerState W)
      → Linked s
      → Linked (ignore peers (update_max_user_delivery_status user status detail) s)
  status-Linked status detail s h =
      ignore-Linked (update_max_user_delivery_status user status detail) s
        (update_max_user_delivery_status-KeepsLinks user status detail) h

  report_test-Linked :
      (reply : Option SendError) (s : ServerState W)
      → Linked s
      → Linked (report_test peers reply user s)
  report_test-Linked none s h = status-Linked (utf8 "success") [] s h
  report_test-Linked (some e) s h = status-Linked (utf8 "temporary_error") (cut_text e) s h

  send_test-Linked : (s : ServerState W) → Linked s → Linked (send_test peers user s)
  unfolding send_test
  send_test-Linked s h =
      let (reply, w) = peers.send_message user test_text s.world in
      report_test-Linked reply (record s { world = w }) h

  -- Answered 204, with the user linked, or 500 where the database failed.
  abbrev Answered : ServerState W → ℕ × ServerState W → Type 0
  Answered before answer =
      (answer.0 ≡ 204) × Linked answer.1 ⊎ (answer.0 ≡ 500) × (before.store.faults ≢ [])

  finish_link-Answered :
      (inv : Invite) (r : Result ℤ) (before s : ServerState W)
      → ((id : ℤ) → r ≡ ok id → Linked s)
      → ((e : DbError) → r ≡ err e → before.store.faults ≢ [])
      → Answered before (finish_link peers inv user r s)
  finish_link-Answered inv (err e) before s h failed = inr (refl, failed e refl)
  finish_link-Answered inv (ok id) before s h failed =
      inl (
        refl,
        send_test-Linked (apply_scope peers inv user s) (apply_scope-Linked inv s (h id refl)),
      )

  link_user-Answered :
      (inv : Invite) (r : Result Invite) (before s : ServerState W)
      → r ≡ ok inv
      → (before.store.faults ≡ [] → s.store.faults ≡ [])
      → Answered before (link_user peers user r s)
  unfolding link_user
  link_user-Answered inv (err e) before s h served = cc (h)
  link_user-Answered inv (ok i) before s h served =
      let name = invite_name i.metadata in
      let db : Db = record s.store { now = peers.database_clock s.world } in
      let (r, s') = call peers (upsert_linked_user user name) s in
      finish_link-Answered i r before s' (upsert_linked_user-IsLinked user name db)
        λ e failed clean. upsert_linked_user-served user name db e failed (served clean)

  module _ (unicode_upper : Text → Text) (sha256 : Text → List ℕ) (pepper : Text) where
    -- A user who sends a link command with a code that ConsumeInvite accepts, in an authentic
    -- webhook, is answered 204 and has an active row then, whatever comes of the routes and of the
    -- test message; or is answered 500, which takes a failure of the database: where every statement
    -- is served, it is the former.
    pub handle_max_webhook_links :
        (secret text code : Text) (request : Request MaxWebhookUpdate) (s : ServerState W)
        (upd : MaxWebhookUpdate) (message : MaxWebhookMessage) (inv : Invite)
        → IsAuthentic secret request upd
        → upd.message ≡ some message
        → extract_max_link_input message ≡ some (user, text)
        → parse_link_command unicode_upper text ≡ some code
        → (consume_invite
            (peers.clock s.world)
            (hash_code unicode_upper sha256 pepper code)
            (record s.store { now = peers.database_clock s.world })).0
          ≡ ok inv
        → let (status, s') =
            handle_max_webhook peers unicode_upper sha256 pepper secret request s in
          (status ≡ 204) × IsLinked user s'.store.tables ⊎ (status ≡ 500) × (s.store.faults ≢ [])
    unfolding handle_max_webhook accept_message try_link
    handle_max_webhook_links secret text code request s upd message inv authentic present input
          parsed consumed =
        let hash = hash_code unicode_upper sha256 pepper code in
        let (r, s') = call peers (consume_invite (peers.clock s.world) hash) s in
        let linked : Answered s (after_parse peers unicode_upper sha256 pepper user (some code) s) =
          link_user-Answered inv r s s' consumed
            (consume_invite-served (peers.clock s.world) hash _) in
        let tried =
          subst (λ p. Answered s (after_parse peers unicode_upper sha256 pepper user p s))
            (sym parsed) linked in
        let read =
          subst (λ i. Answered s (accept_input peers unicode_upper sha256 pepper i s)) (sym input)
            tried in
        let accepted =
          subst (λ m. Answered s (accept_message peers unicode_upper sha256 pepper m s))
            (sym present) read in
        subst (λ g. Answered s (after_guard peers unicode_upper sha256 pepper g s))
          (sym (guarded-authentic secret request upd authentic)) accepted
