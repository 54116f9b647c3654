-- ===== src/HttpApi/Max/Links.antt =====
-- Who gets linked by handleMaxWebhook of internal/httpapi/server.go.
use maxbridge.Prelude.{ℕ, ◌≡◌, refl, ◌⊎◌, inl, inr, Option, none, some, List, Option-cases, ℤ}
use maxbridge.Text.{Text}
use maxbridge.Domain.{MaxWebhookUpdate, MaxWebhookMessage}
use maxbridge.Storage.Tables.{Invite}
use maxbridge.Storage.Database.{Db, Result, ok, err}
use maxbridge.Storage.Invites.{consume_invite}
use maxbridge.Storage.Invites.Consume.{consume_invite_atomic}
use maxbridge.InviteService.{parse_link_command, hash_code}
use maxbridge.HttpApi.{Request, ServerState, Peers, guarded, call}
use maxbridge.HttpApi.Guards.{IsAuthentic, Checked, guarded-Checked}
use maxbridge.HttpApi.Max.{
  extract_max_link_input, link_user, after_parse, try_link, accept_input, accept_message,
  after_guard, handle_max_webhook,
}

module _ {W : Type 0} (peers : Peers W) (unicode_upper : Text → Text) (sha256 : Text → List ℕ)
    (pepper : Text) (s : ServerState W) where
  abbrev database : Db
  database = record s.store { now = peers.database_clock s.world }

  -- The text is a link command whose code consumes an invite.
  abbrev pub IsInvited : Text → Type 0
  IsInvited text =
      (code : Text) × (i : Invite) × (parse_link_command unicode_upper text ≡ some code)
      × ((consume_invite (peers.clock s.world) (hash_code unicode_upper sha256 pepper code)
            database).0
          ≡ ok i)

  -- The database keeps its tables, unless an invited user wrote the text.
  abbrev pub Unchanged : ServerState W → Type 0
  Unchanged s' = s'.store.tables ≡ s.store.tables

  link_user-Unchanged :
      (user_id : ℤ) (code : Text) (r : Result Invite)
      → (consume_invite
          (peers.clock s.world)
          (hash_code unicode_upper sha256 pepper code)
          database).0
        ≡ r
      → let s1 =
          (call peers
            (consume_invite (peers.clock s.world) (hash_code unicode_upper sha256 pepper code))
            s).1 in
        ((i : Invite) × (r ≡ ok i)) ⊎ Unchanged (link_user peers user_id r s1).1
  unfolding link_user
  link_user-Unchanged user_id code (ok i) e = inl (i, refl)
  link_user-Unchanged user_id code (err d) e = inr (
      consume_invite_atomic (peers.clock s.world) (hash_code unicode_upper sha256 pepper code)
        database d e)

  after_parse-Unchanged :
      (user_id : ℤ) (text : Text) (parsed : Option Text)
      → parse_link_command unicode_upper text ≡ parsed
      → IsInvited text
        ⊎ Unchanged (after_parse peers unicode_upper sha256 pepper user_id parsed s).1
  after_parse-Unchanged user_id text none e = inr refl
  after_parse-Unchanged user_id text (some code) e =
      let consumed =
        consume_invite (peers.clock s.world) (hash_code unicode_upper sha256 pepper code)
          database in
      elim (link_user-Unchanged user_id code consumed.0 refl) [
        | inl (i, h) ↦ inl (code, i, e, h)
        | inr kept ↦ inr kept
      ]

  -- The message comes from a user, and its text consumes an invite.
  abbrev pub MayLink : MaxWebhookMessage → Type 0
  MayLink message =
      (user_id : ℤ) × (text : Text) × (extract_max_link_input message ≡ some (user_id, text))
      × IsInvited text

  accept_input-Unchanged :
      (message : MaxWebhookMessage) (input : Option (ℤ × Text))
      → extract_max_link_input message ≡ input
      → MayLink message ⊎ Unchanged (accept_input peers unicode_upper sha256 pepper input s).1
  unfolding try_link
  accept_input-Unchanged message none e = inr refl
  accept_input-Unchanged message (some (user_id, text)) e =
      elim (after_parse-Unchanged user_id text (parse_link_command unicode_upper text) refl) [
        | inl invited ↦ inl (user_id, text, e, invited)
        | inr kept ↦ inr kept
      ]

  -- The request is authentic and its message may link a user.
  abbrev pub IsLink : Text → Request MaxWebhookUpdate → Type 0
  IsLink secret request =
      (upd : MaxWebhookUpdate) × (message : MaxWebhookMessage) × IsAuthentic secret request upd
      × (upd.message ≡ some message)
      × MayLink message

  -- Nobody is linked without an invite: a webhook of MAX changes a table only if it is an authentic
  -- POST of a message from which extractMaxLinkInput takes a user and a text, and the text is a link
  -- command with a code that ConsumeInvite accepts.
  pub handle_max_webhook_guarded :
      (secret : Text) (request : Request MaxWebhookUpdate)
      → IsLink secret request
        ⊎ Unchanged (handle_max_webhook peers unicode_upper sha256 pepper secret request s).1
  unfolding handle_max_webhook accept_message
  handle_max_webhook_guarded secret request =
      go (guarded secret request) (guarded-Checked secret request)
    where
      go :
          (g : ℕ ⊎ MaxWebhookUpdate)
          → Checked secret request g
          → IsLink secret request ⊎ Unchanged (after_guard peers unicode_upper sha256 pepper g s).1
      go (inl status) refused = inr refl
      go (inr upd) authentic = elim (Option-cases upd.message) [
        | inl absent ↦ inr (rw absent refl)
        | inr (message, present) ↦
            elim (accept_input-Unchanged message (extract_max_link_input message) refl) [
              | inl may ↦ inl (upd, message, authentic, present, may)
              | inr kept ↦ inr (rw present kept)
            ]
      ]
