-- ===== src/Delivery/Send.antt =====
-- internal/delivery/worker.go: prepareAttachments and sendWithAttachmentWarmup.
pub mod Replies
pub mod Sends
pub mod Logged
use maxbridge.Prelude.{
  ℕ, ◌*◌, ◌⊎◌, inl, inr, Bool, true, false, not, Option, none, some, List, [], ◌∷◌, if◌then◌else◌,
  ℤ,
}
use maxbridge.Text.{Text, utf8, is_empty, trim_space}
use maxbridge.Text.Ascii.{base}
use maxbridge.Storage.Tables.{second}
use maxbridge.MaxApi.{SendError, other_error, Attachment, is_attachment_not_ready_error}
use maxbridge.MaxApi.Client.{Upload, upload_panicked, upload_failed, upload_done}
use maxbridge.Delivery.Outside.{Outside}
use maxbridge.Delivery.Render.{OutboundMedia}

unfoldable pub attachment_name : Text → Text → Text
attachment_name file_name fallback_name =
    let name = trim_space file_name in
    let fallback = trim_space fallback_name in
    base (
      if not (is_empty name)
      then name
      else if not (is_empty fallback)
      then fallback
      else utf8 "attachment.bin")

abbrev pub with_kind : Text → Upload → Upload
with_kind kind upload_panicked = upload_panicked
with_kind kind (upload_failed e) = upload_failed e
with_kind kind (upload_done a) = upload_done (record a { kind = kind })

-- What prepareAttachments comes to. A panic of an upload goes through it, and nothing recovers it.
pub data Prepared : Type 0 where
  prepare_panicked : Prepared
  prepare_failed : SendError → Prepared
  prepare_done : List Attachment → Prepared

abbrev pub cons_reply : Attachment → Prepared → Prepared
cons_reply a prepare_panicked = prepare_panicked
cons_reply a (prepare_failed e) = prepare_failed e
cons_reply a (prepare_done as_) = prepare_done (a ∷ as_)

abbrev pub no_media_client : SendError
no_media_client = other_error (utf8 "telegram media client is not configured")

abbrev pub delays : List ℕ
delays = 2 * second ∷ 4 * second ∷ 8 * second ∷ []

-- Only a message with attachments is sent again.
abbrev pub worth_waiting : List Attachment → SendError → Bool
worth_waiting [] e = false
worth_waiting (a ∷ as_) e = is_attachment_not_ready_error e

module _ {W : Type 0} (outside : Outside W) where
  unfoldable pub prepare_one : OutboundMedia → W → Upload × W
  prepare_one m w =
      let (body, w') = outside.download m.file_id w in
      elim body [
        | inl detail ↦ (upload_failed (other_error detail), w')
        | inr (content, fallback) ↦
            let (att, w'') =
              outside.upload m.upload_type (attachment_name m.file_name fallback) content w' in
            (with_kind m.attachment_type att, w'')
      ]

  unfoldable pub prepare_each : List OutboundMedia → W → Prepared × W
  prepare_each [] w = (prepare_done [], w)
  prepare_each (m ∷ ms) w =
      let (att, w') = prepare_one m w in
      elim att [
        | upload_panicked ↦ (prepare_panicked, w')
        | upload_failed e ↦ (prepare_failed e, w')
        | upload_done a ↦ (let (rest, w'') = prepare_each ms w' in (cons_reply a rest, w''))
      ]

  unfoldable pub prepare_attachments : List OutboundMedia → W → Prepared × W
  prepare_attachments [] w = (prepare_done [], w)
  prepare_attachments (m ∷ ms) w =
      if outside.has_media_client
      then prepare_each (m ∷ ms) w
      else (prepare_failed no_media_client, w)

  module _ (max_user_id : ℤ) (text : Text) (attachments : List Attachment) where
    abbrev pub attempt_send : W → Option SendError × W
    attempt_send w = outside.send max_user_id text attachments w

    -- The loop over the delays, after a send that found an attachment not ready.
    unfoldable pub warm_up : List ℕ → SendError → W → Option SendError × W
    warm_up [] last_err w = (some last_err, w)
    warm_up (d ∷ ds) last_err w =
        let (stopped, w') = outside.sleep d w in
        elim stopped [
          | some detail ↦ (some (other_error detail), w')
          | none ↦
              let (reply, w'') = attempt_send w' in
              elim reply [
                | none ↦ (none, w'')
                | some e ↦ elim (is_attachment_not_ready_error e) [
                  | true ↦ warm_up ds e w''
                  | false ↦ (some e, w'')
                ]
              ]
        ]

    unfoldable pub send_with_attachment_warmup : W → Option SendError × W
    send_with_attachment_warmup w =
        let (reply, w') = attempt_send w in
        elim reply [
          | none ↦ (none, w')
          | some e ↦ elim (worth_waiting attachments e) [
            | true ↦ warm_up delays e w'
            | false ↦ (some e, w')
          ]
        ]
