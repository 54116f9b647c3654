-- ===== src/Delivery/Send/Logged.antt =====
-- What prepareAttachments and sendWithAttachmentWarmup of internal/delivery/worker.go have had accepted.
use maxbridge.Prelude.{
  ℕ, ◌≡◌, refl, ap, ◌∙◌, inl, inr, none, some, Option, List, [], ◌∷◌, Bool-cases, Option-cases,
  Either-cases, ℤ,
}
use maxbridge.Text.{Text}
use maxbridge.MaxApi.{SendError, Attachment, is_attachment_not_ready_error}
use maxbridge.Delivery.Outside.{Outside}
use maxbridge.Delivery.Render.{OutboundMedia}
use maxbridge.Delivery.Send.Replies.{Upload-cases}
use maxbridge.Delivery.Send.{
  prepare_one, prepare_each, prepare_attachments, warm_up, worth_waiting,
  send_with_attachment_warmup, delays,
}

-- The messages that the MAX API has accepted, the last one first.
abbrev pub Log : Type 0
Log = List (ℤ × Text × List Attachment)

abbrev pub log_reply : ℤ × Text × List Attachment → Option SendError → Log → Log
log_reply message none log = message ∷ log
log_reply message (some e) log = log

abbrev keeping {ℓ} : {W : Type 0} {R : Type ℓ} → (W → R × W) → Log × W → R × (Log × W)
keeping act w = let (r, w') = act w.1 in (r, (w.0, w'))

-- The same outside, with a log of the messages accepted.
abbrev pub logged : {W : Type 0} → Outside W → Outside (Log × W)
logged outside = record {
  clock = λ w. outside.clock w.1;
  database_clock = λ w. outside.database_clock w.1;
  jitter = keeping outside.jitter;
  wait = keeping outside.wait;
  sleep = λ t. keeping (outside.sleep t);
  send = λ user text attachments w.
      let (r, w') = outside.send user text attachments w.1 in
      (r, (log_reply (user, text, attachments) r w.0, w'));
  upload = λ kind name content. keeping (outside.upload kind name content);
  has_media_client = outside.has_media_client;
  download = λ file_id. keeping (outside.download file_id);
}

module _ {W : Type 0} (outside : Outside W) where
  prepare_one-keeps :
      (m : OutboundMedia) (w : Log × W) → (prepare_one (logged outside) m w).1.0 ≡ w.0
  unfolding prepare_one
  prepare_one-keeps m w = elim (Either-cases (outside.download m.file_id w.1).0) [
    | inl (e, failed) ↦ rw (prepare_one, failed) refl
    | inr (file, got) ↦ rw (prepare_one, got) refl
  ]

  prepare_each-keeps :
      (media : List OutboundMedia) (w : Log × W) → (prepare_each (logged outside) media w).1.0 ≡ w.0
  unfolding prepare_each
  prepare_each-keeps [] w = refl
  prepare_each-keeps (m ∷ ms) w =
      let w' = (prepare_one (logged outside) m w).1 in
      elim (Upload-cases (prepare_one (logged outside) m w).0) [
        | inl panicked ↦ rw (prepare_each, panicked) (prepare_one-keeps m w)
        | inr (inl (e, failed)) ↦ rw (prepare_each, failed) (prepare_one-keeps m w)
        | inr (inr (a, done)) ↦
            rw (prepare_each, done) (prepare_each-keeps ms w' ∙ prepare_one-keeps m w)
      ]

  -- Preparing the attachments sends no message.
  pub prepare_attachments-keeps :
      (media : List OutboundMedia) (w : Log × W)
      → (prepare_attachments (logged outside) media w).1.0 ≡ w.0
  unfolding prepare_attachments prepare_each prepare_one
  prepare_attachments-keeps [] w = refl
  prepare_attachments-keeps (m ∷ ms) w = elim (Bool-cases outside.has_media_client) [
    | inl client ↦ rw client (prepare_each-keeps (m ∷ ms) w)
    | inr missing ↦ rw missing refl
  ]

  module _ (user : ℤ) (text : Text) (attachments : List Attachment) where
    -- A send that has failed has logged nothing.
    after_failure :
        (ds : List ℕ) (log : Log) (w : W) (reply : Option SendError) {e : SendError}
        → reply ≡ some e
        → let r =
            warm_up
              (logged outside)
              user
              text
              attachments
              ds
              e
              (log_reply (user, text, attachments) reply log, w) in
          r.1.0
            ≡ log_reply
                (user, text, attachments)
                r.0
                (log_reply (user, text, attachments) reply log)
          → r.1.0 ≡ log_reply (user, text, attachments) r.0 log
    after_failure ds log w reply {e} failed h =
        let r =
          warm_up (logged outside) user text attachments ds e
            (log_reply (user, text, attachments) reply log, w) in
        h
        ∙ ap
            (λ x.
              log_reply (user, text, attachments) r.0 (log_reply (user, text, attachments) x log))
            failed

    warm_up-logs :
        (ds : List ℕ) (e : SendError) (w : Log × W)
        → let r = warm_up (logged outside) user text attachments ds e w in
          r.1.0 ≡ log_reply (user, text, attachments) r.0 w.0
    unfolding warm_up
    warm_up-logs [] e w = refl
    warm_up-logs (d ∷ ds) e (log, w) =
        let (stopped, w') = outside.sleep d w in
        let (reply, w'') = outside.send user text attachments w' in
        elim (Option-cases stopped) [
          | inr (detail, halted) ↦ rw (warm_up, halted) refl
          | inl go ↦ elim (Option-cases reply) [
            | inl sent ↦
                rw (warm_up, go, sent) (ap (λ r. log_reply (user, text, attachments) r log) sent)
            | inr (e', failed) ↦ elim (Bool-cases (is_attachment_not_ready_error e')) [
              | inl wait ↦
                  rw (warm_up, go, failed, wait)
                    (after_failure ds log w'' reply failed
                      (warm_up-logs ds e' (log_reply (user, text, attachments) reply log, w'')))
              | inr over ↦
                  rw (warm_up, go, failed, over)
                    (ap (λ r. log_reply (user, text, attachments) r log) failed)
            ]
          ]
        ]

    -- A message is accepted at most once, and only where that is what is returned.
    pub send_with_attachment_warmup-logs :
        (w : Log × W)
        → let r = send_with_attachment_warmup (logged outside) user text attachments w in
          r.1.0 ≡ log_reply (user, text, attachments) r.0 w.0
    unfolding send_with_attachment_warmup
    send_with_attachment_warmup-logs (log, w) =
        let (reply, w') = outside.send user text attachments w in
        elim (Option-cases reply) [
          | inl sent ↦
              rw (send_with_attachment_warmup, sent)
                (ap (λ r. log_reply (user, text, attachments) r log) sent)
          | inr (e, failed) ↦ elim (Bool-cases (worth_waiting attachments e)) [
            | inl wait ↦
                rw (send_with_attachment_warmup, failed, wait)
                  (after_failure delays log w' reply failed
                    (warm_up-logs delays e (log_reply (user, text, attachments) reply log, w')))
            | inr over ↦
                rw (send_with_attachment_warmup, failed, over)
                  (ap (λ r. log_reply (user, text, attachments) r log) failed)
          ]
        ]
