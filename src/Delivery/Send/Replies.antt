-- ===== src/Delivery/Send/Replies.antt =====
-- What prepareAttachments and sendWithAttachmentWarmup of internal/delivery/worker.go return.
use maxbridge.Prelude.{
  Either-cases, ℕ, suc, ◌≡◌, refl, ap, subst, ◌⊎◌, inl, inr, none, List, [], ◌∷◌, arith,
  if◌then◌else◌, Bool-cases, Option-cases, length, ℤ,
}
use maxbridge.Delivery.Send.{
  no_media_client, prepare_one, prepare_each, prepare_attachments, attempt_send, warm_up,
  worth_waiting, send_with_attachment_warmup, cons_reply, delays, attachment_name, with_kind,
  Prepared, prepare_panicked, prepare_failed, prepare_done,
}
use maxbridge.Text.{Text}
use maxbridge.MaxApi.{SendError, Attachment, is_attachment_not_ready_error}
use maxbridge.Http.{Reader}
use maxbridge.MaxApi.Client.{Upload, upload_panicked, upload_failed, upload_done}
use maxbridge.Delivery.Outside.{Outside}
use maxbridge.Delivery.Render.{OutboundMedia}

pub Upload-cases :
    (u : Upload)
    → (u ≡ upload_panicked)
      ⊎ ((e : SendError) × (u ≡ upload_failed e))
      ⊎ ((a : Attachment) × (u ≡ upload_done a))
Upload-cases upload_panicked = inl refl
Upload-cases (upload_failed e) = inr (inl (e, refl))
Upload-cases (upload_done a) = inr (inr (a, refl))

with_kind-panicked :
    (kind : Text) (u : Upload) → with_kind kind u ≡ upload_panicked → u ≡ upload_panicked
with_kind-panicked kind upload_panicked h = refl
with_kind-panicked kind (upload_failed e) h = cc (h)
with_kind-panicked kind (upload_done a) h = cc (h)

cons_reply-panicked :
    (a : Attachment) (rest : Prepared)
    → cons_reply a rest ≡ prepare_panicked
    → rest ≡ prepare_panicked
cons_reply-panicked a prepare_panicked h = refl
cons_reply-panicked a (prepare_failed e) h = cc (h)
cons_reply-panicked a (prepare_done as_) h = cc (h)

cons_reply-done :
    (a : Attachment) (rest : Prepared) (n : ℕ) (as_ : List Attachment)
    → ((bs : List Attachment) → rest ≡ prepare_done bs → length bs ≡ n)
    → cons_reply a rest ≡ prepare_done as_
    → length as_ ≡ suc n
cons_reply-done a prepare_panicked n as_ h k = cc (k)
cons_reply-done a (prepare_failed e) n as_ h k = cc (k)
cons_reply-done a (prepare_done bs) n as_ h k = ground (arith, h bs refl)

module _ {W : Type 0} (outside : Outside W) where
  length-prepare_each :
      (media : List OutboundMedia) (w : W) (as_ : List Attachment)
      → (prepare_each outside media w).0 ≡ prepare_done as_
      → length as_ ≡ length media
  unfolding prepare_each
  length-prepare_each [] w as_ h = ground arith
  length-prepare_each (m ∷ ms) w as_ h = elim (Upload-cases (prepare_one outside m w).0) [
    | inl panicked ↦ ground (arith, panicked)
    | inr (inl (e, failed)) ↦ ground (arith, failed)
    | inr (inr (a, done)) ↦
        (let rest = prepare_each outside ms (prepare_one outside m w).1 in
          cons_reply-done a rest.0 (length ms) as_
            (length-prepare_each ms (prepare_one outside m w).1) (ground (arith, done)))
  ]

  -- Whatever is prepared has one attachment for each medium.
  pub length-prepare_attachments :
      (media : List OutboundMedia) (w : W) (as_ : List Attachment)
      → (prepare_attachments outside media w).0 ≡ prepare_done as_
      → length as_ ≡ length media
  unfolding prepare_attachments
  length-prepare_attachments [] w as_ h = ground arith
  length-prepare_attachments (m ∷ ms) w as_ h = elim (Bool-cases outside.has_media_client) [
    | inl client ↦ length-prepare_each (m ∷ ms) w as_ (
        subst
          (λ b.
            (if b then prepare_each outside (m ∷ ms) w else (prepare_failed no_media_client, w)).0
            ≡ prepare_done as_)
          client h)
    | inr missing ↦ ground (arith, missing)
  ]

  -- An upload that panicked has led to this world.
  abbrev pub Panicked : W → Type 0
  Panicked w' =
      (kind : Text) × (name : Text) × (content : Reader) × (w : W) × (outside.upload kind name
          content w
        ≡ (upload_panicked, w'))

  prepare_one-Panicked :
      (m : OutboundMedia) (w : W)
      → (prepare_one outside m w).0 ≡ upload_panicked
      → Panicked (prepare_one outside m w).1
  unfolding prepare_one
  prepare_one-Panicked m w h = elim (Either-cases (outside.download m.file_id w).0) [
    | inl (e, failed) ↦ ground (arith, h, failed)
    | inr ((content, fallback), got) ↦
        let name = attachment_name m.file_name fallback in
        let w' = (outside.download m.file_id w).1 in
        let up = outside.upload m.upload_type name content w' in
        let panicked : up.0 ≡ upload_panicked =
          with_kind-panicked m.attachment_type up.0 (ground (arith, h, got)) in
        rw (prepare_one, got) (m.upload_type, name, content, w', ap (λ r. (r, up.1)) panicked)
  ]

  prepare_each-Panicked :
      (media : List OutboundMedia) (w : W)
      → (prepare_each outside media w).0 ≡ prepare_panicked
      → Panicked (prepare_each outside media w).1
  unfolding prepare_each
  prepare_each-Panicked [] w h = cc (h)
  prepare_each-Panicked (m ∷ ms) w h =
      let w' = (prepare_one outside m w).1 in
      elim (Upload-cases (prepare_one outside m w).0) [
        | inl panicked ↦ rw (prepare_each, panicked) (prepare_one-Panicked m w panicked)
        | inr (inl (e, failed)) ↦ ground (arith, h, failed)
        | inr (inr (a, done)) ↦
            let rest = (prepare_each outside ms w').0 in
            rw (prepare_each, done)
              (prepare_each-Panicked ms w' (cons_reply-panicked a rest (ground (arith, h, done))))
      ]

  pub prepare_attachments-Panicked :
      (media : List OutboundMedia) (w : W)
      → (prepare_attachments outside media w).0 ≡ prepare_panicked
      → Panicked (prepare_attachments outside media w).1
  unfolding prepare_attachments prepare_each prepare_one
  prepare_attachments-Panicked [] w h = cc (h)
  prepare_attachments-Panicked (m ∷ ms) w h = elim (Bool-cases outside.has_media_client) [
    | inl client ↦
        rw (prepare_attachments, client)
          (prepare_each-Panicked (m ∷ ms) w (ground (arith, h, client)))
    | inr missing ↦ ground (arith, h, missing)
  ]

  module _ (user : ℤ) (text : Text) (attachments : List Attachment) where
    -- A send of the message that the MAX API has accepted has led to this world.
    abbrev pub Accepted : W → Type 0
    Accepted w' = (w : W) × (attempt_send outside user text attachments w ≡ (none, w'))

    sent-Accepted :
        (w : W)
        → (attempt_send outside user text attachments w).0 ≡ none
        → Accepted (attempt_send outside user text attachments w).1
    sent-Accepted w h = (w, ap (λ r. (r, (attempt_send outside user text attachments w).1)) h)

    warm_up-Accepted :
        (ds : List ℕ) (e : SendError) (w : W)
        → (warm_up outside user text attachments ds e w).0 ≡ none
        → Accepted (warm_up outside user text attachments ds e w).1
    unfolding warm_up
    warm_up-Accepted [] e w h = cc (h)
    warm_up-Accepted (d ∷ ds) e w h =
        let (stopped, w') = outside.sleep d w in
        let (reply, w'') = attempt_send outside user text attachments w' in
        elim (Option-cases stopped) [
          | inr (detail, halted) ↦ ground (arith, h, halted)
          | inl go ↦ elim (Option-cases reply) [
            | inl sent ↦ rw (warm_up, go, sent) (sent-Accepted w' sent)
            | inr (e', failed) ↦ elim (Bool-cases (is_attachment_not_ready_error e')) [
              | inl wait ↦
                  rw (warm_up, go, failed, wait)
                    (warm_up-Accepted ds e' w'' (ground (arith, h, go, failed, wait)))
              | inr over ↦ ground (arith, h, go, failed, over)
            ]
          ]
        ]

    pub send_with_attachment_warmup-Accepted :
        (w : W)
        → (send_with_attachment_warmup outside user text attachments w).0 ≡ none
        → Accepted (send_with_attachment_warmup outside user text attachments w).1
    unfolding send_with_attachment_warmup
    send_with_attachment_warmup-Accepted w h =
        let (reply, w') = attempt_send outside user text attachments w in
        elim (Option-cases reply) [
          | inl sent ↦ rw (send_with_attachment_warmup, sent) (sent-Accepted w sent)
          | inr (e, failed) ↦ elim (Bool-cases (worth_waiting attachments e)) [
            | inl wait ↦
                rw (send_with_attachment_warmup, failed, wait)
                  (warm_up-Accepted delays e w' (ground (arith, h, failed, wait)))
            | inr over ↦ ground (arith, h, failed, over)
          ]
        ]
