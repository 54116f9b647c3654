-- ===== src/Delivery/Send/Sends.antt =====
-- How often sendWithAttachmentWarmup of internal/delivery/worker.go sends a message.
use maxbridge.Prelude.{
  ℕ, suc, ◌+◌, ◌≤◌, ◌≡◌, inl, inr, List, [], ◌∷◌, arith, Option-cases, length, ℤ,
}
use maxbridge.Text.{Text}
use maxbridge.MaxApi.{SendError, Attachment}
use maxbridge.Delivery.Outside.{Outside}
use maxbridge.Delivery.Send.{warm_up, send_with_attachment_warmup, delays}

-- Runs a call, and counts it by `n`.
abbrev counting {ℓ} : {W : Type 0} {R : Type ℓ} → ℕ → (W → R × W) → ℕ × W → R × (ℕ × W)
counting n act w = let (r, w') = act w.1 in (r, (n + w.0, w'))

-- The same outside, with a count of the messages sent.
abbrev pub counted : {W : Type 0} → Outside W → Outside (ℕ × W)
counted outside = record {
  clock = λ w. outside.clock w.1;
  database_clock = λ w. outside.database_clock w.1;
  jitter = counting 0 outside.jitter;
  wait = counting 0 outside.wait;
  sleep = λ t. counting 0 (outside.sleep t);
  send = λ user text attachments. counting 1 (outside.send user text attachments);
  upload = λ kind name content. counting 0 (outside.upload kind name content);
  has_media_client = outside.has_media_client;
  download = λ file_id. counting 0 (outside.download file_id);
}

module _ {W : Type 0} (outside : Outside W) (user : ℤ) (text : Text)
    (attachments : List Attachment) where
  warm_up-sends :
      (ds : List ℕ) (e : SendError) (n : ℕ) (w : W)
      → (warm_up (counted outside) user text attachments ds e (n, w)).1.0 ≤ length ds + n
  unfolding warm_up
  warm_up-sends [] e n w = omega arith
  warm_up-sends (d ∷ ds) e n w =
      let (stopped, w') = outside.sleep d w in
      let (reply, w'') = outside.send user text attachments w' in
      let again = λ (e' : SendError). warm_up-sends ds e' (suc n) w'' in
      elim (Option-cases stopped) [
        | inr (detail, halted) ↦ ground (arith, halted)
        | inl go ↦ elim (Option-cases reply) [
          | inl sent ↦ ground (arith, go, sent)
          | inr (e', failed) ↦ ground (arith, go, failed, again e')
        ]
      ]

  -- sendWithAttachmentWarmup sends the message at most four times, and exactly once where it has no
  -- attachments, whatever the MAX API answers.
  pub send_with_attachment_warmup_bounded :
      (n : ℕ) (w : W)
      → let sent =
          (send_with_attachment_warmup (counted outside) user text attachments (n, w)).1.0 in
        (sent ≤ 4 + n) × (attachments ≡ [] → sent ≡ suc n)
  unfolding send_with_attachment_warmup
  send_with_attachment_warmup_bounded n w =
      let (reply, w') = outside.send user text attachments w in
      elim (Option-cases reply) [
        | inl sent ↦ (ground (arith, sent), λ h. ground (arith, sent))
        | inr (e, failed) ↦ (
          ground (arith, failed, warm_up-sends delays e (suc n) w'),
          λ h. ground (arith, failed, h),
        )
      ]
