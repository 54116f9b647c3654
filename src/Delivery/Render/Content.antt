-- ===== src/Delivery/Render/Content.antt =====
-- What a recipient is sent by renderMessage of internal/delivery/worker.go.
use maxbridge.Delivery.Render.{
  no_content, is_empty, trim_space, join, utf8, OutboundMedia, is_blank, header,
}
use maxbridge.Prelude.{◌⊎◌, ℕ, ◌≤◌, ◌≡◌, ◌≢◌, false, List, [], ◌++◌, length, All}
use maxbridge.Text.{is_empty, trim_space, join, utf8, Text}
use maxbridge.Domain.{TelegramMessage}

abbrev IsSendable : OutboundMedia → Type 0
IsSendable m = is_blank m.file_id ≡ false

-- Up to `n` media, each with a file to fetch.
abbrev UpTo : ℕ → List OutboundMedia → Type 0
UpTo n ms = (length ms ≤ n) × All IsSendable ms

-- A text is the header, and below it what there is of the trimmed text and the trimmed caption,
-- each on lines of its own and in this order; where there is neither, nothing above media, and a
-- placeholder without media.
abbrev pub IsBody : TelegramMessage → List OutboundMedia → Text → Type 0
IsBody msg media out =
    let text = trim_space msg.text in
    let caption = trim_space msg.caption in
    let head = header msg in
    (text ≢ []) × (caption ≢ []) × (out ≡ head ++ (utf8 "\n" ++ (text ++ utf8 "\n" ++ caption)))
    ⊎ (text ≢ []) × (caption ≡ []) × (out ≡ head ++ (utf8 "\n" ++ text))
    ⊎ (text ≡ []) × (caption ≢ []) × (out ≡ head ++ (utf8 "\n" ++ caption))
    ⊎ (text ≡ []) × (caption ≡ []) × (media ≢ []) × (out ≡ head)
    ⊎ (text ≡ []) × (caption ≡ []) × (media ≡ []) × (out ≡ head ++ (utf8 "\n" ++ no_content msg))
