-- ===== src/Domain/Rules.antt =====
-- internal/domain/rules.go.
use maxbridge.Prelude.{ℤ, ◌≡◌, Bool, false, not, Option, none, some, ◌∷◌, ◌++◌, any}
use maxbridge.Text.{Text, utf8, ◌==ᵗ◌, is_empty}
use maxbridge.Text.Decimal.{format_int, IsInt64}
use maxbridge.Text.Key.{prefix_injective, format_int-injective}
use maxbridge.Domain.{TelegramMessage}

-- `fmt.Sprintf("%d:%d:%d", routeID, chatID, messageID)`
unfoldable pub dedupe_key : ℤ → ℤ → ℤ → Text
dedupe_key route chat message =
    format_int route ++ b':' ∷ (format_int chat ++ b':' ∷ format_int message)

unfoldable pub is_mention_message : Option TelegramMessage → Bool
is_mention_message none = false
is_mention_message (some msg) = any (λ e. e.kind ==ᵗ utf8 "mention") msg.entities

unfoldable pub is_text_message : Option TelegramMessage → Bool
is_text_message none = false
is_text_message (some msg) = not (is_empty msg.text)

-- Two messages with the same dedupe key are one message of one chat on one route: keys of distinct
-- triples of `int64` values are distinct.
pub dedupe_key-injective :
    (r c m r' c' m' : ℤ)
    → IsInt64 r
    → IsInt64 c
    → IsInt64 m
    → IsInt64 r'
    → IsInt64 c'
    → IsInt64 m'
    → dedupe_key r c m ≡ dedupe_key r' c' m'
    → (r ≡ r') × (c ≡ c') × (m ≡ m')
unfolding dedupe_key
dedupe_key-injective r c m r' c' m' hr hc hm hr' hc' hm' e =
    let (route, rest) = prefix_injective r r' _ _ hr hr' e in
    let (chat, message) = prefix_injective c c' _ _ hc hc' rest in
    (route, chat, format_int-injective m m' hm hm' message)
