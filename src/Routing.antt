-- ===== src/Routing.antt =====
-- internal/routing/filter.go: which messages a route lets through, over the constants of
-- internal/domain/models.go.
use maxbridge.Prelude.{Bool, true, false, ◌&&◌, Option, none, some, if◌then◌else◌}
use maxbridge.Text.{Text, utf8, ◌==ᵗ◌}
use maxbridge.Domain.{TelegramUser, TelegramMessage}
use maxbridge.Domain.Rules.{is_mention_message, is_text_message}

abbrev pub route_filter_all : Text
route_filter_all = utf8 "all"

abbrev pub route_filter_text_only : Text
route_filter_text_only = utf8 "text_only"

abbrev pub route_filter_mentions : Text
route_filter_mentions = utf8 "mentions_only"

-- `msg.From != nil && msg.From.IsBot`
abbrev pub is_from_bot : Option TelegramUser → Bool
is_from_bot none = false
is_from_bot (some user) = user.is_bot

unfoldable pub passes_route_filter : Text → Bool → Option TelegramMessage → Bool
passes_route_filter mode ignore_bots none = false
passes_route_filter mode ignore_bots (some msg) =
    if ignore_bots && is_from_bot msg.from
    then false
    else if mode ==ᵗ route_filter_text_only
    then is_text_message (some msg)
    else if mode ==ᵗ route_filter_mentions
    then is_mention_message (some msg)
    else true
