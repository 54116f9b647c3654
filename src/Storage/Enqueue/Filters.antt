-- ===== src/Storage/Enqueue/Filters.antt =====
-- The filter that internal/storage/store.go repeats from internal/routing/filter.go, and what it means.
use maxbridge.Prelude.{
  ◌≡◌, refl, sym, subst, ◌≢◌, ◌↔◌, Bool, true, false, not, ◌&&◌, some, [], ◌∷◌, Memᴰ, arith,
  if◌then◌else◌, any-Memᴰ, Memᴰ-any,
}
use maxbridge.Text.{is_empty, Text, utf8, ◌==ᵗ◌, ==ᵗ_iff}
use maxbridge.Domain.{TelegramMessage, TelegramEntity}
use maxbridge.Domain.Rules.{is_text_message, is_mention_message}
use maxbridge.Routing.{
  passes_route_filter, is_from_bot, route_filter_text_only, route_filter_mentions,
}
use maxbridge.Storage.Enqueue.{route_passes_filter}

-- What a route lets through: no bot where it ignores them; in the mode text_only, messages with a
-- text; in the mode mentions_only, messages with a mention.
abbrev pub Passes : Text → Bool → TelegramMessage → Type 0
Passes mode ignore_bots msg =
    (ignore_bots ≡ true → is_from_bot msg.from ≡ false)
    × (mode ≡ utf8 "text_only" → msg.text ≢ [])
    × (mode ≡ utf8 "mentions_only"
        → (e : TelegramEntity) × Memᴰ e msg.entities × (e.kind ≡ utf8 "mention"))

given-is_empty : (t : Text) → t ≢ [] → not (is_empty t) ≡ true
given-is_empty [] h = elim (h refl) [ ]
given-is_empty (c ∷ t) h = refl

mentions_not_text :
    (mode : Text) → mode ≡ utf8 "mentions_only" → (mode ==ᵗ route_filter_text_only) ≡ false
unfolding ◌==ᵗ◌
mentions_not_text mode e = subst (λ (m : Text). (m ==ᵗ route_filter_text_only) ≡ false) (sym e) refl

-- The branches of the filter, each from its own test.
passes_branches :
    (ignores bot text_only mentions text mention : Bool)
    → (ignores ≡ true → bot ≡ false)
    → (text_only ≡ true → text ≡ true)
    → (mentions ≡ true → mention ≡ true)
    → (if ignores && bot
        then false
        else if text_only
        then text
        else if mentions
        then mention
        else true)
      ≡ true
passes_branches true true text_only mentions text mention b t m = sym (b refl)
passes_branches true false true mentions text mention b t m = t refl
passes_branches true false false true text mention b t m = m refl
passes_branches true false false false text mention b t m = refl
passes_branches false bot true mentions text mention b t m = t refl
passes_branches false bot false true text mention b t m = m refl
passes_branches false bot false false text mention b t m = refl

module _ (mode : Text) (ignore_bots : Bool) (msg : TelegramMessage) where
  is_text_message-text : is_text_message (some msg) ≡ true → msg.text ≢ []
  unfolding is_text_message
  is_text_message-text h e = ground (arith, h, e)

  text-is_text_message : msg.text ≢ [] → is_text_message (some msg) ≡ true
  unfolding is_text_message
  text-is_text_message h = given-is_empty msg.text h

  is_mention_message-entity :
      is_mention_message (some msg) ≡ true
      → (e : TelegramEntity) × Memᴰ e msg.entities × (e.kind ≡ utf8 "mention")
  unfolding is_mention_message
  is_mention_message-entity h =
      let (e, m, same) =
        Memᴰ-any (λ (e : TelegramEntity). e.kind ==ᵗ utf8 "mention") msg.entities h in
      (e, m, (==ᵗ_iff e.kind (utf8 "mention")).0 same)

  entity-is_mention_message :
      (e : TelegramEntity)
      → Memᴰ e msg.entities
      → e.kind ≡ utf8 "mention"
      → is_mention_message (some msg) ≡ true
  unfolding is_mention_message
  entity-is_mention_message e m same =
      any-Memᴰ (λ (e : TelegramEntity). e.kind ==ᵗ utf8 "mention") msg.entities m
        ((==ᵗ_iff e.kind (utf8 "mention")).1 same)

  to_Passes : route_passes_filter mode ignore_bots (some msg) ≡ true → Passes mode ignore_bots msg
  unfolding route_passes_filter
  to_Passes h = (
    λ ignores. ground (arith, h, ignores),
    λ e.
        is_text_message-text
          (let t = (==ᵗ_iff mode route_filter_text_only).1 e in ground (arith, h, t)),
    λ e. is_mention_message-entity (
        let t = mentions_not_text mode e in
        let m = (==ᵗ_iff mode route_filter_mentions).1 e in ground (arith, h, t, m)),
  )

  from_Passes : Passes mode ignore_bots msg → route_passes_filter mode ignore_bots (some msg) ≡ true
  unfolding route_passes_filter
  from_Passes (bots, text, mention) =
      passes_branches ignore_bots (is_from_bot msg.from) (mode ==ᵗ route_filter_text_only)
        (mode ==ᵗ route_filter_mentions) (is_text_message (some msg))
        (is_mention_message (some msg)) bots
        (λ h. text-is_text_message (text ((==ᵗ_iff mode route_filter_text_only).0 h)))
        (λ h.
          let (e, m, same) = mention ((==ᵗ_iff mode route_filter_mentions).0 h) in
          entity-is_mention_message e m same)

  -- The store's copy of the route filter decides every message as the filter of the routing package
  -- does: it lets a message through exactly if it is not from a bot where bots are ignored, has a text
  -- in the mode text_only, and has a mention in the mode mentions_only.
  pub route_passes_filter_lem :
      (route_passes_filter mode ignore_bots (some msg)
        ≡ passes_route_filter mode ignore_bots (some msg))
      × ((route_passes_filter mode ignore_bots (some msg) ≡ true) ↔ Passes mode ignore_bots msg)
  unfolding route_passes_filter passes_route_filter
  route_passes_filter_lem = (refl, (to_Passes, from_Passes))
