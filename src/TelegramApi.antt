-- ===== src/TelegramApi.antt =====
-- internal/telegram/client.go: the decision of ProbeGroup, on what getMe and getChatMember returned.
pub mod Readiness
pub mod Client
use maxbridge.Prelude.{
  ◌⊎◌, inl, inr, Bool, false, not, ◌||◌, Option, none, some, [], if◌then◌else◌, ℤ,
}
use maxbridge.Text.{Text, utf8, ◌==ᵗ◌}
use maxbridge.Domain.{GroupReadiness, ready, limited, blocked}

pub record ProbeResult : Type 0 where
  pub readiness : GroupReadiness
  pub reason : Text
  pub bot_status : Text
  pub can_read_all : Bool

pub record GetMeResult : Type 0 where
  pub id : ℤ
  pub can_read_all_group_messages : Bool

pub record GetChatMemberResult : Type 0 where
  pub status : Text

-- The requests of the client; the left side is an error's text.
pub record TelegramCalls (W : Type 0) : Type 0 where
  pub get_me : W → (Text ⊎ GetMeResult) × W
  pub get_chat_member : ℤ → ℤ → W → (Text ⊎ GetChatMemberResult) × W

abbrev pub unreachable : Text → ProbeResult
unreachable reason = record {
  readiness = blocked;
  reason = reason;
  bot_status = [];
  can_read_all = false;
}

-- The switch on the status of the member.
unfoldable pub judge : GetMeResult → GetChatMemberResult → ProbeResult
judge me member =
    let result : ProbeResult = record {
      readiness = ready;
      reason = utf8 "all checks passed; smoke test requires a real user message in group";
      bot_status = member.status;
      can_read_all = me.can_read_all_group_messages;
    } in
    if member.status ==ᵗ utf8 "left" || member.status ==ᵗ utf8 "kicked"
    then record result { readiness = blocked; reason = utf8 "bot is not active in this group" }
    else if member.status ==ᵗ utf8 "member" || member.status ==ᵗ utf8 "administrator"
    then (if not me.can_read_all_group_messages
        then record result {
          readiness = limited;
          reason =
              utf8
                "privacy mode may hide non-command messages; grant admin and disable privacy mode";
        }
        else result)
    else record result { readiness = limited; reason = utf8 "unexpected bot member status" }

module _ {W : Type 0} (calls : TelegramCalls W) where
  abbrev pub judge_member : GetMeResult → Text ⊎ GetChatMemberResult → Option Text × ProbeResult
  judge_member me (inl e) =
      (some e, unreachable (utf8 "bot is not a group member or chat inaccessible"))
  judge_member me (inr member) = (none, judge me member)

  abbrev pub after_get_me : ℤ → Text ⊎ GetMeResult → W → (Option Text × ProbeResult) × W
  after_get_me chat_id (inl e) w = ((some e, unreachable (utf8 "telegram getMe failed")), w)
  after_get_me chat_id (inr me) w =
      let (member, w') = calls.get_chat_member chat_id me.id w in (judge_member me member, w')

  -- The error, if any, and the result that comes with it.
  unfoldable pub probe_group : ℤ → W → (Option Text × ProbeResult) × W
  probe_group chat_id w = let (me, w') = calls.get_me w in after_get_me chat_id me w'
