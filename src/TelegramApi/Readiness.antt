-- ===== src/TelegramApi/Readiness.antt =====
-- When internal/telegram/client.go calls a group ready.
use maxbridge.Text.{==ᵗ_iff, Text, utf8, ◌==ᵗ◌}
use maxbridge.Prelude.{◌≡◌, refl, sym, subst, ◌↔◌, ◌⊎◌, inl, inr, true, arith, Bool-cases, ℤ}
use maxbridge.Domain.{ready}
use maxbridge.TelegramApi.{
  GetMeResult, GetChatMemberResult, TelegramCalls, judge, judge_member, after_get_me, probe_group,
}

-- The bot reads all messages of a group that it is a member or an administrator of.
abbrev pub SeesAll : GetMeResult → GetChatMemberResult → Type 0
SeesAll me member =
    (me.can_read_all_group_messages ≡ true)
    × ((member.status ≡ utf8 "member") ⊎ (member.status ≡ utf8 "administrator"))

judge-SeesAll :
    (me : GetMeResult) (member : GetChatMemberResult)
    → (judge me member).readiness ≡ ready
    → SeesAll me member
unfolding judge
judge-SeesAll me member h = elim (Bool-cases (member.status ==ᵗ utf8 "member")) [
  | inl e ↦ (ground (arith, h, e), inl ((==ᵗ_iff member.status (utf8 "member")).0 e))
  | inr other ↦ elim (Bool-cases (member.status ==ᵗ utf8 "administrator")) [
    | inl e ↦
        (ground (arith, h, e, other), inr ((==ᵗ_iff member.status (utf8 "administrator")).0 e))
    | inr neither ↦ ground (arith, h, other, neither)
  ]
]

judge-ready :
    (me : GetMeResult) (member : GetChatMemberResult)
    → SeesAll me member
    → (judge me member).readiness ≡ ready
unfolding judge ◌==ᵗ◌
judge-ready me member (sees, inl e) = rw (e, sees) refl
judge-ready me member (sees, inr e) = rw (e, sees) refl

module _ {W : Type 0} (calls : TelegramCalls W) (chat_id : ℤ) (w : W) where
  -- Both calls succeed, and the bot sees all messages of the group.
  abbrev pub IsReady : Type 0
  IsReady =
      (me : GetMeResult) × (member : GetChatMemberResult) × ((calls.get_me w).0 ≡ inr me)
      × ((calls.get_chat_member chat_id me.id (calls.get_me w).1).0 ≡ inr member)
      × SeesAll me member

  judged-IsReady :
      (me : GetMeResult) (r : Text ⊎ GetChatMemberResult)
      → (judge_member calls me r).1.readiness ≡ ready
      → (member : GetChatMemberResult) × (r ≡ inr member) × SeesAll me member
  judged-IsReady me (inl e) h = cc (h)
  judged-IsReady me (inr member) h = (member, refl, judge-SeesAll me member h)

  -- ProbeGroup reports a group as ready exactly if both of its calls succeed, the bot reads all group
  -- messages, and its status in the group is member or administrator.
  pub probe_group-IsReady : ((probe_group calls chat_id w).0.1.readiness ≡ ready) ↔ IsReady
  unfolding probe_group
  probe_group-IsReady = (to (calls.get_me w).0 refl, from)
    where
      to :
          (r : Text ⊎ GetMeResult)
          → (calls.get_me w).0 ≡ r
          → (after_get_me calls chat_id r (calls.get_me w).1).0.1.readiness ≡ ready
          → IsReady
      to (inl e) same h = cc (h)
      to (inr me) same h =
          let (member, answered, sees) =
            judged-IsReady me (calls.get_chat_member chat_id me.id (calls.get_me w).1).0 h in
          (me, member, same, answered, sees)

      from :
          IsReady
          → (after_get_me calls chat_id (calls.get_me w).0 (calls.get_me w).1).0.1.readiness ≡ ready
      from (me, member, same, answered, sees) =
          subst (λ r. (after_get_me calls chat_id r (calls.get_me w).1).0.1.readiness ≡ ready)
            (sym same)
            (subst (λ r. (judge_member calls me r).1.readiness ≡ ready) (sym answered)
              (judge-ready me member sees))
