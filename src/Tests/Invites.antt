-- ===== src/Tests/Invites.antt =====
-- The theorems on invites, at one single-use invite.
use maxbridge.Text.{◌==ᵗ◌, utf8}
use maxbridge.Storage.Database.{transaction, Db, ok}
use maxbridge.Prelude.{◌+◌, ◌≤◌, ◌≡◌, refl, ◌≢◌, true, none, [], ◌∷◌, Memᴰ, pos}
use maxbridge.Storage.Tables.{Invite}
use maxbridge.Storage.Invites.{consume_invite, create_invite, new_invite}
use maxbridge.Storage.Invites.Consume.{consume_invite_once}
use maxbridge.Tests.Data.{now, database}

abbrev invite : Invite
invite = new_invite (pos 1) 0 (utf8 "user_link") (utf8 "42") (utf8 "c0de") (now + 5) true []

abbrev invited : Db
invited = database [] (invite ∷ [])

consume_one : (consume_invite now (utf8 "c0de") invited).0 ≡ ok invite
unfolding consume_invite transaction ◌==ᵗ◌
consume_one = refl

consume_invite_once_example :
    Memᴰ invite invited.tables.invites
    × (invite.code_hash ≡ utf8 "c0de")
    × (invite.revoked_at ≡ none)
    × (now ≤ invite.expires_at)
    × (invite.single_use ≡ true → invite.used_at ≡ none)
    × ((j : Invite)
        → (consume_invite (now + 1) (utf8 "c0de") (consume_invite now (utf8 "c0de") invited).1).0
          ≢ ok j)
consume_invite_once_example =
    consume_invite_once now (now + 1) (utf8 "c0de") invited
      (consume_invite now (utf8 "c0de") invited).1 invite consume_one (tt, tt) refl

abbrev empty : Db
empty = database [] []

create_one :
    (create_invite (utf8 "user_link") (utf8 "42") (utf8 "c0de") (now + 5) true [] empty).0
    ≡ ok (pos 2)
unfolding create_invite
create_one = refl
