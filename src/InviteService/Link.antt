-- ===== src/InviteService/Link.antt =====
-- A code of internal/invites/service.go, sent back in a link command, consumes its invite.
use maxbridge.Text.Fields.Plain.{
  is_word-IsPrintable, IsUpper, IsPrintable, trim_space-two_words, fields-two_words,
  to_upper-printable,
}
use maxbridge.InviteService.{
  is_empty, set_key, number, CreateInviteInput, CreateInviteOutput, RandomBytes, base32_char,
  base32_group, new_code, link_code, parse_link_command, hash_code, output, store_invite,
  service_create_invite, lifetime,
}
use maxbridge.Text.{is_empty, Text, utf8, ==ᵗ_refl}
use maxbridge.Prelude.{
  length-map, ℕ, ◌+◌, ◌%◌, ◌≤◌, ◌≡◌, refl, sym, ap, ◌∙◌, subst, inl, inr, false, ◌||◌, some, List,
  [], ◌∷◌, ◌++◌, map, arith, ltb, Bool-cases, length, take, All, All-append, All-take, ℤ,
}
use maxbridge.Text.Fields.{fields, to_upper, upper_byte}
use maxbridge.Storage.Tables.{Time, Invite}
use maxbridge.Storage.Database.{Db, Result, ok, err}
use maxbridge.Storage.Invites.{create_invite, consume_invite}
use maxbridge.Storage.Invites.Consume.{consume-create_invite}

base32_char-IsUpper : (n : ℕ) → IsUpper (base32_char (n % 32))
base32_char-IsUpper n = ground arith

base32_group-IsUpper : (n : ℕ) → All IsUpper (base32_group n)
base32_group-IsUpper n =
    let char = base32_char-IsUpper in
    (char _, (char _, (char _, (char _, (char _, (char _, (char _, (char _, tt))))))))

new_code-IsUpper : (raw : RandomBytes) → All IsUpper (new_code raw)
unfolding new_code
new_code-IsUpper raw =
    let front = base32_group (number raw.b0 raw.b1 raw.b2 raw.b3 raw.b4) in
    let back = base32_group (number raw.b5 raw.b6 raw.b7 raw.b8 raw.b9) in
    All-append IsUpper (utf8 "MB-") (take 12 (front ++ back))
      ((omega arith, omega arith), ((omega arith, omega arith), ((omega arith, omega arith), tt)))
      (All-take IsUpper 12 (front ++ back)
        (All-append IsUpper front back (base32_group-IsUpper _) (base32_group-IsUpper _)))

length-new_code : (raw : RandomBytes) → length (new_code raw) ≡ 15
unfolding new_code
length-new_code raw = refl

-- The user's word is the code up to the case of its letters.
abbrev pub Spells : Text → Text → Type 0
Spells word code = All IsPrintable word × (map upper_byte word ≡ code)

link_code-long :
    (unicode_upper : Text → Text) (word : Text)
    → 6 ≤ length word
    → link_code unicode_upper (utf8 "/link" ∷ word ∷ []) ≡ some (to_upper unicode_upper word)
link_code-long unicode_upper word long =
    let enough : ltb (length word) 6 ≡ false = ground arith in
    rw (==ᵗ_refl (utf8 "/link"), enough) refl

parse_link_command-word :
    (unicode_upper : Text → Text) (d : ℕ) (w : Text)
    → All IsPrintable (d ∷ w)
    → 6 ≤ length (d ∷ w)
    → parse_link_command unicode_upper (utf8 "/link " ++ (d ∷ w))
      ≡ some (to_upper unicode_upper (d ∷ w))
unfolding parse_link_command
parse_link_command-word unicode_upper d w h long =
    let command = utf8 "/link" in
    let plain = is_word-IsPrintable command refl in
    let trimmed = trim_space-two_words 47 d (utf8 "link") w plain h in
    let split = fields-two_words 47 d (utf8 "link") w plain h in
    ap (λ s. link_code unicode_upper (fields s)) trimmed
    ∙ ap (link_code unicode_upper) split
    ∙ link_code-long unicode_upper (d ∷ w) long

word-parsed :
    (unicode_upper : Text → Text) (word : Text) (raw : RandomBytes)
    → Spells word (new_code raw)
    → parse_link_command unicode_upper (utf8 "/link " ++ word) ≡ some (new_code raw)
word-parsed unicode_upper [] raw (h, e) = cc (ap length e ∙ length-new_code raw)
word-parsed unicode_upper (d ∷ w) raw (h, e) =
    let size : length (d ∷ w) ≡ 15 =
      sym (length-map upper_byte (d ∷ w)) ∙ ap length e ∙ length-new_code raw in
    parse_link_command-word unicode_upper d w h (omega arith)
    ∙ ap some (to_upper-printable unicode_upper (d ∷ w) h ∙ e)

module _ (unicode_upper : Text → Text) (sha256 : Text → List ℕ) (pepper : Text) where
  abbrev Created : CreateInviteInput → Text → Time → Db → CreateInviteOutput → Type 0
  Created input code expires db out =
      let metadata = set_key (utf8 "raw_code") code input.metadata in
      let hash = hash_code unicode_upper sha256 pepper code in
      (out.raw_code ≡ code)
      × (out.expires ≡ expires)
      × ((create_invite input.scope_type input.scope_id hash expires input.single_use metadata db).0
          ≡ ok out.invite_id)

  output-ok :
      (code : Text) (expires : Time) (r : Result ℤ) (out : CreateInviteOutput)
      → output unicode_upper sha256 pepper code expires r ≡ inr out
      → (out.raw_code ≡ code) × (out.expires ≡ expires) × (r ≡ ok out.invite_id)
  output-ok code expires (ok id) out h = ground (arith, h)
  output-ok code expires (err e) out h = cc (h)

  service_create_invite-ok :
      (now : Time) (raw : RandomBytes) (input : CreateInviteInput) (db : Db)
      (out : CreateInviteOutput)
      → (service_create_invite unicode_upper sha256 pepper now (inr raw) input db).0 ≡ inr out
      → Created input (new_code raw) (now + lifetime input.ttl) db out
        × ((service_create_invite unicode_upper sha256 pepper now (inr raw) input db).1
            ≡ (store_invite unicode_upper sha256 pepper input
                (new_code raw)
                (now + lifetime input.ttl)
                db).1)
  unfolding service_create_invite
  service_create_invite-ok now raw input db out h =
      let empty = is_empty input.scope_type || is_empty input.scope_id in
      elim (Bool-cases empty) [
        | inl missing ↦ ground (arith, missing, h)
        | inr given ↦
            (let expires = now + lifetime input.ttl in
              let stored =
                store_invite unicode_upper sha256 pepper input (new_code raw) expires db in
              let same : service_create_invite unicode_upper sha256 pepper now (inr raw) input db
                  ≡ stored =
                ground (arith, given) in
              let (code, until, created) =
                output-ok (new_code raw) expires _ out (sym (ap (λ x. x.0) same) ∙ h) in
              ((code, until, created), ap (λ x. x.1) same))
      ]

  -- Where the database serves every statement, a user who sends `/link` with the code that a
  -- successful CreateInvite returned, in letters of either case, gets the invite: ParseLinkCommand
  -- accepts the command, and until the invite expires ConsumeInvite of the hash of what it returns
  -- gives the invite of that id, with the scope it was created for.
  pub linkable-service_create_invite :
      (now now' : Time) (raw : RandomBytes) (input : CreateInviteInput) (db : Db)
      (out : CreateInviteOutput) (word : Text)
      → (service_create_invite unicode_upper sha256 pepper now (inr raw) input db).0 ≡ inr out
      → db.faults ≡ []
      → Spells word out.raw_code
      → now' ≤ out.expires
      → let db' = (service_create_invite unicode_upper sha256 pepper now (inr raw) input db).1 in
        (code : Text) × (i : Invite) × (parse_link_command unicode_upper (utf8 "/link " ++ word)
          ≡ some code)
        × ((consume_invite now' (hash_code unicode_upper sha256 pepper code) db').0 ≡ ok i)
        × (i.id ≡ out.invite_id)
        × (i.scope_type ≡ input.scope_type)
        × (i.scope_id ≡ input.scope_id)
  linkable-service_create_invite now now' raw input db out word h clean spelled early =
      let ((same_code, until, created), after) = service_create_invite-ok now raw input db out h in
      let code = new_code raw in
      let hash = hash_code unicode_upper sha256 pepper code in
      let metadata = set_key (utf8 "raw_code") code input.metadata in
      let (i, consumed, id, scope_type, scope_id, _) =
        consume-create_invite input.scope_type input.scope_id hash (now + lifetime input.ttl) now'
          input.single_use metadata db out.invite_id created clean
          (subst (λ t. now' ≤ t) until early) in
      (
        code,
        i,
        word-parsed unicode_upper word raw (spelled.0, spelled.1 ∙ same_code),
        subst (λ d. (consume_invite now' hash d).0 ≡ ok i) (sym after) consumed,
        id,
        scope_type,
        scope_id,
      )
