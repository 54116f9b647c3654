-- ===== src/InviteService.antt =====
-- internal/invites/service.go. SHA-256, the random bytes and the upper case of texts that are not
-- ASCII are arguments.
pub mod Link
use maxbridge.Prelude.{
  ℕ, ◌+◌, ◌*◌, ◌/◌, ◌%◌, ◌^◌, ◌⊎◌, inl, inr, Bool, not, ◌||◌, Option, none, some, List, [], ◌∷◌,
  ◌++◌, ltb, leb, if◌then◌else◌, length, take, ℤ, pos, negsuc,
}
use maxbridge.Text.{Text, utf8, is_empty, trim_space, ◌==ᵗ◌}
use maxbridge.Text.Fields.{fields, to_upper}
use maxbridge.Storage.Tables.{Time, hour, Metadata}
use maxbridge.Storage.Database.{Db, DbError, Result, ok, err}
use maxbridge.Storage.Invites.{create_invite}

pub record CreateInviteInput : Type 0 where
  pub scope_type : Text
  pub scope_id : Text
  pub ttl : ℤ
  pub single_use : Bool
  pub metadata : Metadata

pub record CreateInviteOutput : Type 0 where
  pub invite_id : ℤ
  pub raw_code : Text
  pub expires : Time

pub data ServiceError : Type 0 where
  scope_required : ServiceError
  random_failed : Text → ServiceError
  store_error : DbError → ServiceError

-- base32.StdEncoding
abbrev base32_char : ℕ → ℕ
base32_char n = if ltb n 26 then n + 65 else n + 24

-- The eight characters of five bytes.
abbrev base32_group : ℕ → Text
base32_group n =
    base32_char (n / 32 ^ 7 % 32)
    ∷ base32_char (n / 32 ^ 6 % 32)
    ∷ base32_char (n / 32 ^ 5 % 32)
    ∷ base32_char (n / 32 ^ 4 % 32)
    ∷ base32_char (n / 32 ^ 3 % 32)
    ∷ base32_char (n / 32 ^ 2 % 32)
    ∷ base32_char (n / 32 % 32)
    ∷ base32_char (n % 32)
    ∷ []

-- Ten bytes, in two groups.
pub record RandomBytes : Type 0 where
  pub b0 : ℕ
  pub b1 : ℕ
  pub b2 : ℕ
  pub b3 : ℕ
  pub b4 : ℕ
  pub b5 : ℕ
  pub b6 : ℕ
  pub b7 : ℕ
  pub b8 : ℕ
  pub b9 : ℕ

abbrev number : ℕ → ℕ → ℕ → ℕ → ℕ → ℕ
number a b c d e = (((a * 256 + b) * 256 + c) * 256 + d) * 256 + e

abbrev encode_to_string : RandomBytes → Text
encode_to_string raw =
    base32_group (number raw.b0 raw.b1 raw.b2 raw.b3 raw.b4)
    ++ base32_group (number raw.b5 raw.b6 raw.b7 raw.b8 raw.b9)

unfoldable pub new_code : RandomBytes → Text
new_code raw = utf8 "MB-" ++ take 12 (encode_to_string raw)

abbrev hex_digit : ℕ → ℕ
hex_digit n = if ltb n 10 then n + 48 else n + 87

-- hex.EncodeToString
hex : List ℕ → Text
hex [] = []
hex (b ∷ bs) = hex_digit (b / 16) ∷ hex_digit (b % 16) ∷ hex bs

-- A map's entry is replaced where the key is there.
unfoldable pub set_key : Text → Text → Metadata → Metadata
set_key key value [] = (key, value) ∷ []
set_key key value (entry ∷ rest) =
    let changed = set_key key value rest in
    if entry.0 ==ᵗ key then (key, value) ∷ rest else entry ∷ changed

-- Every TTL that is not positive is a day.
abbrev pub lifetime : ℤ → ℕ
lifetime (negsuc n) = 24 * hour
lifetime (pos n) = if leb n 0 then 24 * hour else n

abbrev pub link_code : (Text → Text) → List Text → Option Text
link_code unicode_upper (command ∷ code ∷ []) =
    if not (command ==ᵗ utf8 "/link")
    then none
    else if ltb (length code) 6
    then none
    else some (to_upper unicode_upper code)
link_code unicode_upper _ = none

unfoldable pub parse_link_command : (Text → Text) → Text → Option Text
parse_link_command unicode_upper text = link_code unicode_upper (fields (trim_space text))

module _ (unicode_upper : Text → Text) (sha256 : Text → List ℕ) (pepper : Text) where
  unfoldable pub hash_code : Text → Text
  unfolding hex
  hash_code code =
      let norm = trim_space (to_upper unicode_upper code) in
      hex (sha256 (norm ++ utf8 ":" ++ pepper))

  abbrev output : Text → Time → Result ℤ → ServiceError ⊎ CreateInviteOutput
  output code expires (ok id) = inr (record { invite_id = id; raw_code = code; expires = expires })
  output code expires (err e) = inl (store_error e)

  abbrev store_invite :
      CreateInviteInput → Text → Time → Db → (ServiceError ⊎ CreateInviteOutput) × Db
  store_invite input code expires db =
      let metadata = set_key (utf8 "raw_code") code input.metadata in
      let (r, db') =
        create_invite input.scope_type input.scope_id (hash_code code) expires input.single_use
          metadata db in
      (output code expires r, db')

  -- CreateInvite, at the time of the service's clock and with what rand.Read gave.
  unfoldable pub service_create_invite :
      Time → Text ⊎ RandomBytes → CreateInviteInput → Db → (ServiceError ⊎ CreateInviteOutput) × Db
  service_create_invite now random input db =
      if is_empty input.scope_type || is_empty input.scope_id
      then (inl scope_required, db)
      else elim random [
        | inl detail ↦ (inl (random_failed detail), db)
        | inr raw ↦ store_invite input (new_code raw) (now + lifetime input.ttl) db
      ]
