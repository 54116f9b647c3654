-- ===== src/Tui/Rows.antt =====
-- internal/tui/model.go: what the interface reads out of a row, and how it shows it. How
-- `time.Time` prints is a parameter.
use maxbridge.Prelude.{
  ◌⊎◌, inl, inr, Bool, true, false, not, ◌&&◌, Option, none, some, List, [], ◌∷◌, ◌++◌,
  if◌then◌else◌, ℤ,
}
use maxbridge.Text.{Text, utf8, ◌==ᵗ◌, trim_space, less}
use maxbridge.Text.Decimal.{format_int, parse_int}
use maxbridge.Storage.Tables.{Time}
use maxbridge.Storage.Listings.{Value, int, text, bool, time, time_pointer, Row, lookup, order_by}

abbrev or_invalid : Text → Option ℤ → Text ⊎ ℤ
or_invalid field none = inl (utf8 "некорректное значение " ++ field)
or_invalid field (some n) = inr n

-- The first text is the error.
unfoldable pub parse_int64 : Text → Text → Text ⊎ ℤ
parse_int64 raw field = or_invalid field (parse_int (trim_space raw))

abbrev int_from_value : Text → Option Value → Text ⊎ ℤ
int_from_value key none = inl (utf8 "поле " ++ key ++ utf8 " отсутствует")
int_from_value key (some (int n)) = inr n
int_from_value key (some (text s)) = parse_int64 s key
int_from_value key (some _) = inl (utf8 "некорректное поле " ++ key)

-- A nil map is `none`.
unfoldable pub int_from_row : Option Row → Text → Text ⊎ ℤ
int_from_row none key = inl (utf8 "отсутствуют данные строки")
int_from_row (some row) key = int_from_value key (lookup key row)

-- `row[key]`, also on a nil map
abbrev pub field_of : Option Row → Text → Option Value
field_of none key = none
field_of (some row) key = lookup key row

abbrev pub is_given : Text → Bool
is_given s = not (s ==ᵗ []) && not (s ==ᵗ utf8 "<nil>")

module _ (format_time : Time → Text) where
  bool_text : Bool → Text
  bool_text true = utf8 "true"
  bool_text false = utf8 "false"

  -- `%v`
  unfoldable pub show : Option Value → Text
  unfolding bool_text
  show none = utf8 "<nil>"
  show (some (int n)) = format_int n
  show (some (text s)) = s
  show (some (bool b)) = bool_text b
  show (some (time t)) = format_time t
  show (some (time_pointer none)) = utf8 "<nil>"
  show (some (time_pointer (some t))) = format_time t

  -- The trimmed text of a field.
  unfoldable pub shown : Row → Text → Text
  shown row key = trim_space (show (lookup key row))

  unfoldable pub format_max_user_name : Row → Text
  format_max_user_name row =
      let full_name = shown row (utf8 "full_name") in
      if is_given full_name
      then full_name
      else utf8 "Пользователь MAX " ++ show (lookup (utf8 "max_user_id") row)

  entries_text : List (Text × Value) → Text
  entries_text [] = []
  entries_text (e ∷ []) = e.0 ++ utf8 ":" ++ show (some e.1)
  entries_text (e ∷ e' ∷ es) =
      e.0 ++ utf8 ":" ++ show (some e.1) ++ utf8 " " ++ entries_text (e' ∷ es)

  -- `%v` of a map, whose keys are printed in order
  unfoldable pub show_row : Row → Text
  unfolding entries_text
  show_row row = utf8 "map[" ++ entries_text (order_by (λ a b. less a.0 b.0) row) ++ utf8 "]"

  invite_title : Row → Text
  invite_title row =
      let name = shown row (utf8 "max_full_name") in
      let raw = shown row (utf8 "raw_code") in
      let scope = show (lookup (utf8 "scope") row) in
      if is_given raw
      then (if is_given name
          then utf8 "Код: " ++ raw ++ utf8 " | " ++ name
          else utf8 "Код: " ++ raw)
      else if is_given name
      then utf8 "Область: " ++ scope ++ utf8 " | " ++ name
      else utf8 "Область: " ++ scope

  id_title : Row → Option Value → Text
  id_title row none = utf8 "Элемент=" ++ show_row row
  id_title row (some id) = utf8 "ID=" ++ show (some id)

  unfoldable pub format_row_title : Text → Row → Text
  unfolding invite_title id_title
  format_row_title section row =
      let value = λ (key : Text). show (lookup key row) in
      if section ==ᵗ utf8 "Telegram Groups"
      then (let title = shown row (utf8 "title") in
          if is_given title then title else utf8 "Без названия")
      else if section ==ᵗ utf8 "MAX Users"
      then format_max_user_name row
      else if section ==ᵗ utf8 "Invites"
      then invite_title row
      else if section ==ᵗ utf8 "Routes"
      then (let title = shown row (utf8 "group_title") in
          (if is_given title then title else utf8 "Чат " ++ value (utf8 "chat_id"))
          ++ utf8 " -> "
          ++ format_max_user_name row)
      else if section ==ᵗ utf8 "Delivery Queue"
      then utf8 "Статус: " ++ value (utf8 "status") ++ utf8 " | " ++ format_max_user_name row
      else if section ==ᵗ utf8 "Logs"
      then utf8 "[" ++ value (utf8 "level") ++ utf8 "] " ++ value (utf8 "message")
      else id_title row (lookup (utf8 "id") row)

  -- A label and a field's value.
  abbrev labelled : Row → Text → Text → Text
  labelled row label key = label ++ show (lookup key row)

  invite_detail : Row → Text
  invite_detail row =
      let name = shown row (utf8 "max_full_name") in
      let scope =
        labelled row (utf8 " scope=") (utf8 "scope")
        ++ labelled row (utf8 " до=") (utf8 "expires_at") in
      if is_given name
      then labelled row (utf8 "id=") (utf8 "id") ++ utf8 " имя=" ++ name ++ scope
      else labelled row (utf8 "id=") (utf8 "id") ++ scope

  unfoldable pub format_row_detail : Text → Row → Text
  unfolding invite_detail
  format_row_detail section row =
      let labelled_user = utf8 "пользователь=" ++ format_max_user_name row in
      if section ==ᵗ utf8 "Telegram Groups"
      then labelled row (utf8 "chat_id=") (utf8 "chat_id")
        ++ labelled row (utf8 " id=") (utf8 "id")
        ++ labelled row (utf8 " готовность=") (utf8 "readiness")
        ++ labelled row (utf8 " включена=") (utf8 "enabled")
      else if section ==ᵗ utf8 "MAX Users"
      then labelled_user
        ++ labelled row (utf8 " max_user_id=") (utf8 "max_user_id")
        ++ labelled row (utf8 " id=") (utf8 "id")
        ++ labelled row (utf8 " заблокирован=") (utf8 "blocked")
        ++ labelled row (utf8 " последнее=") (utf8 "last")
      else if section ==ᵗ utf8 "Invites"
      then invite_detail row
      else if section ==ᵗ utf8 "Routes"
      then labelled_user
        ++ labelled row (utf8 " max_user_id=") (utf8 "max_user_id")
        ++ labelled row (utf8 " id=") (utf8 "id")
        ++ labelled row (utf8 " chat_id=") (utf8 "chat_id")
        ++ labelled row (utf8 " включен=") (utf8 "enabled")
        ++ labelled row (utf8 " фильтр=") (utf8 "filter")
      else if section ==ᵗ utf8 "Delivery Queue"
      then labelled_user
        ++ labelled row (utf8 " max_user_id=") (utf8 "max_user_id")
        ++ labelled row (utf8 " job_id=") (utf8 "id")
        ++ labelled row (utf8 " chat_id=") (utf8 "chat_id")
        ++ labelled row (utf8 " попытки=") (utf8 "attempts")
        ++ labelled row (utf8 "/") (utf8 "max_attempts")
        ++ labelled row (utf8 " доступно=") (utf8 "available_at")
      else if section ==ᵗ utf8 "Logs"
      then labelled row (utf8 "источник=") (utf8 "source")
        ++ labelled row (utf8 " время=") (utf8 "created_at")
      else []
