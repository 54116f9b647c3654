-- ===== src/Tests/Commands.antt =====
-- The theorem on the commands of the terminal interface, for a title in Cyrillic letters.
use maxbridge.Prelude.{◌≡◌, refl, inl, none, [], ◌∷◌, negsuc, arith}
use maxbridge.Text.{utf8, join}
use maxbridge.Text.Decimal.{format_int}
use maxbridge.Tui.Service.{Outer}
use maxbridge.Tui.Service.Commands.{exec}
use maxbridge.Tui.Service.Commands.Documented.{
  Command, add_group, print, IsTypable, perform, exec-print,
}
use maxbridge.Tests.Webhooks.{same, sha256}

abbrev pub outer : Outer (Unit {0})
outer = record {
  database_clock = λ w. 5;
  clock = λ w. 5;
  random = λ w. (inl (utf8 "no entropy"), w);
  telegram = record {
    get_me = λ w. (inl (utf8 "offline"), w);
    get_chat_member = λ chat user w. (inl (utf8 "offline"), w);
  };
  max_ping = λ w. (none, w);
  send_message = λ user text w. (none, w);
  unicode_upper = same;
  sha256 = sha256;
  pepper = utf8 "p";
  parse_duration = λ s. none;
  rfc3339 = λ t. utf8 "t";
  db_error_text = λ e. utf8 "e";
  service_error_text = λ e. utf8 "e";
  deep_link = λ bot payload. payload;
}

abbrev command : Command
command = add_group (negsuc 99) (utf8 "Новости") (utf8 "дня" ∷ [])

command-IsTypable : IsTypable command
command-IsTypable = (omega arith, omega arith, (omega arith, tt))

printed : print command ≡ utf8 "group add -100 Новости дня"
unfolding print join format_int
printed = refl

exec-print_example : exec outer (print command) ≡ perform outer command
exec-print_example = exec-print outer command command-IsTypable
