-- ===== src/Tui/Service/Commands/Documented.antt =====
-- internal/tui/service.go: the commands as helpText documents them, and that Exec performs them.
use maxbridge.Prelude.{
  ℕ, suc, ◌≡◌, refl, ap, ◌∙◌, Bool, true, false, List, [], ◌∷◌, arith, All, ℤ, pos, negsuc,
}
use maxbridge.Text.{Text, utf8, ◌==ᵗ◌, join}
use maxbridge.Text.Decimal.{
  format_int, parse_int-format_int, IsInt64, IsDigit, format_nat, format_nat-IsDigit,
  format_nat-cons,
}
use maxbridge.Text.Fields.Words.{IsSolid, IsWord, fields-join}
use maxbridge.Tui.Service.{
  Outer, Operation, done, answer, group_add, group_probe, group_probe_all, group_disable,
  group_deep_link, invite_create, invite_revoke,
}
use maxbridge.Tui.Service.Routes.{
  route_add, route_pause, route_resume, route_delete, queue_retry, queue_clear_completed,
}
use maxbridge.Tui.Service.Users.{user_block, user_unblock, user_remove, user_test, user_rename}
use maxbridge.Tui.Service.Commands.{
  parse_bool, help_text, exec, exec_parts, exec_group, exec_invite, exec_route, exec_queue,
  exec_user,
}

-- A title or a name is its first word and the others.
pub data Command : Type 0 where
  help probe_all_groups : Command
  add_group : ℤ → Text → List Text → Command
  probe_group remove_group : ℤ → Command
  link_group : Text → Text → Command
  add_invite : Text → Text → Text → Text → List Text → Command
  withdraw_invite : ℤ → Command
  add_route : ℤ → ℤ → Text → Bool → Command
  pause_route resume_route delete_route : ℤ → Command
  block_user unblock_user remove_user test_user : ℤ → Command
  rename_user : ℤ → Text → List Text → Command
  retry_job clear_jobs : ℤ → Command

abbrev print_bool : Bool → Text
print_bool true = utf8 "true"
print_bool false = utf8 "false"

abbrev pub arguments : Command → Text × List Text
arguments help = (utf8 "help", [])
arguments (add_group id title more) = (utf8 "group", utf8 "add" ∷ format_int id ∷ title ∷ more)
arguments (probe_group id) = (utf8 "group", utf8 "probe" ∷ format_int id ∷ [])
arguments probe_all_groups = (utf8 "group", utf8 "probeall" ∷ utf8 "now" ∷ [])
arguments (remove_group id) = (utf8 "group", utf8 "remove" ∷ format_int id ∷ [])
arguments (link_group bot payload) = (utf8 "group", utf8 "deeplink" ∷ bot ∷ payload ∷ [])
arguments (add_invite scope id ttl name more) =
    (utf8 "invite", utf8 "create" ∷ scope ∷ id ∷ ttl ∷ name ∷ more)
arguments (withdraw_invite id) = (utf8 "invite", utf8 "revoke" ∷ format_int id ∷ [])
arguments (add_route chat user mode ignore) =
    (utf8 "route", utf8 "add" ∷ format_int chat ∷ format_int user ∷ mode ∷ print_bool ignore ∷ [])
arguments (pause_route id) = (utf8 "route", utf8 "pause" ∷ format_int id ∷ [])
arguments (resume_route id) = (utf8 "route", utf8 "resume" ∷ format_int id ∷ [])
arguments (delete_route id) = (utf8 "route", utf8 "delete" ∷ format_int id ∷ [])
arguments (block_user id) = (utf8 "user", utf8 "block" ∷ format_int id ∷ [])
arguments (unblock_user id) = (utf8 "user", utf8 "unblock" ∷ format_int id ∷ [])
arguments (remove_user id) = (utf8 "user", utf8 "remove" ∷ format_int id ∷ [])
arguments (test_user id) = (utf8 "user", utf8 "test" ∷ format_int id ∷ [])
arguments (rename_user id name more) = (utf8 "user", utf8 "rename" ∷ format_int id ∷ name ∷ more)
arguments (retry_job id) = (utf8 "queue", utf8 "retry" ∷ format_int id ∷ [])
arguments (clear_jobs days) = (utf8 "queue", utf8 "clear-completed" ∷ format_int days ∷ [])

-- The line that the operator types.
unfoldable pub print : Command → Text
print c = let (command, words) = arguments c in join (command ∷ words) (utf8 " ")

-- Numbers are of 64 bits, and words have no white space.
abbrev pub IsTypable : Command → Type 0
IsTypable help = Unit
IsTypable probe_all_groups = Unit
IsTypable (add_group id title more) = IsInt64 id × IsWord title × All IsWord more
IsTypable (link_group bot payload) = IsWord bot × IsWord payload
IsTypable (add_invite scope id ttl name more) =
    IsWord scope × IsWord id × IsWord ttl × IsWord name × All IsWord more
IsTypable (add_route chat user mode ignore) = IsInt64 chat × IsInt64 user × IsWord mode
IsTypable (rename_user id name more) = IsInt64 id × IsWord name × All IsWord more
IsTypable (probe_group id) = IsInt64 id
IsTypable (remove_group id) = IsInt64 id
IsTypable (withdraw_invite id) = IsInt64 id
IsTypable (pause_route id) = IsInt64 id
IsTypable (resume_route id) = IsInt64 id
IsTypable (delete_route id) = IsInt64 id
IsTypable (block_user id) = IsInt64 id
IsTypable (unblock_user id) = IsInt64 id
IsTypable (remove_user id) = IsInt64 id
IsTypable (test_user id) = IsInt64 id
IsTypable (retry_job id) = IsInt64 id
IsTypable (clear_jobs days) = IsInt64 days

abbrev sentence : Text → List Text → Text
sentence word more = join (word ∷ more) (utf8 " ")

-- What the documentation means by each command.
unfoldable pub perform : {W : Type 0} (outer : Outer W) → Command → Operation outer
perform outer help = answer outer (done help_text)
perform outer (add_group id title more) = group_add outer id (sentence title more)
perform outer (probe_group id) = group_probe outer id
perform outer probe_all_groups = group_probe_all outer
perform outer (remove_group id) = group_disable outer id
perform outer (link_group bot payload) = group_deep_link outer bot payload
perform outer (add_invite scope id ttl name more) =
    invite_create outer scope id ttl (sentence name more)
perform outer (withdraw_invite id) = invite_revoke outer id
perform outer (add_route chat user mode ignore) = route_add outer chat user mode ignore
perform outer (pause_route id) = route_pause outer id
perform outer (resume_route id) = route_resume outer id
perform outer (delete_route id) = route_delete outer id
perform outer (block_user id) = user_block outer id
perform outer (unblock_user id) = user_unblock outer id
perform outer (remove_user id) = user_remove outer id
perform outer (test_user id) = user_test outer id
perform outer (rename_user id name more) = user_rename outer id (sentence name more)
perform outer (retry_job id) = queue_retry outer id
perform outer (clear_jobs days) = queue_clear_completed outer days

IsDigit-IsSolid : (s : Text) → All IsDigit s → All IsSolid s
IsDigit-IsSolid [] h = tt
IsDigit-IsSolid (c ∷ s) h = (omega arith, IsDigit-IsSolid s h.1)

format_nat-IsWord : (n : ℕ) → IsWord (format_nat n)
format_nat-IsWord n =
    let (d, t, e, digit) = format_nat-cons n in
    rw e (IsDigit-IsSolid (d ∷ t) (rw e at (format_nat-IsDigit n)))

format_int-IsWord : (n : ℤ) → IsWord (format_int n)
unfolding format_int
format_int-IsWord (pos n) = format_nat-IsWord n
format_int-IsWord (negsuc n) = (omega arith, IsDigit-IsSolid _ (format_nat-IsDigit (suc n)))

arguments-IsWord : (c : Command) → IsTypable c → IsWord (arguments c).0 × All IsWord (arguments c).1
arguments-IsWord help h = (omega arith, tt)
arguments-IsWord probe_all_groups h = (omega arith, (omega arith, (omega arith, tt)))
arguments-IsWord (add_group id title more) h =
    (omega arith, (omega arith, (format_int-IsWord id, (h.1, h.2))))
arguments-IsWord (link_group bot payload) h = (omega arith, (omega arith, (h.0, (h.1, tt))))
arguments-IsWord (add_invite scope id ttl name more) h =
    (omega arith, (omega arith, (h.0, (h.1, (h.2, (h.3, h.4))))))
arguments-IsWord (add_route chat user mode true) h = (
  omega arith,
  (omega arith, (format_int-IsWord chat, (format_int-IsWord user, (h.2, (omega arith, tt))))),
)
arguments-IsWord (add_route chat user mode false) h = (
  omega arith,
  (omega arith, (format_int-IsWord chat, (format_int-IsWord user, (h.2, (omega arith, tt))))),
)
arguments-IsWord (rename_user id name more) h =
    (omega arith, (omega arith, (format_int-IsWord id, (h.1, h.2))))
arguments-IsWord (probe_group id) h = (omega arith, (omega arith, (format_int-IsWord id, tt)))
arguments-IsWord (remove_group id) h = (omega arith, (omega arith, (format_int-IsWord id, tt)))
arguments-IsWord (withdraw_invite id) h = (omega arith, (omega arith, (format_int-IsWord id, tt)))
arguments-IsWord (pause_route id) h = (omega arith, (omega arith, (format_int-IsWord id, tt)))
arguments-IsWord (resume_route id) h = (omega arith, (omega arith, (format_int-IsWord id, tt)))
arguments-IsWord (delete_route id) h = (omega arith, (omega arith, (format_int-IsWord id, tt)))
arguments-IsWord (block_user id) h = (omega arith, (omega arith, (format_int-IsWord id, tt)))
arguments-IsWord (unblock_user id) h = (omega arith, (omega arith, (format_int-IsWord id, tt)))
arguments-IsWord (remove_user id) h = (omega arith, (omega arith, (format_int-IsWord id, tt)))
arguments-IsWord (test_user id) h = (omega arith, (omega arith, (format_int-IsWord id, tt)))
arguments-IsWord (retry_job id) h = (omega arith, (omega arith, (format_int-IsWord id, tt)))
arguments-IsWord (clear_jobs id) h = (omega arith, (omega arith, (format_int-IsWord id, tt)))

exec_parts-arguments :
    {W : Type 0} (outer : Outer W) (c : Command)
    → IsTypable c
    → exec_parts outer ((arguments c).0 ∷ (arguments c).1) ≡ perform outer c
unfolding perform exec_parts exec_group exec_invite exec_route exec_queue exec_user ◌==ᵗ◌
exec_parts-arguments outer help h = refl
exec_parts-arguments outer probe_all_groups h = refl
exec_parts-arguments outer (add_group id title more) h = rw (parse_int-format_int id h.0)
exec_parts-arguments outer (link_group bot payload) h = refl
exec_parts-arguments outer (add_invite scope id ttl name more) h = refl
exec_parts-arguments outer (add_route chat user mode true) h =
    rw (parse_int-format_int chat h.0, parse_int-format_int user h.1) (unfold parse_bool in refl)
exec_parts-arguments outer (add_route chat user mode false) h =
    rw (parse_int-format_int chat h.0, parse_int-format_int user h.1) (unfold parse_bool in refl)
exec_parts-arguments outer (rename_user id name more) h = rw (parse_int-format_int id h.0)
exec_parts-arguments outer (probe_group id) h = rw (parse_int-format_int id h)
exec_parts-arguments outer (remove_group id) h = rw (parse_int-format_int id h)
exec_parts-arguments outer (withdraw_invite id) h = rw (parse_int-format_int id h)
exec_parts-arguments outer (pause_route id) h = rw (parse_int-format_int id h)
exec_parts-arguments outer (resume_route id) h = rw (parse_int-format_int id h)
exec_parts-arguments outer (delete_route id) h = rw (parse_int-format_int id h)
exec_parts-arguments outer (block_user id) h = rw (parse_int-format_int id h)
exec_parts-arguments outer (unblock_user id) h = rw (parse_int-format_int id h)
exec_parts-arguments outer (remove_user id) h = rw (parse_int-format_int id h)
exec_parts-arguments outer (test_user id) h = rw (parse_int-format_int id h)
exec_parts-arguments outer (retry_job id) h = rw (parse_int-format_int id h)
exec_parts-arguments outer (clear_jobs id) h = rw (parse_int-format_int id h)

-- Every command of the help text, typed as it is documented, with numbers of 64 bits and words
-- without white space, performs its operation.
pub exec-print :
    {W : Type 0} (outer : Outer W) (c : Command)
    → IsTypable c
    → exec outer (print c) ≡ perform outer c
unfolding exec print
exec-print outer c h =
    let (word, more) = arguments-IsWord c h in
    ap (exec_parts outer) (fields-join (arguments c).0 (arguments c).1 word more)
    ∙ exec_parts-arguments outer c h
