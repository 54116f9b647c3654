-- ===== src/Tui/Confirmed.antt =====
-- internal/tui/model.go: the actions that remove something, and what every menu offers of them.
pub mod Keys
pub mod Theorem
use maxbridge.Tui.Menu.{
  back_action_id, plain, jobs_actions, routes_actions, invites_actions, groups_actions,
  queue_actions, route_actions, invite_actions, user_actions, group_actions, ListEntry, MenuAction,
  build_row_actions, build_section_actions, with_back_action, build_entries, no_action, back_entry,
  action_entry, record_entry,
}
use maxbridge.Prelude.{
  ℕ, zero, suc, ◌≡◌, refl, Bool, true, false, not, ◌&&◌, ◌||◌, some, List, [], ◌∷◌, ◌++◌, map,
  arith, if◌then◌else◌,
}
use maxbridge.Text.{Text, utf8, ◌==ᵗ◌}
use maxbridge.Storage.Tables.{Time}
use maxbridge.Storage.Listings.{Row}
use maxbridge.Tui.Model.{Model, Cmd, exec_action, new_model}
use maxbridge.Tui.Steps.{Outcome, get_elem?}

-- The identifiers of the actions that disable a group, or delete a user, an invite, a route or jobs.
unfoldable pub is_destructive : Text → Bool
is_destructive id =
    id ==ᵗ utf8 "group_disable"
    || id ==ᵗ utf8 "user_remove"
    || id ==ᵗ utf8 "invite_revoke"
    || id ==ᵗ utf8 "route_delete"
    || id ==ᵗ utf8 "queue_clear_completed"

unfoldable pub is_safe : MenuAction → Bool
is_safe act = not (is_destructive act.id) || act.dangerous

unfoldable pub all_safe : List MenuAction → Bool
all_safe [] = true
all_safe (a ∷ as_) = is_safe a && all_safe as_

all_safe-if :
    (b : Bool) (xs ys : List MenuAction)
    → all_safe xs ≡ true
    → all_safe ys ≡ true
    → all_safe (if b then xs else ys) ≡ true
all_safe-if true xs ys hx hy = hx
all_safe-if false xs ys hx hy = hy

all_safe-append :
    (xs ys : List MenuAction) → all_safe xs ≡ true → all_safe ys ≡ true → all_safe (xs ++ ys) ≡ true
unfolding all_safe
all_safe-append [] ys hx hy = hy
all_safe-append (x ∷ xs) ys hx hy = ground (arith, hx, all_safe-append xs ys)

lists-safe :
    (all_safe group_actions ≡ true)
    × (all_safe user_actions ≡ true)
    × (all_safe invite_actions ≡ true)
    × (all_safe route_actions ≡ true)
    × (all_safe queue_actions ≡ true)
    × (all_safe groups_actions ≡ true)
    × (all_safe invites_actions ≡ true)
    × (all_safe routes_actions ≡ true)
    × (all_safe jobs_actions ≡ true)
    × (all_safe [] ≡ true)
    × (all_safe (plain back_action_id (utf8 "Назад") ∷ []) ≡ true)
unfolding all_safe is_safe is_destructive ◌==ᵗ◌
lists-safe = (refl, refl, refl, refl, refl, refl, refl, refl, refl, refl, refl)

pub row_menu-safe :
    (section : Text) → all_safe (with_back_action (build_row_actions section)) ≡ true
unfolding with_back_action build_row_actions
row_menu-safe section =
    let (groups, users, invites, routes, queue, _, _, _, _, empty, back) = lists-safe in
    all_safe-append _ _
      (all_safe-if _ _ _ groups (
        all_safe-if _ _ _ users
          (all_safe-if _ _ _ invites (all_safe-if _ _ _ routes (all_safe-if _ _ _ queue empty)))))
      back

pub section_menu-safe : (section : Text) → all_safe (build_section_actions section) ≡ true
unfolding build_section_actions
section_menu-safe section =
    let (_, _, _, _, _, groups, invites, routes, jobs, empty, _) = lists-safe in
    all_safe-if _ _ _ groups
      (all_safe-if _ _ _ invites (all_safe-if _ _ _ routes (all_safe-if _ _ _ jobs empty)))

-- The actions of the entries of a list.
unfoldable pub all_entries_safe : List ListEntry → Bool
all_entries_safe [] = true
all_entries_safe (e ∷ es) = is_safe e.action && all_entries_safe es

all_entries_safe-append :
    (xs ys : List ListEntry)
    → all_entries_safe xs ≡ true
    → all_entries_safe ys ≡ true
    → all_entries_safe (xs ++ ys) ≡ true
unfolding all_entries_safe
all_entries_safe-append [] ys hx hy = hy
all_entries_safe-append (x ∷ xs) ys hx hy = ground (arith, hx, all_entries_safe-append xs ys)

actions-entries :
    (acts : List MenuAction)
    → all_safe acts ≡ true
    → all_entries_safe (map action_entry acts) ≡ true
unfolding all_safe all_entries_safe
actions-entries [] h = refl
actions-entries (a ∷ as_) h = ground (arith, h, actions-entries as_)

pub no_action-safe : is_safe no_action ≡ true
unfolding is_safe is_destructive ◌==ᵗ◌
no_action-safe = refl

back_entry-safe : all_entries_safe (back_entry ∷ []) ≡ true
unfolding all_entries_safe
back_entry-safe = rw no_action-safe

module _ (format_time : Time → Text) where
  records-entries :
      (section : Text) (rows : List Row)
      → all_entries_safe (map (record_entry format_time section) rows) ≡ true
  unfolding all_entries_safe
  records-entries section [] = refl
  records-entries section (r ∷ rs) = rw (no_action-safe, records-entries section rs)

  pub build_entries-safe :
      (section : Text) (rows : List Row)
      → all_entries_safe (build_entries format_time section rows) ≡ true
  unfolding build_entries
  build_entries-safe section rows =
      all_entries_safe-append _ _ (records-entries section rows) (
        all_entries_safe-append _ _ (actions-entries _ (section_menu-safe section)) back_entry-safe)

pub entry-safe :
    (es : List ListEntry) (i : ℕ) {e : ListEntry}
    → all_entries_safe es ≡ true
    → get_elem? es i ≡ some e
    → is_safe e.action ≡ true
unfolding all_entries_safe
entry-safe [] i h got = cc
entry-safe (x ∷ es) zero {e} h got = ground (arith, h, got)
entry-safe (x ∷ es) (suc i) {e} h got = entry-safe es i (ground (arith, h)) got

pub action-safe :
    (as_ : List MenuAction) (i : ℕ) {a : MenuAction}
    → all_safe as_ ≡ true
    → get_elem? as_ i ≡ some a
    → is_safe a ≡ true
unfolding all_safe
action-safe [] i h got = cc
action-safe (x ∷ as_) zero {a} h got = ground (arith, h, got)
action-safe (x ∷ as_) (suc i) {a} h got = action-safe as_ i (ground (arith, h)) got
