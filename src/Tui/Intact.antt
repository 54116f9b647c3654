-- ===== src/Tui/Intact.antt =====
-- internal/tui/model.go: the indices and the pointers of the interface's state, under the keys of
-- Tui/Browse.
pub mod Entry
pub mod Reachable
use maxbridge.Prelude.{
  inr, length-map, ◌∙◌, map, ℕ, zero, suc, ◌-◌, ◌≤◌, ◌<◌, ◌≡◌, refl, ◌⊎◌, inl, Bool, true, false,
  none, some, List, [], ◌∷◌, arith, is_some, length,
}
use maxbridge.Tui.Menu.{FormField, MenuAction, ListEntry}
use maxbridge.Tui.Model.{mode_actions, UiMode, mode_sections, mode_rows, Model, Key, new_model}
use maxbridge.Tui.Steps.{prefill, start_action, Outcome, get_elem?}
use maxbridge.Tui.Browse.{update_rows, update_actions, update_sections}
use maxbridge.Text.{Text}
use maxbridge.Storage.Tables.{Time}

-- The modes that show, or come back to, an entry of the list.
abbrev pub needs_rows : UiMode → Bool
needs_rows mode_sections = false
needs_rows mode_rows = false
needs_rows _ = true

-- Every index is within its list, a form has a value for each field, and the picker of a user knows
-- the group. Truncated subtraction: the index of an empty list is 0.
pub record IsIntact (m : Model) : Type 0 where
  pub section_in_range : m.index < length m.sections
  pub row_in_range : m.row_index ≤ length m.rows - 1
  pub entry_shown : needs_rows m.mode ≡ true → 0 < length m.rows
  pub action_in_range : m.action_index ≤ length m.actions - 1
  pub values_match : length m.form.values ≡ length m.form.fields
  pub group_known : (m.route_add.stage ≡ 0) ⊎ (is_some m.route_add.selected_group ≡ true)

-- No panic, and the new state is intact.
abbrev pub StaysIntact : Outcome → Type 0
StaysIntact none = ⊥
StaysIntact (some r) = IsIntact r.0

pub new_model-IsIntact : IsIntact new_model
unfolding new_model
new_model-IsIntact = record {
  section_in_range = omega arith;
  row_in_range = omega arith;
  entry_shown = λ h. cc;
  action_in_range = omega arith;
  values_match = refl;
  group_known = inl refl;
}

pub get_elem?-lt {ℓ} :
    {A : Type ℓ} (xs : List A) (i : ℕ) → i < length xs → (a : A) × (get_elem? xs i ≡ some a)
get_elem?-lt [] i h = absurd (omega arith)
get_elem?-lt (x ∷ xs) zero h = (x, refl)
get_elem?-lt (x ∷ xs) (suc i) h = get_elem?-lt xs i (omega arith)

-- An index that is clamped to a list points to an entry, unless the list is empty.
pub clamped-cases {ℓ} :
    {A : Type ℓ} (xs : List A) (i : ℕ)
    → i ≤ length xs - 1
    → (length xs ≡ 0) ⊎ ((0 < length xs) × ((a : A) × (get_elem? xs i ≡ some a)))
clamped-cases [] i h = inl refl
clamped-cases (x ∷ xs) i h = inr (omega arith, get_elem?-lt (x ∷ xs) i (omega arith))

pub update_sections-IsIntact :
    (key : Key) (m : Model)
    → IsIntact m
    → m.mode ≡ mode_sections
    → StaysIntact (update_sections key m)
unfolding update_sections
update_sections-IsIntact key m h e =
    let (s, got) = get_elem?-lt m.sections m.index h.section_in_range in ground (arith, got)

module _ (format_time : Time → Text) where
  length-prefill :
      (id : Text) (entry : ListEntry) (vs : List Text)
      → length (prefill format_time id entry vs) ≡ length vs
  length-prefill id entry [] = refl
  length-prefill id entry (v ∷ vs) = ground arith

  start_action-IsIntact :
      (act : MenuAction) (entry : ListEntry) (m : Model)
      → IsIntact m
      → 0 < length m.rows
      → StaysIntact (start_action format_time act entry m)
  unfolding start_action
  start_action-IsIntact act entry m h rows =
      let n =
        length-prefill act.id entry (map (λ f. f.default_val) act.fields)
        ∙ length-map (λ (f : FormField). f.default_val) act.fields in
      ground (arith, n)

  pub update_rows-IsIntact :
      (key : Key) (m : Model)
      → IsIntact m
      → m.mode ≡ mode_rows
      → StaysIntact (update_rows format_time key m)
  unfolding update_rows
  update_rows-IsIntact key m h e = elim (clamped-cases m.rows m.row_index h.row_in_range) [
    | inl empty ↦ ground (arith, empty)
    | inr (some_rows, (entry, got)) ↦
        ground (arith, got, start_action-IsIntact entry.action entry m h some_rows)
  ]

  pub update_actions-IsIntact :
      (key : Key) (m : Model)
      → IsIntact m
      → m.mode ≡ mode_actions
      → StaysIntact (update_actions format_time key m)
  unfolding update_actions
  update_actions-IsIntact key m h e =
      let rows : 0 < length m.rows = h.entry_shown (ground (arith, e)) in
      let (entry, got) = get_elem?-lt m.rows m.row_index (omega (arith, rows, h.row_in_range)) in
      elim (clamped-cases m.actions m.action_index h.action_in_range) [
        | inl empty ↦ ground (arith, empty)
        | inr (_, (act, found)) ↦
            ground (arith, got, found, start_action-IsIntact act entry m h rows)
      ]
