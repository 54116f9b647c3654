-- ===== src/Tui/Intact/Entry.antt =====
-- internal/tui/model.go: the indices and the pointers under the keys of Tui/Entry.
use maxbridge.Tui.Entry.{
  type_form, erase_form, enter_form, edit, submit, drop_last, update_form, update_confirm,
  update_route_add_picker, form_values,
}
use maxbridge.Prelude.{
  ℕ, zero, suc, ◌<◌, ◌≡◌, refl, ap, inl, inr, some, List, [], ◌∷◌, ◌++◌, arith, Option-cases,
  length,
}
use maxbridge.Tui.Intact.{get_elem?, IsIntact, StaysIntact, get_elem?-lt}
use maxbridge.Tui.Steps.{get_elem?, set}
use maxbridge.Text.{trim_space, Text}
use maxbridge.Tui.Menu.{FormField}
use maxbridge.Tui.Model.{mode_form, mode_confirm, mode_route_add_picker, Model, Key, Values}

form_values-some :
    (fs : List FormField) (vs : List Text)
    → length vs ≡ length fs
    → (values : Values) × (form_values fs vs ≡ some values)
unfolding form_values
form_values-some [] vs h = ([], refl)
form_values-some (f ∷ fs) [] h = absurd (omega (arith, h))
form_values-some (f ∷ fs) (v ∷ vs) h =
    let (rest, e) = form_values-some fs vs (omega (arith, h)) in
    ((f.key, trim_space v) ∷ rest, rw e)

length-set : (vs : List Text) (i : ℕ) (v : Text) → length (set vs i v) ≡ length vs
length-set [] i v = refl
length-set (x ∷ vs) zero v = refl
length-set (x ∷ vs) (suc i) v = ap suc (length-set vs i v)

module _ (m : Model) (h : IsIntact m) (e : m.mode ≡ mode_form) where
  submit-IsIntact : StaysIntact (submit (form_values m.form.fields m.form.values) m)
  unfolding submit
  submit-IsIntact =
      let (values, read) = form_values-some m.form.fields m.form.values h.values_match in
      let rows : 0 < length m.rows = h.entry_shown (ground (arith, e)) in
      rw read (ground (arith, rows))

  edit-IsIntact :
      (change : Text → Text)
      → m.form.index < length m.form.fields
      → StaysIntact (edit change (get_elem? m.form.values m.form.index) m)
  unfolding edit
  edit-IsIntact change inside =
      let (v, got) =
        get_elem?-lt m.form.values m.form.index (omega (arith, inside, h.values_match)) in
      rw got (ground (arith, length-set m.form.values m.form.index (change v)))

  enter_form-IsIntact : StaysIntact (enter_form m)
  unfolding enter_form
  enter_form-IsIntact =
      let rows : 0 < length m.rows = h.entry_shown (ground (arith, e)) in
      ground (arith, rows, submit-IsIntact)

  erase_form-IsIntact : StaysIntact (erase_form m)
  unfolding erase_form
  erase_form-IsIntact = ground (arith, edit-IsIntact drop_last)

  type_form-IsIntact : (key : Key) → StaysIntact (type_form key m)
  unfolding type_form
  type_form-IsIntact key = ground (arith, edit-IsIntact (λ (v : Text). v ++ key.name))

module _ (key : Key) (m : Model) (h : IsIntact m) where
  pub update_form-IsIntact : m.mode ≡ mode_form → StaysIntact (update_form key m)
  unfolding update_form
  update_form-IsIntact e =
      let rows : 0 < length m.rows = h.entry_shown (ground (arith, e)) in
      ground (
        arith,
        rows,
        enter_form-IsIntact m h e,
        erase_form-IsIntact m h e,
        type_form-IsIntact m h e key,
      )

  pub update_route_add_picker-IsIntact :
      m.mode ≡ mode_route_add_picker → StaysIntact (update_route_add_picker key m)
  unfolding update_route_add_picker
  update_route_add_picker-IsIntact e = elim (Option-cases m.route_add.selected_group) [
    | inl unknown ↦ ground (arith, e, unknown)
    | inr (group, known) ↦ ground (arith, e, known)
  ]

  pub update_confirm-IsIntact : m.mode ≡ mode_confirm → StaysIntact (update_confirm key m)
  unfolding update_confirm
  update_confirm-IsIntact e =
      let rows : 0 < length m.rows = h.entry_shown (ground (arith, e)) in ground (arith, rows)
