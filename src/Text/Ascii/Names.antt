-- ===== src/Text/Ascii/Names.antt =====
-- `filepath.Base` gives one element of a path, which `strings.TrimSpace` keeps free of slashes.
use maxbridge.Prelude.{
  ℕ, zero, suc, ◌-◌, ◌≡◌, refl, ◌⊎◌, inl, inr, false, [], ◌∷◌, ◌==◌, Bool-cases, All,
}
use mathlib.Core.List.{reverse}
use maxbridge.Text.{Text, utf8, skip, trim_space, space_width, last_width}
use maxbridge.Text.Ascii.{drop_slashes, until_slash, last_element, base}
use maxbridge.Text.Fields.Plain.{All-reverse_aux}

abbrev pub NotSlash : ℕ → Type 0
NotSlash c = (c == 47) ≡ false

skip-All : (P : ℕ → Type 0) (width : Text → ℕ) (n : ℕ) (s : Text) → All P s → All P (skip width n s)
unfolding skip
skip-All P width n [] h = tt
skip-All P width (suc n) (c ∷ s) h = skip-All P width n s h.1
skip-All P width zero (c ∷ s) h = elim (Bool-cases (width (c ∷ s) == 0)) [
  | inl stop ↦ rw stop h
  | inr more ↦ rw more (skip-All P width (width (c ∷ s) - 1) s h.1)
]

pub trim_space-All : (P : ℕ → Type 0) (s : Text) → All P s → All P (trim_space s)
unfolding trim_space
trim_space-All P s h =
    let front = skip space_width 0 s in
    let back = skip last_width 0 (reverse front) in
    let kept = skip-All P space_width 0 s h in
    let turned = All-reverse_aux P front [] kept tt in
    All-reverse_aux P back [] (skip-All P last_width 0 (reverse front) turned) tt

until_slash-NotSlash : (s : Text) → All NotSlash (until_slash s)
unfolding until_slash
until_slash-NotSlash [] = tt
until_slash-NotSlash (c ∷ s) = elim (Bool-cases (c == 47)) [
  | inl slash ↦ rw slash tt
  | inr other ↦ rw other (other, until_slash-NotSlash s)
]

-- The name of the root is the only one with a slash.
abbrev pub IsName : Text → Type 0
IsName s = (s ≡ utf8 "/") ⊎ All NotSlash s

last_element-IsName : (s : Text) → All NotSlash s → IsName (last_element s)
unfolding last_element
last_element-IsName [] h = inl refl
last_element-IsName (c ∷ s) h = inr (All-reverse_aux NotSlash (c ∷ s) [] h tt)

pub base-IsName : (s : Text) → IsName (base s)
unfolding base
base-IsName [] = inr (refl, tt)
base-IsName (c ∷ s) =
    let rest = drop_slashes (reverse (c ∷ s)) in
    last_element-IsName (until_slash rest) (until_slash-NotSlash rest)
