-- ===== src/Text/Fields.antt =====
-- `strings.Fields` and `strings.ToUpper`.
pub mod Plain
pub mod Words
use maxbridge.Prelude.{
  ℕ, zero, suc, ◌-◌, ◌≡◌, refl, Bool, true, ◌&&◌, List, [], ◌∷◌, ◌++◌, map, ltb, leb, if◌then◌else◌,
}
use mathlib.Core.List.{reverse}
use maxbridge.Text.{Text, utf8, space_width}

abbrev flush : Text → List Text
flush [] = []
flush (c ∷ cur) = reverse (c ∷ cur) ∷ []

-- `cur` is the current field in reverse; `n` bytes of a space are still to skip.
pub split_fields : ℕ → Text → Text → List Text
split_fields n cur [] = flush cur
split_fields (suc n) cur (c ∷ s) = split_fields n cur s
split_fields zero cur (c ∷ s) = elim (space_width (c ∷ s)) [
  | zero ↦ split_fields 0 (c ∷ cur) s
  | suc w ↦ flush cur ++ split_fields w [] s
]

-- strings.Fields
unfoldable pub fields : Text → List Text
unfolding split_fields
fields s = split_fields 0 [] s

abbrev pub upper_byte : ℕ → ℕ
upper_byte c = if leb 97 c && leb c 122 then c - 32 else c

unfoldable pub is_ascii : Text → Bool
is_ascii [] = true
is_ascii (c ∷ s) = ltb c 0x80 && is_ascii s

-- strings.ToUpper, which has its own way with ASCII; `unicode_upper` is what it makes of other texts.
unfoldable pub to_upper : (Text → Text) → Text → Text
to_upper unicode_upper s = if is_ascii s then map upper_byte s else unicode_upper s

splits : fields (utf8 " /link\u{2003}MB-1 \n") ≡ utf8 "/link" ∷ utf8 "MB-1" ∷ []
unfolding fields space_width
splits = refl
