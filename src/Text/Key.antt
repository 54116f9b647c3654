-- ===== src/Text/Key.antt =====
-- Numbers joined by a separator can be told apart: the text before the first separator is printed
-- digits, which do not hold it.
use maxbridge.Prelude.{suc}
use maxbridge.Prelude.{
  ◌≡◌, refl, sym, ap, ◌∙◌, false, [], ◌∷◌, ◌++◌, arith, ◌==◌, if◌then◌else◌, All, ℤ, pos, negsuc,
}
use maxbridge.Text.{Text}
use maxbridge.Text.Decimal.{
  format_nat, format_int, parse_int, IsInt64, IsDigit, format_nat-IsDigit, parse_int-format_int,
}

-- What stands before the first `:`.
before : Text → Text
before [] = []
before (c ∷ s) = let rest = before s in if c == b':' then [] else c ∷ rest

-- What stands behind it.
behind : Text → Text
behind [] = []
behind (c ∷ s) = let rest = behind s in if c == b':' then s else rest

abbrev IsPlain : Text → Type 0
IsPlain = All (λ c. (c == b':') ≡ false)

before-append : (s t : Text) → IsPlain s → before (s ++ b':' ∷ t) ≡ s
unfolding before
before-append [] t h = refl
before-append (c ∷ s) t h = rw (h.0, before-append s t h.1)

behind-append : (s t : Text) → IsPlain s → behind (s ++ b':' ∷ t) ≡ t
unfolding behind
behind-append [] t h = refl
behind-append (c ∷ s) t h = rw h.0 (behind-append s t h.1)

digits-IsPlain : (s : Text) → All IsDigit s → IsPlain s
digits-IsPlain [] h = tt
digits-IsPlain (c ∷ s) h = (ground arith, digits-IsPlain s h.1)

format_int-IsPlain : (n : ℤ) → IsPlain (format_int n)
unfolding format_int
format_int-IsPlain (pos n) = digits-IsPlain (format_nat n) (format_nat-IsDigit n)
format_int-IsPlain (negsuc n) =
    (refl, digits-IsPlain (format_nat (suc n)) (format_nat-IsDigit (suc n)))

pub format_int-injective : (a b : ℤ) → IsInt64 a → IsInt64 b → format_int a ≡ format_int b → a ≡ b
format_int-injective a b ha hb e =
    cc (ap parse_int e, parse_int-format_int a ha, parse_int-format_int b hb)

-- The number before the separator, and the rest, can be read off.
pub prefix_injective :
    (a b : ℤ) (s t : Text)
    → IsInt64 a
    → IsInt64 b
    → format_int a ++ b':' ∷ s ≡ format_int b ++ b':' ∷ t
    → (a ≡ b) × (s ≡ t)
prefix_injective a b s t ha hb e = (
  format_int-injective a b ha hb (
      sym (before-append (format_int a) s (format_int-IsPlain a))
      ∙ ap before e
      ∙ before-append (format_int b) t (format_int-IsPlain b)),
  sym (behind-append (format_int a) s (format_int-IsPlain a))
      ∙ ap behind e
      ∙ behind-append (format_int b) t (format_int-IsPlain b),
)
