-- ===== src/Text/Decimal.antt =====
-- strconv: `FormatInt(n, 10)` (also `%d`) and `ParseInt(s, 10, 64)`, and that they are inverse.
use maxbridge.Prelude.{
  ℕ, zero, suc, ◌+◌, ◌-◌, ◌*◌, ◌/◌, ◌%◌, ◌^◌, ◌≤◌, ◌<◌, ◌≡◌, refl, true, false, ◌&&◌, Option, none,
  some, [], ◌∷◌, arith, ltb, leb, ◌==◌, if◌then◌else◌, Bool-cases, inl, inr, All, lt→ltb, subst, ℤ,
  pos, negsuc,
}
use maxbridge.Text.{Text}

-- One digit for each round; the fuel is more than the number.
emit : ℕ → ℕ → Text → Text
emit zero n out = out
emit (suc f) n out =
    let rest = emit f (n / 10) ((b'0' + n % 10) ∷ out) in
    if ltb n 10 then (b'0' + n) ∷ out else rest

unfoldable pub format_nat : ℕ → Text
unfolding emit
format_nat n = emit (suc n) n []

unfoldable pub format_int : ℤ → Text
unfolding format_nat
format_int (pos n) = format_nat n
format_int (negsuc n) = b'-' ∷ format_nat (suc n)

-- The digits of a text, read after those that make `acc`.
scan : ℕ → Text → Option ℕ
scan acc [] = some acc
scan acc (c ∷ s) =
    let rest = scan (acc * 10 + (c - b'0')) s in if leb b'0' c && leb c b'9' then rest else none

unsigned : Text → Option ℕ
unfolding scan
unsigned [] = none
unsigned (c ∷ s) = scan 0 (c ∷ s)

abbrev below_limit : ℕ → Option ℕ → Option ℕ
below_limit limit none = none
below_limit limit (some n) = if ltb n limit then some n else none

abbrev positive : Option ℕ → Option ℤ
positive none = none
positive (some n) = some (pos n)

abbrev negated : Option ℕ → Option ℤ
negated none = none
negated (some zero) = some (pos 0)
negated (some (suc n)) = some (negsuc n)

abbrev pub int64_bound : ℕ
int64_bound = 2 ^ 63

-- A syntax error and a value out of range are both `none`.
unfoldable pub parse_int : Text → Option ℤ
unfolding unsigned
parse_int [] = none
parse_int (c ∷ s) =
    if c == b'-'
    then negated (below_limit (suc int64_bound) (unsigned s))
    else if c == b'+'
    then positive (below_limit int64_bound (unsigned s))
    else positive (below_limit int64_bound (unsigned (c ∷ s)))

abbrev pub IsInt64 : ℤ → Type 0
IsInt64 (pos n) = n < int64_bound
IsInt64 (negsuc n) = n < int64_bound

abbrev pub IsDigit : ℕ → Type 0
IsDigit c = (b'0' ≤ c) × (c ≤ b'9')

emit-IsDigit : (f n : ℕ) (out : Text) → All IsDigit out → All IsDigit (emit f n out)
unfolding emit
emit-IsDigit zero n out h = h
emit-IsDigit (suc f) n out h = elim (Bool-cases (ltb n 10)) [
  | inl t ↦ rw t ((omega arith, ground arith), h)
  | inr e ↦ rw e (emit-IsDigit f (n / 10) _ ((omega arith, omega arith), h))
]

pub format_nat-IsDigit : (n : ℕ) → All IsDigit (format_nat n)
unfolding format_nat
format_nat-IsDigit n = emit-IsDigit (suc n) n [] tt

scan-digit :
    (acc d : ℕ) (out : Text) → d < 10 → scan acc ((b'0' + d) ∷ out) ≡ scan (acc * 10 + d) out
unfolding scan
scan-digit acc d out h =
    let in_range : (leb b'0' (b'0' + d) && leb (b'0' + d) b'9') ≡ true = ground arith in
    let value : acc * 10 + (b'0' + d - b'0') ≡ acc * 10 + d = omega arith in rw (in_range, value)

scan-emit : (f n : ℕ) (out : Text) → n < f → scan 0 (emit f n out) ≡ scan n out
unfolding emit
scan-emit zero n out h = elim h [ ]
scan-emit (suc f) n out h = elim (Bool-cases (ltb n 10)) [
  | inl t ↦
      let small : n < 10 = ground arith in
      let value : 0 * 10 + n ≡ n = omega arith in rw t (rw (scan-digit 0 n out small, value))
  | inr e ↦
      let large : n / 10 < f = ground arith in
      let value : n / 10 * 10 + n % 10 ≡ n = omega arith in
      rw (e, scan-emit f (n / 10) ((b'0' + n % 10) ∷ out) large)
        (rw (scan-digit (n / 10) (n % 10) out (omega arith), value))
]

scan-format_nat : (n : ℕ) → scan 0 (format_nat n) ≡ some n
unfolding format_nat scan
scan-format_nat n = scan-emit (suc n) n [] (omega arith)

-- The digits begin with a digit.
emit-cons :
    (f n : ℕ) (c : ℕ) (s : Text)
    → IsDigit c
    → (d : ℕ) × (t : Text) × (emit f n (c ∷ s) ≡ d ∷ t) × IsDigit d
unfolding emit
emit-cons zero n c s h = (c, s, refl, h)
emit-cons (suc f) n c s h = elim (Bool-cases (ltb n 10)) [
  | inl t ↦ (b'0' + n, c ∷ s, rw t, (omega arith, ground arith))
  | inr e ↦ rw e (emit-cons f (n / 10) (b'0' + n % 10) (c ∷ s) (omega arith, omega arith))
]

pub format_nat-cons : (n : ℕ) → (d : ℕ) × (t : Text) × (format_nat n ≡ d ∷ t) × IsDigit d
unfolding format_nat emit
format_nat-cons n = elim (Bool-cases (ltb n 10)) [
  | inl t ↦ (b'0' + n, [], rw t, (omega arith, ground arith))
  | inr e ↦ rw e (emit-cons n (n / 10) (b'0' + n % 10) [] (omega arith, omega arith))
]

unsigned-format_nat : (n : ℕ) → unsigned (format_nat n) ≡ some n
unfolding unsigned
unsigned-format_nat n =
    let (d, t, e, _) = format_nat-cons n in
    rw e (subst (λ x. scan 0 x ≡ some n) e (scan-format_nat n))

parse_int-digit :
    (c : ℕ) (s : Text)
    → IsDigit c
    → parse_int (c ∷ s) ≡ positive (below_limit int64_bound (unsigned (c ∷ s)))
unfolding parse_int
parse_int-digit c s h =
    let minus : (c == b'-') ≡ false = ground arith in
    let plus : (c == b'+') ≡ false = ground arith in rw (minus, plus)

-- Reading back a printed `int64` gives the number.
pub parse_int-format_int : (n : ℤ) → IsInt64 n → parse_int (format_int n) ≡ some n
unfolding format_int parse_int
parse_int-format_int (pos n) h =
    let (d, t, e, digit) = format_nat-cons n in
    let read = subst (λ x. unsigned x ≡ some n) e (unsigned-format_nat n) in
    rw (e, parse_int-digit d t digit, read, lt→ltb n int64_bound h)
parse_int-format_int (negsuc n) h =
    rw (unsigned-format_nat (suc n), lt→ltb (suc n) (suc int64_bound) (omega arith))
