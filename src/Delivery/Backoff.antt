-- ===== src/Delivery/Backoff.antt =====
-- internal/delivery/backoff.go. The jitter is a `float64` between 0.8 and 1.2, so it is a whole
-- number of 2^-53: that number is the argument. The product with a power of two is exact, and the
-- conversion to `time.Duration` drops its fraction.
use native.Mathlib.Nat.{pow-le-pow_right, pow-suc}
use maxbridge.Prelude.{
  ℕ, suc, ◌+◌, ◌*◌, ◌/◌, ◌^◌, ◌≤◌, ◌<◌, ◌≡◌, refl, sym, subst, ◌⊎◌, inl, inr, arith, ltb,
  if◌then◌else◌,
}
use maxbridge.Storage.Tables.{second}

abbrev pub unit : ℕ
unit = 2 ^ 53

-- From the double nearest 0.8 to the sum of the doubles nearest 0.8 and 0.4.
abbrev pub IsJitter : ℕ → Type 0
IsJitter jitter = (7205759403792794 ≤ jitter) × (jitter ≤ 10808639105689192)

abbrev pub clamp : ℕ → ℕ
clamp attempt = if ltb attempt 1 then 1 else if ltb 8 attempt then 8 else attempt

-- math.Min(base, 300)
abbrev pub capped : ℕ → ℕ
capped n = if ltb 300 n then 300 else n

unfoldable pub next_backoff : ℕ → ℕ → ℕ
next_backoff attempt jitter = capped (2 ^ clamp attempt) * jitter / unit * second

abbrev seconds : ℕ → ℕ → ℕ
seconds n jitter = capped (2 ^ n) * jitter / unit

-- Between four fifths, rounded down, and six fifths of 2^n.
abbrev IsNear : ℕ → ℕ → Type 0
IsNear n s = (4 * 2 ^ n ≤ 5 * s + 4) × (5 * s ≤ 6 * 2 ^ n)

module _ (jitter : ℕ) (h : IsJitter jitter) where
  abbrev At : ℕ → Type 0
  At n = IsNear n (seconds n jitter)

  seconds-IsNear : (n : ℕ) → 1 ≤ n → n ≤ 8 → At n
  seconds-IsNear n low high =
      let cases : (n ≡ 1) ⊎ (n ≡ 2) ⊎ (n ≡ 3) ⊎ (n ≡ 4) ⊎ (n ≡ 5) ⊎ (n ≡ 6) ⊎ (n ≡ 7) ⊎ (n ≡ 8) =
        omega arith in
      elim cases [
        | inl e ↦ subst At (sym e) (omega arith, omega arith)
        | inr (inl e) ↦ subst At (sym e) (omega arith, omega arith)
        | inr (inr (inl e)) ↦ subst At (sym e) (omega arith, omega arith)
        | inr (inr (inr (inl e))) ↦ subst At (sym e) (omega arith, omega arith)
        | inr (inr (inr (inr (inl e)))) ↦ subst At (sym e) (omega arith, omega arith)
        | inr (inr (inr (inr (inr (inl e))))) ↦ subst At (sym e) (omega arith, omega arith)
        | inr (inr (inr (inr (inr (inr (inl e)))))) ↦ subst At (sym e) (omega arith, omega arith)
        | inr (inr (inr (inr (inr (inr (inr e)))))) ↦ subst At (sym e) (omega arith, omega arith)
      ]

-- The delay is a whole number of seconds between four fifths, rounded down, and six fifths of 2 to
-- the attempt, where attempts below 1 count as 1 and attempts above 8 as 8.
pub next_backoff_range :
    (attempt jitter : ℕ)
    → IsJitter jitter
    → (s : ℕ) × (next_backoff attempt jitter ≡ s * second)
      × (4 * 2 ^ clamp attempt ≤ 5 * s + 4)
      × (5 * s ≤ 6 * 2 ^ clamp attempt)
unfolding next_backoff
next_backoff_range attempt jitter h =
    let n = clamp attempt in
    let near = seconds-IsNear jitter h n (ground arith) (ground arith) in
    (seconds n jitter, refl, near.0, near.1)

-- A later attempt waits strictly longer than an earlier one, whatever the two jitters, up to the
-- eighth attempt.
pub next_backoff_grows :
    (a b jitter jitter' : ℕ)
    → 1 ≤ a
    → a < b
    → b ≤ 8
    → IsJitter jitter
    → IsJitter jitter'
    → next_backoff a jitter < next_backoff b jitter'
next_backoff_grows a b jitter jitter' low less high h h' =
    let (s, e, _, above) = next_backoff_range a jitter h in
    let (s', e', below, _) = next_backoff_range b jitter' h' in
    let at_a : clamp a ≡ a = ground arith in
    let at_b : clamp b ≡ b = ground arith in
    let above' = subst (λ n. 5 * s ≤ 6 * 2 ^ n) at_a above in
    let below' = subst (λ n. 4 * 2 ^ n ≤ 5 * s' + 4) at_b below in
    let positive : 2 ≤ 2 ^ a = pow-le-pow_right {n = 2} (omega arith) low in
    let doubled : 2 ^ suc a ≤ 2 ^ b = pow-le-pow_right {n = 2} (omega arith) less in
    let twice : 2 ^ suc a ≡ 2 ^ a * 2 = pow-suc 2 a in
    let longer : s < s' = omega arith in omega arith
