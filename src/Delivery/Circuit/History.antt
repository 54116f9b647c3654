-- ===== src/Delivery/Circuit/History.antt =====
-- The circuit breaker of internal/delivery/circuit.go as a function of what has happened to it.
use maxbridge.Prelude.{
  ℕ, suc, ◌+◌, ◌%◌, ◌≤◌, ◌<◌, ◌≡◌, refl, sym, ap, ◌∙◌, subst, inl, inr, List, [], ◌∷◌, arith, ltb,
  leb, ◌==◌, if◌then◌else◌, leb→le, Bool-cases, length,
}
use native.Mathlib.Nat.{suc-mod, mod-eq_of_lt, mod_self, mod-lt}
use maxbridge.Storage.Tables.{Time}
use maxbridge.Delivery.Circuit.{
  CircuitBreaker, Outcome, succeeded, failed_at, new_circuit_breaker, allow, mark_success,
  mark_failure, after,
}

-- The times of the failures since the last success, the latest first.
unfoldable pub streak : List Outcome → List Time
streak [] = []
streak (succeeded ∷ history) = []
streak (failed_at now ∷ history) = now ∷ streak history

-- Every `threshold`-th failure of a streak opens the breaker for `cooldown`; the latest counts.
unfoldable pub open_until : ℕ → ℕ → List Time → Time
open_until threshold cooldown [] = 0
open_until threshold cooldown (now ∷ earlier) =
    if suc (length earlier) % threshold == 0
    then now + cooldown
    else open_until threshold cooldown earlier

full_count :
    (n c threshold : ℕ)
    → c ≡ n % threshold
    → 0 < threshold
    → threshold ≤ suc c
    → suc n % threshold ≡ 0
full_count n c threshold e h full =
    let below : n % threshold < threshold = mod-lt n h in
    let exact : suc (n % threshold) ≡ threshold = omega arith in
    suc-mod n threshold ∙ ap (λ x. x % threshold) exact ∙ mod_self threshold

next_count : (n c threshold : ℕ) → c ≡ n % threshold → suc c < threshold → suc n % threshold ≡ suc c
next_count n c threshold e h =
    suc-mod n threshold ∙ ap (λ x. suc x % threshold) (sym e) ∙ mod-eq_of_lt h

module _ (threshold cooldown : ℕ) where
  abbrev state : List Outcome → CircuitBreaker
  state history = after (new_circuit_breaker threshold cooldown) history

  abbrev IsState : List Outcome → CircuitBreaker → Type 0
  IsState history c =
      (c.threshold ≡ threshold)
      × (c.cooldown ≡ cooldown)
      × (c.consecutive_failures ≡ length (streak history) % threshold)
      × (c.open_until ≡ open_until threshold cooldown (streak history))

  new-IsState : 0 < threshold → IsState [] (new_circuit_breaker threshold cooldown)
  unfolding new_circuit_breaker streak open_until
  new-IsState h = (refl, refl, sym (mod-eq_of_lt h), refl)

  mark_success-IsState :
      (history : List Outcome) (c : CircuitBreaker)
      → 0 < threshold
      → IsState history c
      → IsState (succeeded ∷ history) (mark_success c)
  unfolding mark_success streak open_until
  mark_success-IsState history c h (t, d, n, o) = (t, d, sym (mod-eq_of_lt h), refl)

  mark_failure-IsState :
      (now : Time) (history : List Outcome) (c : CircuitBreaker)
      → 0 < threshold
      → IsState history c
      → IsState (failed_at now ∷ history) (mark_failure now c)
  unfolding mark_failure streak open_until
  mark_failure-IsState now history c h (t, d, n, o) =
      let size = length (streak history) in
      elim (Bool-cases (leb c.threshold (suc c.consecutive_failures))) [
        | inl full ↦
            let reached = leb→le c.threshold (suc c.consecutive_failures) full in
            let e =
              full_count size c.consecutive_failures threshold n h
                (subst (λ x. x ≤ suc c.consecutive_failures) t reached) in
            ground (arith, e, full)
        | inr short ↦
            let e = next_count size c.consecutive_failures threshold n (ground arith) in
            ground (arith, e, short)
      ]

  after-IsState : (history : List Outcome) → 0 < threshold → IsState history (state history)
  unfolding after
  after-IsState [] h = new-IsState h
  after-IsState (succeeded ∷ history) h =
      mark_success-IsState history (state history) h (after-IsState history h)
  after-IsState (failed_at now ∷ history) h =
      mark_failure-IsState now history (state history) h (after-IsState history h)

  -- Whatever was reported to a breaker with a positive threshold, it counts the failures since the
  -- last success modulo the threshold, and Allow refuses exactly until the cooldown after the latest
  -- failure that completed a run of `threshold` of them.
  pub circuit_breaker_lem :
      (history : List Outcome) (now : Time)
      → 0 < threshold
      → (state history).consecutive_failures ≡ length (streak history) % threshold
        × (allow now (state history) ≡ ltb (open_until threshold cooldown (streak history)) now)
  unfolding allow
  circuit_breaker_lem history now h =
      let (t, d, n, o) = after-IsState history h in (n, ap (λ x. ltb x now) o)
