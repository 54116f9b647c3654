-- ===== src/Delivery/Circuit.antt =====
-- internal/delivery/circuit.go. The mutex makes each method one step; the clock is an argument, in
-- nanoseconds since the zero `time.Time`.
pub mod History
use maxbridge.Prelude.{ℕ, suc, ◌+◌, Bool, List, [], ◌∷◌, ltb, leb, if◌then◌else◌}
use maxbridge.Storage.Tables.{Time}

pub record CircuitBreaker : Type 0 where
  pub consecutive_failures : ℕ
  pub open_until : Time
  pub threshold : ℕ
  pub cooldown : ℕ

unfoldable pub new_circuit_breaker : ℕ → ℕ → CircuitBreaker
new_circuit_breaker threshold cooldown = record {
  consecutive_failures = 0;
  open_until = 0;
  threshold = threshold;
  cooldown = cooldown;
}

-- time.Now().After(c.openUntil)
unfoldable pub allow : Time → CircuitBreaker → Bool
allow now c = ltb c.open_until now

unfoldable pub mark_success : CircuitBreaker → CircuitBreaker
mark_success c = record c { consecutive_failures = 0; open_until = 0 }

unfoldable pub mark_failure : Time → CircuitBreaker → CircuitBreaker
mark_failure now c =
    let failures = suc c.consecutive_failures in
    if leb c.threshold failures
    then record c { consecutive_failures = 0; open_until = now + c.cooldown }
    else record c { consecutive_failures = failures }

-- What the worker reports to the breaker.
pub data Outcome : Type 0 where
  succeeded : Outcome
  failed_at : Time → Outcome

-- The breaker after a history that lists the latest outcome first.
unfoldable pub after : CircuitBreaker → List Outcome → CircuitBreaker
after c [] = c
after c (succeeded ∷ history) = mark_success (after c history)
after c (failed_at now ∷ history) = mark_failure now (after c history)
