-- ===== src/Delivery/Backoff/Bounds.antt =====
-- Bounds on the delay before a delivery is tried again.
use native.Mathlib.Nat.{one-le-pow}
use backup_telebot.Prelude.{zero, suc, ℕ, ◌-◌, ◌*◌, ◌^◌, ◌≤◌, none, some, arith, min, max}
use backup_telebot.Delivery.Backoff.{Policy, Jitter, IsUniform, capped_delay, jittered, retry_delay}

le_mul_one : (a k : ℕ) → 1 ≤ k → a ≤ a * k
le_mul_one a k h = grind arith

capped_delay_bounds :
    (p : Policy) (attempts : ℕ)
    → 1 ≤ attempts
    → p.retry_base ≤ p.retry_max
    → (p.retry_base ≤ capped_delay p attempts) × (capped_delay p attempts ≤ p.retry_max)
unfolding capped_delay
capped_delay_bounds p zero k h = absurd (omega (arith, k))
capped_delay_bounds p (suc attempts) k h = omega (
  arith,
  le_mul_one p.retry_base (2 ^ min attempts 30) (one-le-pow (min attempts 30) 2 (omega arith)),
)

jittered_bounds :
    (p : Policy) (j : Jitter) (delay : ℕ)
    → IsUniform j
    → p.retry_base ≤ delay
    → delay ≤ p.retry_max
    → (p.retry_base ≤ jittered p j delay) × (jittered p j delay ≤ p.retry_max)
unfolding jittered
jittered_bounds p j delay u low high = ground (
  arith,
  u.above_le (min p.retry_jitter (p.retry_max - delay)),
  u.below_le (min p.retry_jitter (delay - p.retry_base)),
)

-- Where the base is within the cap, and one attempt was made at least, the delay before the next one is
-- never shorter than the base nor than the flood wait that Telegram asked for, and never longer than the
-- cap or that wait, whatever the number of attempts and the jitter.
pub retry_delay_bounds :
    (p : Policy) (j : Jitter) (attempts wait : ℕ)
    → IsUniform j
    → p.retry_base ≤ p.retry_max
    → 1 ≤ attempts
    → (p.retry_base ≤ retry_delay p j attempts none)
      × (retry_delay p j attempts none ≤ p.retry_max)
      × (p.retry_base ≤ retry_delay p j attempts (some wait))
      × (wait ≤ retry_delay p j attempts (some wait))
      × (retry_delay p j attempts (some wait) ≤ max p.retry_max wait)
unfolding retry_delay
retry_delay_bounds p j attempts wait u h k =
    let b = capped_delay_bounds p attempts k h in
    omega (arith, jittered_bounds p j (capped_delay p attempts) u b.0 b.1)
