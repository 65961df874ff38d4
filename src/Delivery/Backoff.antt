-- ===== src/Delivery/Backoff.antt =====
-- `DeliveryService._retry_delay` and `_is_due` of src/pipeline/delivery.py.
--
-- Delays are numbers of one unit, of which the settings are multiples; the source has seconds as
-- floats. `random.uniform` is a parameter, given by its three uses.
pub mod Bounds
use backup_telebot.Prelude.{
  ℕ, zero, suc, ◌/◌, ◌+◌, ◌-◌, ◌*◌, ◌^◌, ◌≤◌, ◌<◌, ◌≡◌, ◌⊎◌, refl, Bool, true, false, Option, none,
  some, arith, ltb, leb, ◌==◌, ◌&&◌, not, min, max, if◌then◌else◌,
}

pub record Policy : Type 0 where
  pub max_bytes : ℕ
  pub max_attempts : ℕ
  pub retry_base : ℕ
  pub retry_max : ℕ
  pub retry_jitter : ℕ

-- A draw of the random source: `uniform(0, n)`, minus `uniform(-n, 0)`, and `uniform(n, 0)`.
pub record Jitter : Type 0 where
  pub above : ℕ → ℕ
  pub below : ℕ → ℕ
  pub back : ℕ → ℕ

-- `random.uniform` stays between its bounds.
pub record IsUniform (j : Jitter) : Type 0 where
  pub above_le : (n : ℕ) → j.above n ≤ n
  pub below_le : (n : ℕ) → j.below n ≤ n
  pub back_le : (n : ℕ) → j.back n ≤ n

-- `min(retry_max, retry_base * 2 ** min(attempts - 1, 30))`; before any attempt the exponent is -1, and the
-- unit is one of which the base is an even multiple.
unfoldable pub capped_delay : Policy → ℕ → ℕ
capped_delay p zero = min p.retry_max (p.retry_base / 2)
capped_delay p (suc attempts) = min p.retry_max (p.retry_base * 2 ^ min attempts 30)

-- `delay` with its jitter. Below the cap it is added, within the room that the cap leaves; at the
-- cap it is taken away, but not below the base. A base above the cap makes that limit negative.
unfoldable pub jittered : Policy → Jitter → ℕ → ℕ
jittered p j delay =
    if not (min p.retry_jitter (p.retry_max - delay) == 0)
    then delay + j.above (min p.retry_jitter (p.retry_max - delay))
    else if (delay == p.retry_max) && not (p.retry_jitter == 0)
    then if leb p.retry_base delay
      then delay - j.below (min p.retry_jitter (delay - p.retry_base))
      else delay + j.back (p.retry_base - delay)
    else delay

abbrev at_least : Option ℕ → ℕ → ℕ
at_least none delay = delay
at_least (some flood_wait) delay = max delay flood_wait

-- _retry_delay
unfoldable pub retry_delay : Policy → Jitter → ℕ → Option ℕ → ℕ
unfolding jittered capped_delay
retry_delay p j attempts flood_wait = at_least flood_wait (jittered p j (capped_delay p attempts))

-- _is_due
abbrev pub is_due : Option ℕ → ℕ → Bool
is_due none now = true
is_due (some due) now = leb due now
