-- ===== src/Downlink/Service/Schedule.antt =====
-- When the service tries again: bounds of the delays.
use native.Mathlib.Nat.{div-lt_iff_lt-mul, mul_comm}
use z_courier.Base.{
  ℕ, zero, suc, none, inl, inr, Bool-cases, ◌≡◌, refl, ◌≤◌, ◌<◌, ◌+◌, ◌*◌, ◌/◌, ◌^◌, ltb, nat_eq, ℤ,
  pos, negsuc, pos_part, ◌+ℤ◌, int64, leb, arith,
}
use z_courier.Downlink.Message.{DeliveryPolicy, Duration, Time, Multiplier, nan, infinite, ratio}
use z_courier.Downlink.Policy.{validate_delivery_policy}
use z_courier.Downlink.Service.{limited_delay, retry_delay_for_attempt, next_retry_at, cut_jitter}

-- A duration that is not negative and at most the limit.
abbrev pub IsWithin : ℕ → ℤ → Type 0
IsWithin max d = (n : ℕ) × (d ≡ pos n) × (n ≤ max)

pub cut_jitter-IsWithin : (max : ℕ) (jitter : ℤ) → IsWithin max (cut_jitter max jitter)
unfolding cut_jitter
cut_jitter-IsWithin max (negsuc n) = (0, refl, omega arith)
cut_jitter-IsWithin max (pos n) = elim (Bool-cases (ltb max n)) [
  | inl over ↦ (max, rw over refl, omega arith)
  | inr within ↦ (n, rw within refl, ground arith)
]

-- A sum that an int64 holds is the sum.
int64-sum : (a b : ℕ) → a + b < 2 ^ 63 → int64 (pos a +ℤ pos b) ≡ pos (a + b)
unfolding int64 ◌+ℤ◌
int64-sum a b h = ground arith

quotient-le : (n d max : ℕ) → n < d * max → n / d ≤ max
quotient-le n zero max h = omega (arith, h)
quotient-le n (suc d) max h =
    let below : n / suc d < max =
      (div-lt_iff_lt-mul {k = suc d} {x = n} {y = max} (omega arith)).1
        (rw (mul_comm max (suc d)) h) in
    omega (arith, below)

initial-le :
    (p : DeliveryPolicy)
    → validate_delivery_policy p ≡ none
    → p.initial_retry_delay ≤ p.max_retry_delay
unfolding validate_delivery_policy
initial-le p valid = ground (arith, valid)

module _ (float : ℕ → Multiplier) (times : Multiplier → Multiplier → Multiplier)
    (pow : Multiplier → ℕ → Multiplier) where
  limited_delay-IsWithin :
      (initial max : Duration) (delay : Multiplier)
      → initial ≤ max
      → float max ≡ ratio (pos max) 1
      → IsWithin max (limited_delay float times pow initial max delay)
  unfolding limited_delay
  limited_delay-IsWithin initial max infinite h exact = (max, refl, omega arith)
  limited_delay-IsWithin initial max nan h exact = (max, refl, omega arith)
  limited_delay-IsWithin initial max (ratio (negsuc n) d) h exact = (initial, rw exact refl, h)
  limited_delay-IsWithin initial max (ratio (pos n) d) h exact =
      elim (Bool-cases (leb (d * max) (1 * n))) [
        | inl reached ↦ (max, rw (exact, reached) refl, omega arith)
        | inr below ↦ elim (Bool-cases (nat_eq n 0)) [
          | inl none_left ↦ (initial, rw (exact, below, none_left) refl, h)
          | inr positive ↦
              (n / d, rw (exact, below, positive) refl, quotient-le n d max (ground (arith, below)))
        ]
      ]

  -- Under a policy that passes the checks, with a largest delay that a float64 has exactly and
  -- that has with the largest jitter a sum below 2 ^ 63, the next attempt is due not before now
  -- and not after the largest delay and the largest jitter have passed, whatever the number of
  -- attempts, the product of the floats (an infinite, a negative one or none included) and the
  -- random number drawn, a negative or too large one included.
  pub next_retry_at-bounds :
      (now : Time) (p : DeliveryPolicy) (attempts : ℕ) (drawn : ℤ)
      → validate_delivery_policy p ≡ none
      → float p.max_retry_delay ≡ ratio (pos p.max_retry_delay) 1
      → p.max_retry_delay + pos_part p.retry_jitter < 2 ^ 63
      → (now
          ≤ next_retry_at float times pow now p attempts
              (cut_jitter (pos_part p.retry_jitter) drawn))
        × (next_retry_at float times pow now p attempts (cut_jitter (pos_part p.retry_jitter) drawn)
            ≤ now + (p.max_retry_delay + pos_part p.retry_jitter))
  unfolding next_retry_at retry_delay_for_attempt
  next_retry_at-bounds now p attempts drawn valid exact fits =
      let (delay, delayed, most) =
        limited_delay-IsWithin p.initial_retry_delay p.max_retry_delay
          (times (float p.initial_retry_delay) (pow p.backoff_multiplier attempts))
          (initial-le p valid) exact in
      let (jitter, jittered, random) = cut_jitter-IsWithin (pos_part p.retry_jitter) drawn in
      rw (delayed, jittered, int64-sum delay jitter (omega (arith, most, random, fits)))
        (omega arith, omega (arith, most, random))
