-- ===== src/Protocol/Words.antt =====
-- Numbers of 16, 32 and 64 bits, written and read back.
use z_courier.Base.{ℕ, ◌+◌, ◌*◌, ◌/◌, ◌%◌, ◌^◌, ◌≡◌, ◌<◌, arith}

pub uint16_digits : (n : ℕ) → n < 2 ^ 16 → n / 2 ^ 8 % 256 * 2 ^ 8 + n % 256 ≡ n
uint16_digits n h = omega arith

pub uint32_digits :
    (n : ℕ)
    → n < 2 ^ 32
    → (n / 2 ^ 24 % 256 * 2 ^ 8 + n / 2 ^ 16 % 256) * 2 ^ 16 + (n / 2 ^ 8 % 256 * 2 ^ 8 + n % 256)
      ≡ n
uint32_digits n h = omega arith

pub uint64_digits :
    (n : ℕ)
    → n < 2 ^ 64
    → ((n / 2 ^ 56 % 256 * 2 ^ 8 + n / 2 ^ 48 % 256) * 2 ^ 16
            + (n / 2 ^ 40 % 256 * 2 ^ 8 + n / 2 ^ 32 % 256))
          * 2 ^ 32
        + ((n / 2 ^ 24 % 256 * 2 ^ 8 + n / 2 ^ 16 % 256) * 2 ^ 16
            + (n / 2 ^ 8 % 256 * 2 ^ 8 + n % 256))
      ≡ n
uint64_digits n h = omega arith
