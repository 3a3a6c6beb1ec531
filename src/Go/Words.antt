-- ===== src/Go/Words.antt =====
-- Wrap-around of Go's 64-bit signed integers.
use eventrail_ingestion.Prelude.{
  arith, if◌then◌else◌, ltb, negsuc, pos, refl, ℕ, ℤ, ◌%◌, ◌*◌, ◌+◌, ◌-◌, ◌/◌, ◌<◌, ◌^◌, ◌≡◌, ◌≤ℤ◌,
}

abbrev pub word_mod : ℕ
word_mod = 2 ^ 64

abbrev pub int_bound : ℕ
int_bound = 2 ^ 63

-- The two's complement bits of an integer.
pub bits : ℤ → ℕ
bits (pos n) = n % word_mod
bits (negsuc n) = word_mod - 1 - n % word_mod

-- The integer that 64 bits stand for.
unfoldable pub int_of_bits : ℕ → ℤ
int_of_bits n =
    if ltb (n % word_mod) int_bound
    then pos (n % word_mod)
    else negsuc (word_mod - 1 - n % word_mod)

unfoldable pub add_int : ℤ → ℤ → ℤ
unfolding bits int_of_bits
add_int a b = int_of_bits (bits a + bits b)

unfoldable pub mul_int : ℤ → ℤ → ℤ
unfolding bits int_of_bits
mul_int a b = int_of_bits (bits a * bits b)

pub add_int-pos : (a b : ℕ) → a + b < int_bound → add_int (pos a) (pos b) ≡ pos (a + b)
unfolding add_int
add_int-pos a b h = ground arith

pub mul_int-pos :
    (a b : ℕ)
    → a < int_bound
    → b < int_bound
    → a * b < int_bound
    → mul_int (pos a) (pos b) ≡ pos (a * b)
unfolding mul_int
mul_int-pos a b h k l = ground arith

pub add_int-sub_one : (n : ℕ) → 0 < n → n < int_bound → add_int (pos n) (negsuc 0) ≡ pos (n - 1)
unfolding add_int
add_int-sub_one n p h = ground arith

pub int_of_bits-small : (n : ℕ) → n < int_bound → int_of_bits n ≡ pos n
unfolding int_of_bits
int_of_bits-small n h = ground arith

pub mul_int-zero : (b : ℤ) → mul_int (pos 0) b ≡ pos 0
unfolding mul_int
mul_int-zero b = ground arith

pub add_int-minus_one : add_int (pos 0) (negsuc 0) ≡ negsuc 0
unfolding add_int
add_int-minus_one = refl

pub add_int-negsuc : (n : ℕ) → n + 1 < int_bound → add_int (negsuc n) (negsuc 0) ≡ negsuc (n + 1)
unfolding add_int
add_int-negsuc n h = ground arith

-- `Time.UnixMilli` of nanoseconds since 1970: whole milliseconds, rounded down.
unfoldable pub unix_milli : ℤ → ℤ
unix_milli (pos n) = pos (n / 1000000)
unix_milli (negsuc n) = negsuc (n / 1000000)

-- A time that is not earlier is not earlier in milliseconds.
pub unix_milli-le : (a b : ℤ) → a ≤ℤ b → unix_milli a ≤ℤ unix_milli b
unfolding unix_milli
unix_milli-le (pos a) (pos b) h = omega arith
unix_milli-le (pos a) (negsuc b) h = absurd (omega arith)
unix_milli-le (negsuc a) (pos b) h = omega arith
unix_milli-le (negsuc a) (negsuc b) h = omega arith
