-- ===== src/Worker/Delays.antt =====
-- `backoffDelay`, in nanoseconds, with the wrap-around of Go's integers.
pub mod Laws
use eventrail_ingestion.Prelude.{
  Option, if◌then◌else◌, leb, ltb_ℤ, negsuc, none, pos, some, ℕ, ℤ, ◌*◌, ◌^◌,
}
use eventrail_ingestion.Go.Words.{add_int, int_of_bits, mul_int}

abbrev pub max_delay : ℕ
max_delay = 10 * 1000 * 1000 * 1000

-- `1 << n`: a panic for a negative count, and 0 from 64 on.
shift_one : ℤ → Option ℤ
shift_one (negsuc n) = none
shift_one (pos n) = if leb 64 n then some (pos 0) else some (int_of_bits (2 ^ n))

cap_delay : ℤ → ℤ
cap_delay d = if ltb_ℤ (pos max_delay) d then pos max_delay else d

scale : ℤ → Option ℤ → Option ℤ
scale base none = none
scale base (some mult) = some (cap_delay (mul_int mult base))

-- `none` is the panic.
unfoldable pub backoff_delay : ℤ → ℤ → Option ℤ
unfolding shift_one scale cap_delay
backoff_delay base retries = scale base (shift_one (add_int retries (negsuc 0)))
