-- ===== src/Worker/Delays/Laws.antt =====
-- The delay before a retry: exact and capped while the product fits, and what happens beyond.
use native.Mathlib.Nat.{pow-suc}
use eventrail_ingestion.Prelude.{
  ap, arith, false, leb, min, negsuc, none, pos, refl, some, suc, true, zero, ℕ, ℤ, ◌*◌, ◌+◌, ◌-◌,
  ◌<◌, ◌^◌, ◌∙◌, ◌≡◌, ◌≤◌,
}
use eventrail_ingestion.Go.Words.{
  add_int, add_int-minus_one, add_int-negsuc, add_int-sub_one, int_bound, int_of_bits,
  int_of_bits-small, mul_int, mul_int-pos, mul_int-zero,
}
use eventrail_ingestion.Worker.Delays.{backoff_delay, cap_delay, max_delay, scale, shift_one}

int_of_bits-pow :
    (k base : ℕ) → 0 < base → 2 ^ k * base < int_bound → int_of_bits (2 ^ k) ≡ pos (2 ^ k)
int_of_bits-pow k base b h = int_of_bits-small (2 ^ k) (grind arith)

cap_delay-pos : (d : ℕ) → cap_delay (pos d) ≡ pos (min d max_delay)
unfolding cap_delay
cap_delay-pos d = ground arith

pow-pos : (k : ℕ) → 0 < 2 ^ k
pow-pos zero = omega arith
pow-pos (suc k) = grind (arith, pow-suc 2 k, pow-pos k)

scale-some : (base mult : ℤ) → scale base (some mult) ≡ some (cap_delay (mul_int mult base))
unfolding scale
scale-some base mult = refl

shift_one-pos : (k : ℕ) → k < 64 → shift_one (pos k) ≡ some (int_of_bits (2 ^ k))
unfolding shift_one
shift_one-pos k h = let below : leb 64 k ≡ false = ground arith in rw below

-- For the `k + 1`-th retry, k below 64, and a positive base with base * 2^k below 2^63, the delay is
-- base * 2^k nanoseconds, or ten seconds if that is less.
pub backoff_delay-eq-min :
    (base k : ℕ)
    → k < 64
    → 0 < base
    → 2 ^ k * base < int_bound
    → backoff_delay (pos base) (pos (k + 1)) ≡ some (pos (min (2 ^ k * base) max_delay))
unfolding backoff_delay
backoff_delay-eq-min base k small b fits =
    let start : add_int (pos (k + 1)) (negsuc 0) ≡ pos k =
      add_int-sub_one (k + 1) (omega arith) (omega arith) ∙ ap pos (omega arith) in
    let product : mul_int (pos (2 ^ k)) (pos base) ≡ pos (2 ^ k * base) =
      mul_int-pos (2 ^ k) base (grind arith) (grind (arith, pow-pos k)) fits in
    ap (λ n. scale (pos base) (shift_one n)) start
    ∙ ap (scale (pos base)) (shift_one-pos k small)
    ∙ scale-some (pos base) (int_of_bits (2 ^ k))
    ∙ ap (λ m. some (cap_delay (mul_int m (pos base)))) (int_of_bits-pow k base b fits)
    ∙ ap (λ d. some (cap_delay d)) product
    ∙ ap some (cap_delay-pos (2 ^ k * base))

-- A retry count that is not positive (and not the least `int`) makes the shift panic.
pub backoff_delay-panics :
    (base : ℤ) (n : ℕ)
    → n + 1 < int_bound
    → (backoff_delay base (pos 0) ≡ none) × (backoff_delay base (negsuc n) ≡ none)
unfolding backoff_delay scale shift_one
backoff_delay-panics base n h = (rw add_int-minus_one refl, rw (add_int-negsuc n h) refl)

-- From the 65th retry on the shift has dropped every bit, so there is no delay at all: the retry is
-- due at once, although the cap is meant for the large counts.
pub backoff_delay-eq-zero :
    (base : ℤ) (n : ℕ) → 65 ≤ n → n < int_bound → backoff_delay base (pos n) ≡ some (pos 0)
unfolding backoff_delay cap_delay scale shift_one
backoff_delay-eq-zero base n h k =
    let large : leb 64 (n - 1) ≡ true = ground arith in
    rw (add_int-sub_one n (omega arith) k) (rw large (rw mul_int-zero refl))
