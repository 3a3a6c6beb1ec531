-- ===== src/Outbox/Backoff.antt =====
-- `outboxBackoff` and `sanitizeOutboxError`. Durations are nanoseconds, as 64-bit integers that wrap
-- around.
use Prim.Native.String.{count}
use native.Mathlib.Nat.{pow-suc}
use eventrail_ingestion.Prelude.{
  Bool-cases, String, arith, if◌then◌else◌, inl, inr, leb, leb_ℤ, ltb, ltb_ℤ, min, negsuc, pos, suc,
  trim_space, zero, ℕ, ℤ, ◌*◌, ◌+◌, ◌-ℤ◌, ◌-◌, ◌/◌, ◌<◌, ◌==◌, ◌^◌, ◌≡◌, ◌≤◌,
}
use eventrail_ingestion.Errors.{Error, error_text}
use eventrail_ingestion.Go.Words.{int_bound, mul_int, mul_int-pos}

-- `max/2`, which rounds towards zero.
half : ℤ → ℤ
half (pos n) = pos (n / 2)
half (negsuc n) = pos 0 -ℤ pos (suc n / 2)

-- The loop body for `rounds` more rounds.
double_delay : ℕ → ℤ → ℤ → ℤ
unfolding half mul_int
double_delay zero most delay = if ltb_ℤ most delay then most else delay
double_delay (suc rounds) most delay =
    let longer = double_delay rounds most (mul_int delay (pos 2)) in
    if leb_ℤ most delay then most else if ltb_ℤ (half most) delay then most else longer

-- `outboxBackoff`, for an attempt that is not negative.
unfoldable pub outbox_backoff : ℤ → ℤ → ℕ → ℤ
unfolding double_delay
outbox_backoff base most attempt =
    if leb attempt 1 then base else double_delay (attempt - 1) most base

-- `Duration.Microseconds`, which rounds towards zero.
unfoldable pub microseconds : ℤ → ℤ
microseconds (pos n) = pos (n / 1000)
microseconds (negsuc n) = pos 0 -ℤ pos (suc n / 1000)

pow-pos : (k : ℕ) → 0 < 2 ^ k
pow-pos zero = omega arith
pow-pos (suc k) = grind (arith, pow-suc 2 k, pow-pos k)

double_delay-eq-min :
    (rounds most delay : ℕ)
    → most < int_bound
    → double_delay rounds (pos most) (pos delay) ≡ pos (min (delay * 2 ^ rounds) most)
unfolding double_delay half
double_delay-eq-min zero most delay h = ground arith
double_delay-eq-min (suc rounds) most delay h =
    let twice : delay * 2 ^ suc rounds ≡ delay * 2 * 2 ^ rounds = grind (arith, pow-suc 2 rounds) in
    let grows : delay * 2 ≤ delay * 2 * 2 ^ rounds = grind (arith, pow-pos rounds) in
    elim (Bool-cases (ltb (most / 2) delay)) [
      | inl large ↦ ground (arith, large, twice, grows)
      | inr small ↦
          let fits : mul_int (pos delay) (pos 2) ≡ pos (delay * 2) =
            mul_int-pos delay 2 (ground (arith, small)) (omega arith) (ground (arith, small)) in
          let rest = double_delay-eq-min rounds most (delay * 2) h in
          rw fits (ground (arith, small, twice, grows, rest))
    ]

-- For a base that is at most the maximum, in 64-bit nanoseconds, the delay of attempt `n + 1` is the
-- base doubled `n` times, or the maximum if that is less: no product wraps around.
pub outbox_backoff-eq-min :
    (base most n : ℕ)
    → base ≤ most
    → most < int_bound
    → outbox_backoff (pos base) (pos most) (n + 1) ≡ pos (min (base * 2 ^ n) most)
unfolding outbox_backoff
outbox_backoff-eq-min base most zero h k = grind arith
outbox_backoff-eq-min base most (suc n) h k =
    ground (arith, double_delay-eq-min (suc n) most base k)

abbrev pub max_stored_error : ℕ
max_stored_error = 1000

take_runes : ℕ → String → String
take_runes zero s = ""
take_runes (suc n) String.[] = ""
take_runes (suc n) (String.◌∷◌ c s) = String.◌∷◌ c (take_runes n s)

unfoldable pub sanitize_outbox_error : Error → String
unfolding take_runes error_text trim_space
sanitize_outbox_error e =
    let message = trim_space (error_text e) in
    let kept = if message == "" then "publication failed" else message in
    if ltb max_stored_error (count kept) then take_runes max_stored_error kept else kept
