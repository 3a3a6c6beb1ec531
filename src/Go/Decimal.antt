-- ===== src/Go/Decimal.antt =====
-- `strconv.Itoa` and `strconv.Atoi`.

use eventrail_ingestion.Prelude.{
  Bool-cases, Char, Option, String, arith, code, eqb, if◌then◌else◌, inl, inr, leb, ltb, negsuc,
  none, pos, refl, some, suc, zero, ℕ, ℤ, ◌%◌, ◌&&◌, ◌*◌, ◌+◌, ◌-◌, ◌/◌, ◌<◌, ◌≡◌, ◌≤◌,
}
use eventrail_ingestion.Go.Words.{int_bound}

digit : ℕ → Char
digit zero = "0"
digit (suc zero) = "1"
digit (suc (suc zero)) = "2"
digit (suc (suc (suc zero))) = "3"
digit (suc (suc (suc (suc zero)))) = "4"
digit (suc (suc (suc (suc (suc zero))))) = "5"
digit (suc (suc (suc (suc (suc (suc zero)))))) = "6"
digit (suc (suc (suc (suc (suc (suc (suc zero))))))) = "7"
digit (suc (suc (suc (suc (suc (suc (suc (suc zero)))))))) = "8"
digit _ = "9"

-- The digits of `n` before those of `s`; `n` rounds are more than enough.
print_digits : ℕ → ℕ → String → String
print_digits zero n s = s
print_digits (suc f) n s =
    let longer = print_digits f (n / 10) (String.◌∷◌ (digit (n % 10)) s) in
    if ltb n 10 then String.◌∷◌ (digit n) s else longer

unfoldable pub itoa : ℤ → String
unfolding digit print_digits
itoa (pos n) = print_digits (suc n) n ""
itoa (negsuc n) = String.◌∷◌ "-" (print_digits (suc (suc n)) (suc n) "")

read_digits : ℕ → String → Option ℕ
read_digits n String.[] = some n
read_digits n (String.◌∷◌ c s) =
    if leb 48 (code c) && leb (code c) 57 then read_digits (n * 10 + (code c - 48)) s else none

-- A sign has been read, or none; no digit at all is an error.
read_number : String → Option ℕ
read_number String.[] = none
read_number (String.◌∷◌ c s) = read_digits 0 (String.◌∷◌ c s)

positive : Option ℕ → Option ℤ
positive none = none
positive (some n) = if ltb n int_bound then some (pos n) else none

negative : Option ℕ → Option ℤ
negative none = none
negative (some zero) = some (pos 0)
negative (some (suc n)) = if ltb n int_bound then some (negsuc n) else none

unfoldable pub atoi : String → Option ℤ
unfolding read_digits read_number positive negative
atoi String.[] = none
atoi (String.◌∷◌ c s) =
    if eqb (code c) b'-'
    then negative (read_number s)
    else if eqb (code c) b'+'
    then positive (read_number s)
    else positive (read_number (String.◌∷◌ c s))

code-digit : (d : ℕ) → d < 10 → code (digit d) ≡ 48 + d
unfolding digit
code-digit zero h = refl
code-digit (suc zero) h = refl
code-digit (suc (suc zero)) h = refl
code-digit (suc (suc (suc zero))) h = refl
code-digit (suc (suc (suc (suc zero)))) h = refl
code-digit (suc (suc (suc (suc (suc zero))))) h = refl
code-digit (suc (suc (suc (suc (suc (suc zero)))))) h = refl
code-digit (suc (suc (suc (suc (suc (suc (suc zero))))))) h = refl
code-digit (suc (suc (suc (suc (suc (suc (suc (suc zero)))))))) h = refl
code-digit (suc (suc (suc (suc (suc (suc (suc (suc (suc zero))))))))) h = refl
code-digit (suc (suc (suc (suc (suc (suc (suc (suc (suc (suc d)))))))))) h = absurd (omega arith)

read_digits-cons :
    (a d : ℕ) (s : String)
    → d < 10
    → read_digits a (String.◌∷◌ (digit d) s) ≡ read_digits (a * 10 + d) s
unfolding read_digits
read_digits-cons a d s h = ground (arith, code-digit d)

read_digits-print_digits :
    (f n : ℕ) (s : String) → n < f → read_digits 0 (print_digits f n s) ≡ read_digits n s
unfolding print_digits
read_digits-print_digits zero n s h = absurd (omega arith)
read_digits-print_digits (suc f) n s h = elim (Bool-cases (ltb n 10)) [
  | inl one ↦ rw one (ground (arith, read_digits-cons 0 n s))
  | inr more ↦ rw more (
      ground (
        arith,
        read_digits-print_digits f (n / 10) (String.◌∷◌ (digit (n % 10)) s),
        read_digits-cons (n / 10) (n % 10) s,
      ))
]

-- The text begins with a digit, so it has no sign.
abbrev IsUnsigned : String → Type 0
IsUnsigned String.[] = ⊥
IsUnsigned (String.◌∷◌ c s) = 48 ≤ code c

print_digits-IsUnsigned : (f n : ℕ) (s : String) → n < f → IsUnsigned (print_digits f n s)
unfolding print_digits
print_digits-IsUnsigned zero n s h = absurd (omega arith)
print_digits-IsUnsigned (suc f) n s h = elim (Bool-cases (ltb n 10)) [
  | inl one ↦ rw one (ground (arith, code-digit n))
  | inr more ↦
      rw more (print_digits-IsUnsigned f (n / 10) (String.◌∷◌ (digit (n % 10)) s) (ground arith))
]

atoi_of_digits :
    (s : String) (n : ℕ)
    → IsUnsigned s
    → read_digits 0 s ≡ some n
    → n < int_bound
    → atoi s ≡ some (pos n)
unfolding atoi
atoi_of_digits String.[] n u e h = absurd u
atoi_of_digits (String.◌∷◌ c s) n u e h = ground arith

-- A number that an `int` holds is read back as it was printed.
pub atoi-itoa : (n : ℕ) → n < int_bound → atoi (itoa (pos n)) ≡ some (pos n)
unfolding itoa read_digits
atoi-itoa n h =
    atoi_of_digits (print_digits (suc n) n "") n
      (print_digits-IsUnsigned (suc n) n "" (omega arith))
      (read_digits-print_digits (suc n) n "" (omega arith)) h

atoi_runs : atoi (itoa (negsuc 41)) ≡ some (negsuc 41)
unfolding atoi itoa
atoi_runs = refl
