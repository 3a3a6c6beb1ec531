-- ===== src/Prelude/Text.antt =====
-- What the program uses of Go's `strings`, over the characters of a text.
use Prim.Native.Nat.{ℕ, suc, ◌≤◌}
use Prim.Native.Char.{Char, code}
use Prim.Native.String
use Prim.Native.String.{String}
use mathlib.Core.Path.{◌≡◌, refl}
use mathlib.Core.Logic.{◌⊎◌, inl, inr}
use mathlib.Core.Bool.{Bool, false, ◌&&◌, ◌||◌}
use mathlib.Core.List.{List, [], ◌∷◌}
use text.Mathlib.Text.{starts_with, ◌==◌}
use native.Mathlib.Omega.{arith}
use eventrail_ingestion.Prelude.Tests.{leb, eqb, if◌then◌else◌, Bool-cases}

-- `fmt.Sprintf` and `+` on texts.
abbrev pub concat : List String → String
concat [] = ""
concat (s ∷ l) = String.◌++◌ s (concat l)

-- `strings.Contains`.
unfoldable pub contains : String → String → Bool
contains part String.[] = starts_with String.[] part
contains part (String.◌∷◌ c s) = starts_with (String.◌∷◌ c s) part || contains part s

-- `unicode.IsSpace`.
pub is_space : ℕ → Bool
is_space c =
    (leb 9 c && leb c 13)
    || eqb c 32
    || eqb c 0x85
    || eqb c 0xa0
    || eqb c 0x1680
    || (leb 0x2000 c && leb c 0x200a)
    || eqb c 0x2028
    || eqb c 0x2029
    || eqb c 0x202f
    || eqb c 0x205f
    || eqb c 0x3000

pub trim_left : String → String
trim_left String.[] = ""
trim_left (String.◌∷◌ c s) = if is_space (code c) then trim_left s else String.◌∷◌ c s

pub trim_right : String → String
trim_right String.[] = ""
trim_right (String.◌∷◌ c s) =
    let rest = trim_right s in if is_space (code c) && rest == "" then "" else String.◌∷◌ c rest

-- `strings.TrimSpace`.
unfoldable pub trim_space : String → String
unfolding trim_left trim_right is_space
trim_space s = trim_right (trim_left s)

-- A text without leading space is empty, or begins with a character that is no space.
trim_left-cases :
    (s : String)
    → (trim_left s ≡ "")
      ⊎ ((c : Char) × (t : String) × (trim_left s ≡ String.◌∷◌ c t) × (is_space (code c) ≡ false))
unfolding trim_left
trim_left-cases String.[] = inl refl
trim_left-cases (String.◌∷◌ c s) = elim (Bool-cases (is_space (code c))) [
  | inl space ↦ rw space (trim_left-cases s)
  | inr other ↦ inr (c, s, rw other, other)
]

trim_right_idem : (s : String) → trim_right (trim_right s) ≡ trim_right s
unfolding trim_right
trim_right_idem String.[] = refl
trim_right_idem (String.◌∷◌ c s) = elim (Bool-cases (is_space (code c) && trim_right s == "")) [
  | inl blank ↦ rw blank
  | inr kept ↦ rw (kept, trim_right, trim_right_idem s, kept)
]

pub trim_space_idem : (s : String) → trim_space (trim_space s) ≡ trim_space s
unfolding trim_space
trim_space_idem s = elim (trim_left-cases s) [
  | inl none_left ↦ rw none_left refl
  | inr (c, t, e, other) ↦ rw e (simp (other, trim_right_idem))
]

-- The code points of a text.
unfoldable pub char_count : String → ℕ
char_count String.[] = 0
char_count (String.◌∷◌ c s) = suc (char_count s)

char_count-trim_left-le : (s : String) → char_count (trim_left s) ≤ char_count s
unfolding char_count trim_left
char_count-trim_left-le String.[] = omega arith
char_count-trim_left-le (String.◌∷◌ c s) = elim (Bool-cases (is_space (code c))) [
  | inl space ↦ rw space (omega (arith, char_count-trim_left-le s))
  | inr other ↦ rw other (omega arith)
]

char_count-trim_right-le : (s : String) → char_count (trim_right s) ≤ char_count s
unfolding char_count trim_right
char_count-trim_right-le String.[] = omega arith
char_count-trim_right-le (String.◌∷◌ c s) =
    elim (Bool-cases (is_space (code c) && trim_right s == "")) [
      | inl blank ↦ rw blank (omega arith)
      | inr kept ↦ rw kept (omega (arith, char_count-trim_right-le s))
    ]

pub char_count-trim_space-le : (s : String) → char_count (trim_space s) ≤ char_count s
unfolding trim_space
char_count-trim_space-le s =
    omega (arith, char_count-trim_right-le (trim_left s), char_count-trim_left-le s)

trim_runs : trim_space "  a b " ≡ "a b"
unfolding trim_space
trim_runs = refl
