-- ===== src/Prelude/Lists.antt =====
-- Lists measured by native numbers, under the library's names, and predicates over their elements.
use Prim.Native.Nat.{ℕ, zero, suc, ◌+◌, ◌-◌, min}
use mathlib.Core.Path.{◌≡◌, refl, subst}
use mathlib.Core.Logic.{inl, inr}
use mathlib.Core.Bool.{Bool, true, false, ◌&&◌, ◌||◌}
use mathlib.Core.List.{List, [], ◌∷◌, ◌++◌}
use mathlib.Core.Option.{Option, none, some}
use native.Mathlib.Omega.{arith}
use eventrail_ingestion.Prelude.Tests.{Bool-cases, if◌then◌else◌}

module _ {ℓ} {A : Type ℓ} where
  abbrev pub length : List A → ℕ
  length [] = 0
  length (x ∷ xs) = suc (length xs)

  abbrev pub take : ℕ → List A → List A
  take zero xs = []
  take (suc n) [] = []
  take (suc n) (x ∷ xs) = x ∷ take n xs

  abbrev pub drop : ℕ → List A → List A
  drop zero xs = xs
  drop (suc n) [] = []
  drop (suc n) (x ∷ xs) = drop n xs

  -- `l[len(l)-1]` of a list that may be empty.
  abbrev pub last? : List A → Option A
  last? [] = none
  last? (x ∷ []) = some x
  last? (x ∷ y ∷ xs) = last? (y ∷ xs)

  abbrev pub any : (A → Bool) → List A → Bool
  any p [] = false
  any p (x ∷ xs) = p x || any p xs

  abbrev pub all : (A → Bool) → List A → Bool
  all p [] = true
  all p (x ∷ xs) = p x && all p xs

  -- How many elements pass a test: `count(*) ... WHERE`.
  abbrev pub count_if : (A → Bool) → List A → ℕ
  count_if p [] = 0
  count_if p (x ∷ xs) = if p x then suc (count_if p xs) else count_if p xs

  abbrev pub find : (A → Bool) → List A → Option A
  find p [] = none
  find p (x ∷ xs) = if p x then some x else find p xs

  abbrev pub keep_if : (A → Bool) → List A → List A
  keep_if p [] = []
  keep_if p (x ∷ xs) = if p x then x ∷ keep_if p xs else keep_if p xs

  pub length-append : (xs ys : List A) → length (xs ++ ys) ≡ length xs + length ys
  length-append [] ys = omega arith
  length-append (x ∷ xs) ys = omega (arith, length-append xs ys)

  pub length-take : (n : ℕ) (xs : List A) → length (take n xs) ≡ min n (length xs)
  length-take zero xs = omega arith
  length-take (suc n) [] = omega arith
  length-take (suc n) (x ∷ xs) = omega (arith, length-take n xs)

  pub take-append-drop : (n : ℕ) (xs : List A) → take n xs ++ drop n xs ≡ xs
  take-append-drop zero xs = refl
  take-append-drop (suc n) [] = refl
  take-append-drop (suc n) (x ∷ xs) = rw (take-append-drop n xs) refl

  -- Only the empty list has no last element.
  pub last?-none : (xs : List A) → last? xs ≡ none → length xs ≡ 0
  last?-none [] e = refl
  last?-none (x ∷ []) e = cc
  last?-none (x ∷ y ∷ xs) e = let nothing = last?-none (y ∷ xs) e in omega (arith, nothing)

  pub length-drop : (n : ℕ) (xs : List A) → length (drop n xs) ≡ length xs - n
  length-drop zero xs = omega arith
  length-drop (suc n) [] = omega arith
  length-drop (suc n) (x ∷ xs) = omega (arith, length-drop n xs)

-- A predicate on every element; it computes to a tuple.
abbrev pub All {ℓ κ} : {A : Type ℓ} → (A → Type κ) → List A → Type κ
All P [] = Unit
All P (x ∷ xs) = P x × All P xs

module _ {ℓ κ} {A : Type ℓ} (P : A → Type κ) where
  pub All-take : (n : ℕ) (xs : List A) → All P xs → All P (take n xs)
  All-take zero xs h = tt
  All-take (suc n) [] h = tt
  All-take (suc n) (x ∷ xs) (p, h) = (p, All-take n xs h)

  pub All-kept : (p : A → Bool) (xs : List A) → All P xs → All P (keep_if p xs)
  All-kept p [] h = tt
  All-kept p (x ∷ xs) (k, h) = elim (Bool-cases (p x)) [
    | inl in_x ↦ rw in_x (k, All-kept p xs h)
    | inr out_x ↦ rw out_x (All-kept p xs h)
  ]

  pub last?-All : (xs : List A) (x : A) → All P xs → last? xs ≡ some x → P x
  last?-All [] x h e = cc
  last?-All (y ∷ []) x (p, h) e = let same : y ≡ x = cc in subst P same p
  last?-All (y ∷ z ∷ xs) x (p, h) e = last?-All (z ∷ xs) x h e

module _ {ℓ} {A : Type ℓ} (p : A → Bool) where
  pub All-keep_if : (xs : List A) → All (λ x. p x ≡ true) (keep_if p xs)
  All-keep_if [] = tt
  All-keep_if (x ∷ xs) = elim (Bool-cases (p x)) [
    | inl yes_x ↦ rw yes_x (yes_x, All-keep_if xs)
    | inr no_x ↦ rw no_x (All-keep_if xs)
  ]

  pub length-keep_if : (xs : List A) → length (keep_if p xs) ≡ count_if p xs
  length-keep_if [] = refl
  length-keep_if (x ∷ xs) = ground (arith, length-keep_if xs)

pub All-append {ℓ κ} :
    {A : Type ℓ} (P : A → Type κ) (xs ys : List A) → All P xs → All P ys → All P (xs ++ ys)
All-append P [] ys hx hy = hy
All-append P (x ∷ xs) ys hx hy = (hx.0, All-append P xs ys hx.1 hy)

-- An element of a list.
pub data Mem {ℓ} {A : Type ℓ} (x : A) : List A → Type ℓ where
  mem_head : {xs : List A} → Mem x (x ∷ xs)
  mem_tail : {y : A} {xs : List A} → Mem x xs → Mem x (y ∷ xs)

module _ {A : Type 0} where
  Mem-tail : (y : A) (xs zs : List A) → All (λ x. Mem x zs) xs → All (λ x. Mem x (y ∷ zs)) xs
  Mem-tail y [] zs h = tt
  Mem-tail y (x ∷ xs) zs (m, h) = (mem_tail m, Mem-tail y xs zs h)

  -- The elements of a list are elements of it.
  pub All-Mem : (xs : List A) → All (λ x. Mem x xs) xs
  All-Mem [] = tt
  All-Mem (x ∷ xs) = (mem_head, Mem-tail x xs xs (All-Mem xs))
