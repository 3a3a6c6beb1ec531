-- ===== src/Prelude/Sorting.antt =====
-- `ORDER BY`: a list in the order of a Boolean comparison, and what sorting keeps.
use Prim.Native.Nat.{suc, zero, ℕ}
use mathlib.Core.Path.{◌≡◌, refl, ap, subst, ◌∙◌}
use mathlib.Core.Logic.{inl, inr}
use mathlib.Core.Bool.{Bool, true, false}
use mathlib.Core.List.{List, [], ◌∷◌}
use mathlib.Core.Option.{some}
use native.Mathlib.Omega.{arith}
use eventrail_ingestion.Prelude.Tests.{Bool-cases, if◌then◌else◌}
use eventrail_ingestion.Prelude.Lists.{All, All-take, count_if, last?, length, take}

module _ {ℓ} {A : Type ℓ} (before : A → A → Bool) where
  unfoldable pub insert_by : A → List A → List A
  insert_by x [] = x ∷ []
  insert_by x (y ∷ ys) = if before x y then x ∷ y ∷ ys else y ∷ insert_by x ys

  unfoldable pub order_by : List A → List A
  unfolding insert_by
  order_by [] = []
  order_by (x ∷ xs) = insert_by x (order_by xs)

  count_if-insert_by :
      (p : A → Bool) (x : A) (l : List A) → count_if p (insert_by x l) ≡ count_if p (x ∷ l)
  unfolding insert_by
  count_if-insert_by p x [] = refl
  count_if-insert_by p x (y ∷ ys) = ground (arith, count_if-insert_by p x ys)

  -- Sorting keeps how many elements pass a test.
  pub count_if-order_by : (p : A → Bool) (l : List A) → count_if p (order_by l) ≡ count_if p l
  unfolding order_by
  count_if-order_by p [] = refl
  count_if-order_by p (x ∷ l) =
      ground (arith, count_if-insert_by p x (order_by l), count_if-order_by p l)

  length-insert_by : (x : A) (l : List A) → length (insert_by x l) ≡ length (x ∷ l)
  unfolding insert_by
  length-insert_by x [] = refl
  length-insert_by x (y ∷ ys) = ground (arith, length-insert_by x ys)

  pub length-order_by : (l : List A) → length (order_by l) ≡ length l
  unfolding order_by
  length-order_by [] = refl
  length-order_by (x ∷ l) = length-insert_by x (order_by l) ∙ ap suc (length-order_by l)

  module _ {κ} (P : A → Type κ) where
    pub All-insert_by : (x : A) (l : List A) → P x → All P l → All P (insert_by x l)
    unfolding insert_by
    All-insert_by x [] p h = (p, tt)
    All-insert_by x (y ∷ ys) p (q, h) = elim (Bool-cases (before x y)) [
      | inl first ↦ rw first (p, (q, h))
      | inr later ↦ rw later (q, All-insert_by x ys p h)
    ]

    pub All-order_by : (l : List A) → All P l → All P (order_by l)
    unfolding order_by
    All-order_by [] h = tt
    All-order_by (x ∷ l) (p, h) = All-insert_by x (order_by l) p (All-order_by l h)

    All_of_insert_by : (x : A) (l : List A) → All P (insert_by x l) → P x × All P l
    unfolding insert_by
    All_of_insert_by x [] = λ h. h
    All_of_insert_by x (y ∷ ys) = elim (Bool-cases (before x y)) [
      | inl first ↦ rw first (λ h. h)
      | inr later ↦ rw later (λ h. let (p, hs) = All_of_insert_by x ys h.1 in (p, (h.0, hs)))
    ]

    pub All_of_order_by : (l : List A) → All P (order_by l) → All P l
    unfolding order_by
    All_of_order_by [] h = tt
    All_of_order_by (x ∷ l) h =
        let (p, hs) = All_of_insert_by x (order_by l) h in (p, All_of_order_by l hs)

  -- Each element comes before all that follow.
  abbrev pub IsOrdered : List A → Type ℓ
  IsOrdered [] = Unit
  IsOrdered (x ∷ xs) = All (λ y. before x y ≡ true) xs × IsOrdered xs

  pub IsOrdered-take : (n : ℕ) (xs : List A) → IsOrdered xs → IsOrdered (take n xs)
  IsOrdered-take zero xs h = tt
  IsOrdered-take (suc n) [] h = tt
  IsOrdered-take (suc n) (x ∷ xs) (below, h) =
      (All-take (λ y. before x y ≡ true) n xs below, IsOrdered-take n xs h)

-- A comparison by which a list can be sorted.
pub record Orders {ℓ} {A : Type ℓ} (before : A → A → Bool) : Type ℓ where
  pub trans : (a b c : A) → before a b ≡ true → before b c ≡ true → before a c ≡ true
  pub total : (a b : A) → before a b ≡ false → before b a ≡ true

module _ {ℓ} {A : Type ℓ} (before : A → A → Bool) (o : Orders before) where
  pub All-before :
      (x y : A) (l : List A)
      → before x y ≡ true
      → All (λ z. before y z ≡ true) l
      → All (λ z. before x z ≡ true) l
  All-before x y [] h k = tt
  All-before x y (z ∷ l) h (p, k) = (o.trans x y z h p, All-before x y l h k)

  insert_by-IsOrdered :
      (x : A) (l : List A) → IsOrdered before l → IsOrdered before (insert_by before x l)
  unfolding insert_by
  insert_by-IsOrdered x [] h = (tt, tt)
  insert_by-IsOrdered x (y ∷ ys) (below, h) = elim (Bool-cases (before x y)) [
    | inl first ↦ rw first ((first, All-before x y ys first below), (below, h))
    | inr later ↦ rw later (
      All-insert_by before (λ z. before y z ≡ true) x ys (o.total x y later) below,
      insert_by-IsOrdered x ys h,
    )
  ]

  pub order_by-IsOrdered : (l : List A) → IsOrdered before (order_by before l)
  unfolding order_by
  order_by-IsOrdered [] = tt
  order_by-IsOrdered (x ∷ l) = insert_by-IsOrdered x (order_by before l) (order_by-IsOrdered l)

  pub refl_of_total : (a : A) → before a a ≡ true
  refl_of_total a = elim (Bool-cases (before a a)) [ inl h ↦ h | inr h ↦ o.total a a h ]

  last?-ordered :
      (l : List A) (r : A) → IsOrdered before l → last? l ≡ some r → All (λ s. before s r ≡ true) l
  last?-ordered [] r h e = tt
  last?-ordered (x ∷ []) r h e =
      (let same : x ≡ r = cc in subst (λ z. before x z ≡ true) same (refl_of_total x), tt)
  last?-ordered (x ∷ y ∷ l) r ((xy, _), h) e =
      let rest = last?-ordered (y ∷ l) r h e in (o.trans x y r xy rest.0, rest)

  -- The last element of the sorted list comes after every element of the list.
  pub last?-order_by :
      (l : List A) (r : A) → last? (order_by before l) ≡ some r → All (λ s. before s r ≡ true) l
  last?-order_by l r e =
      All_of_order_by before (λ s. before s r ≡ true) l
        (last?-ordered (order_by before l) r (order_by-IsOrdered l) e)
