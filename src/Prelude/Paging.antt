-- ===== src/Prelude/Paging.antt =====
-- Pages of a sorted list: what is left behind the last element of a page is the next page on.
use Prim.Native.Nat.{ℕ, suc, zero}
use mathlib.Core.Path.{◌≡◌, refl, sym, ap, subst, ◌∙◌}
use mathlib.Core.Logic.{inl, inr}
use mathlib.Core.Bool.{Bool, true, false, not, ◌&&◌}
use mathlib.Core.List.{List, [], ◌∷◌}
use mathlib.Core.Option.{some}
use native.Mathlib.Omega.{arith}
use eventrail_ingestion.Prelude.Tests.{Bool-cases, if◌then◌else◌}
use eventrail_ingestion.Prelude.Lists.{
  All, All-kept, All-take, drop, keep_if, last?, last?-All, take,
}
use eventrail_ingestion.Prelude.Sorting.{
  IsOrdered, Orders, insert_by, order_by, All-insert_by, All-order_by, order_by-IsOrdered,
  refl_of_total, All-before,
}

module _ {ℓ} {A : Type ℓ} (before : A → A → Bool) where
  abbrev Apart : A → A → Type 0
  Apart x y = (before x y && before y x) ≡ false

  -- No two elements of the list have the same place in the order.
  abbrev pub AllApart : List A → Type ℓ
  AllApart [] = Unit
  AllApart (x ∷ xs) = All (Apart x) xs × AllApart xs

  Apart-sym : (x y : A) → Apart x y → Apart y x
  Apart-sym x y h = ground arith

  pub AllApart-keep_if : (p : A → Bool) (l : List A) → AllApart l → AllApart (keep_if p l)
  AllApart-keep_if p [] h = tt
  AllApart-keep_if p (x ∷ l) (k, h) = elim (Bool-cases (p x)) [
    | inl in_x ↦ rw in_x (All-kept (Apart x) p l k, AllApart-keep_if p l h)
    | inr out_x ↦ rw out_x (AllApart-keep_if p l h)
  ]

  AllApart-insert_by :
      (x : A) (l : List A) → All (Apart x) l → AllApart l → AllApart (insert_by before x l)
  unfolding insert_by
  AllApart-insert_by x [] k h = (tt, tt)
  AllApart-insert_by x (y ∷ ys) k h = elim (Bool-cases (before x y)) [
    | inl first ↦ rw first (k, h)
    | inr later ↦ rw later (
      All-insert_by before (Apart y) x ys (Apart-sym x y k.0) h.0,
      AllApart-insert_by x ys k.1 h.1,
    )
  ]

  pub AllApart-order_by : (l : List A) → AllApart l → AllApart (order_by before l)
  unfolding order_by
  AllApart-order_by [] h = tt
  AllApart-order_by (x ∷ l) (k, h) =
      AllApart-insert_by x (order_by before l) (All-order_by before (Apart x) l k)
        (AllApart-order_by l h)

module _ {ℓ} {A : Type ℓ} (before : A → A → Bool) (o : Orders before) where
  insert_first :
      (x : A) (l : List A) → All (λ z. before x z ≡ true) l → insert_by before x l ≡ x ∷ l
  unfolding insert_by
  insert_first x [] h = refl
  insert_first x (y ∷ l) (k, h) = rw k refl

  keep_if-insert_by :
      (p : A → Bool) (x : A) (l : List A)
      → IsOrdered before l
      → keep_if p (insert_by before x l)
        ≡ (if p x then insert_by before x (keep_if p l) else keep_if p l)
  unfolding insert_by
  keep_if-insert_by p x [] h = ground arith
  keep_if-insert_by p x (y ∷ l) (k, h) = elim (Bool-cases (before x y)) [
    | inl first ↦ rw first (elim (Bool-cases (p x)) [
      | inl in_x ↦ rw in_x (
          sym (
            insert_first x (keep_if p (y ∷ l)) (
              All-kept (λ z. before x z ≡ true) p (y ∷ l)
                (first, All-before before o x y l first k))))
      | inr out_x ↦ rw out_x refl
    ])
    | inr later ↦ rw later (ground (arith, keep_if-insert_by p x l h))
  ]

  -- Rows can be selected before or after they are sorted.
  pub keep_if-order_by :
      (p : A → Bool) (l : List A) → keep_if p (order_by before l) ≡ order_by before (keep_if p l)
  unfolding order_by
  keep_if-order_by p [] = refl
  keep_if-order_by p (x ∷ l) = elim (Bool-cases (p x)) [
    | inl in_x ↦ rw in_x (
        keep_if-insert_by p x (order_by before l) (order_by-IsOrdered before o l)
        ∙ rw (in_x, keep_if-order_by p l) refl)
    | inr out_x ↦ rw out_x (
        keep_if-insert_by p x (order_by before l) (order_by-IsOrdered before o l)
        ∙ rw (out_x, keep_if-order_by p l) refl)
  ]

  abbrev after : A → A → Bool
  after x z = not (before z x)

  keep_later :
      (x : A) (l : List A)
      → All (λ z. before x z ≡ true) l
      → All (Apart before x) l
      → keep_if (after x) l ≡ l
  keep_later x [] h k = refl
  keep_later x (y ∷ l) (h, hs) (k, ks) =
      let later : before y x ≡ false = ground arith in
      rw later (ap (λ r. y ∷ r) (keep_later x l hs ks))

  last_of_one : (y x : A) → some y ≡ some x → y ≡ x
  last_of_one y x e = cc

  -- The elements behind the last of the first `n` are those that `n` leaves.
  pub keep_if-after :
      (n : ℕ) (l : List A) (x : A)
      → IsOrdered before l
      → AllApart before l
      → last? (take n l) ≡ some x
      → keep_if (after x) l ≡ drop n l
  keep_if-after zero l x h k e = cc
  keep_if-after (suc n) [] x h k e = cc
  keep_if-after (suc zero) (y ∷ l) x (h, hs) (k, ks) e =
      subst (λ z. keep_if (after z) (y ∷ l) ≡ l) (last_of_one y x e)
        (rw (refl_of_total before o y) (keep_later y l h k))
  keep_if-after (suc (suc n)) (y ∷ []) x h k e =
      subst (λ z. keep_if (after z) (y ∷ []) ≡ []) (last_of_one y x e)
        (rw (refl_of_total before o y) refl)
  keep_if-after (suc (suc n)) (y ∷ z ∷ l) x (h, hs) (k, ks) e =
      let first : before y x ≡ true =
        last?-All (λ w. before y w ≡ true) (take (suc n) (z ∷ l)) x
          (All-take (λ w. before y w ≡ true) (suc n) (z ∷ l) h) e in
      rw first (keep_if-after (suc n) (z ∷ l) x hs ks e)
