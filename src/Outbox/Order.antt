-- ===== src/Outbox/Order.antt =====
-- The claim takes a due row that nobody has locked, and no other such row is earlier.
use eventrail_ingestion.Prelude.{
  All, Bool, Bool-cases, List, Mem, Option, Option-cases, [], arith, false, if_cases, if◌then◌else◌,
  inl, inr, leb, mem_head, mem_tail, none, refl, some, subst, true, ℕ, ◌<◌, ◌↔◌, ◌∷◌, ◌≡◌, ◌≤◌, ◌⊎◌,
}
use eventrail_ingestion.Outbox.{
  OutboxRow, OutboxStatus, comes_before, earlier, is_claimable, is_due, next_pending, pending,
  published,
}

-- A row that is claimed may be, and comes before every row that may be.
abbrev ComesFirst : (ℕ → Bool) → ℕ → List OutboxRow → OutboxRow → Type 0
ComesFirst locked at rows r =
    (is_claimable locked at r ≡ true)
    × All (λ s. is_claimable locked at s ≡ true → comes_before r s ≡ true) rows

comes_before_trans :
    (a b c : OutboxRow)
    → comes_before a b ≡ true
    → comes_before b c ≡ true
    → comes_before a c ≡ true
unfolding comes_before
comes_before_trans a b c h k = ground arith

comes_before_total : (a b : OutboxRow) → comes_before a b ≡ false → comes_before b a ≡ true
unfolding comes_before
comes_before_total a b h = ground arith

comes_before_refl : (a : OutboxRow) → comes_before a a ≡ true
unfolding comes_before
comes_before_refl a = ground arith

none_due :
    (locked : ℕ → Bool) (at : ℕ) (rows : List OutboxRow)
    → next_pending locked at rows ≡ none
    → All (λ s. is_claimable locked at s ≡ false) rows
unfolding next_pending
none_due locked at [] h = tt
none_due locked at (r ∷ rows) h = elim (Bool-cases (is_claimable locked at r)) [
  | inl due ↦ cc (h, due)
  | inr waits ↦ (waits, none_due locked at rows (rw waits at h))
]

before_none_due :
    (locked : ℕ → Bool) (at : ℕ) (r : OutboxRow) (rows : List OutboxRow)
    → All (λ s. is_claimable locked at s ≡ false) rows
    → All (λ s. is_claimable locked at s ≡ true → comes_before r s ≡ true) rows
before_none_due locked at r [] h = tt
before_none_due locked at r (s ∷ rows) (h, hs) = ((λ due. cc), before_none_due locked at r rows hs)

before-All :
    (locked : ℕ → Bool) (at : ℕ) (a b : OutboxRow) (rows : List OutboxRow)
    → comes_before a b ≡ true
    → All (λ s. is_claimable locked at s ≡ true → comes_before b s ≡ true) rows
    → All (λ s. is_claimable locked at s ≡ true → comes_before a s ≡ true) rows
before-All locked at a b [] h hs = tt
before-All locked at a b (s ∷ rows) h (first, hs) =
    ((λ due. comes_before_trans a b s h (first due)), before-All locked at a b rows h hs)

chosen_alone :
    (s : OutboxRow) {r : OutboxRow} (o : Option OutboxRow)
    → o ≡ none
    → some (earlier s o) ≡ some r
    → s ≡ r
unfolding earlier
chosen_alone s none e h = cc
chosen_alone s (some t) e h = cc

chosen_of_two :
    (s t : OutboxRow) {r : OutboxRow} (o : Option OutboxRow)
    → o ≡ some t
    → some (earlier s o) ≡ some r
    → (if comes_before s t then s else t) ≡ r
unfolding earlier
chosen_of_two s t none e h = cc
chosen_of_two s t {r} (some u) e h =
    let same : t ≡ u = cc in let kept : (if comes_before s u then s else u) ≡ r = cc in rw same kept

next_pending-ComesFirst :
    (locked : ℕ → Bool) (at : ℕ) (rows : List OutboxRow) (r : OutboxRow)
    → next_pending locked at rows ≡ some r
    → ComesFirst locked at rows r
unfolding next_pending earlier
next_pending-ComesFirst locked at [] r h = cc
next_pending-ComesFirst locked at (s ∷ rows) r h = elim (Bool-cases (is_claimable locked at s)) [
  | inr waits ↦
      let (due, first) = next_pending-ComesFirst locked at rows r (rw waits at h) in
      (due, ((λ k. cc), first))
  | inl due ↦ elim (Option-cases (next_pending locked at rows)) [
    | inl nothing ↦
        let same : s ≡ r = chosen_alone s (next_pending locked at rows) nothing (rw due at h) in
        subst (ComesFirst locked at (s ∷ rows)) same (
          due,
          (
            (λ k. comes_before_refl s),
            before_none_due locked at s rows (none_due locked at rows nothing),
          ),
        )
    | inr (t, found) ↦
        let (t_due, first) = next_pending-ComesFirst locked at rows t found in
        let same : (if comes_before s t then s else t) ≡ r =
          chosen_of_two s t (next_pending locked at rows) found (rw due at h) in
        subst (ComesFirst locked at (s ∷ rows)) same (
          if_cases (ComesFirst locked at (s ∷ rows)) (comes_before s t) s t
            (λ before.
              (due, ((λ k. comes_before_refl s), before-All locked at s t rows before first)))
            (λ after. (t_due, ((λ k. comes_before_total s t after), first))))
  ]
]

-- A row that the claim may take: it is pending, its time has come, and no other transaction has
-- locked it.
pub record IsFree (locked : ℕ → Bool) (at : ℕ) (r : OutboxRow) : Type 0 where
  pub is_pending : r.status ≡ pending
  pub is_time : r.next_attempt_at ≤ at
  pub unlocked : locked r.id ≡ false

-- An earlier time of the next attempt, or the same and no later creation.
abbrev pub NotLater : OutboxRow → OutboxRow → Type 0
NotLater r s =
    (r.next_attempt_at < s.next_attempt_at)
    ⊎ ((r.next_attempt_at ≡ s.next_attempt_at) × (r.created_at ≤ s.created_at))

-- One of the rows that is free, and not later than any free row.
abbrev pub IsFirst : (ℕ → Bool) → ℕ → List OutboxRow → OutboxRow → Type 0
IsFirst locked at rows r =
    Mem r rows × IsFree locked at r × All (λ s. IsFree locked at s → NotLater r s) rows

due-cases :
    (o : OutboxStatus) (due at : ℕ)
    → (elim o [ pending ↦ leb due at | published ↦ false ] ≡ true) ↔ ((o ≡ pending) × (due ≤ at))
due-cases pending due at = ground arith
due-cases published due at = ((λ h. cc), (λ h. cc))

is_claimable-IsFree :
    (locked : ℕ → Bool) (at : ℕ) (r : OutboxRow)
    → is_claimable locked at r ≡ true
    → IsFree locked at r
unfolding is_claimable is_due
is_claimable-IsFree locked at r h =
    let (waits, due) = (due-cases r.status r.next_attempt_at at).0 (ground arith) in
    record { is_pending = waits; is_time = due; unlocked = ground arith }

claim_of_free :
    (locked : ℕ → Bool) (at : ℕ) (r : OutboxRow)
    → IsFree locked at r
    → is_claimable locked at r ≡ true
unfolding is_claimable is_due
claim_of_free locked at r f =
    let due = (due-cases r.status r.next_attempt_at at).1 (f.is_pending, f.is_time) in
    rw (due, f.unlocked) refl

not_later : (r s : OutboxRow) → comes_before r s ≡ true → NotLater r s
unfolding comes_before
not_later r s h = ground arith

all-NotLater :
    (locked : ℕ → Bool) (at : ℕ) (r : OutboxRow) (rows : List OutboxRow)
    → All (λ s. is_claimable locked at s ≡ true → comes_before r s ≡ true) rows
    → All (λ s. IsFree locked at s → NotLater r s) rows
all-NotLater locked at r [] h = tt
all-NotLater locked at r (s ∷ rows) (k, h) =
    ((λ f. not_later r s (k (claim_of_free locked at s f))), all-NotLater locked at r rows h)

earlier-Mem :
    (r s : OutboxRow) (rows : List OutboxRow) (o : Option OutboxRow)
    → ((t : OutboxRow) → o ≡ some t → Mem t rows)
    → earlier r o ≡ s
    → Mem s (r ∷ rows)
unfolding earlier
earlier-Mem r s rows none h e = subst (λ x. Mem x (r ∷ rows)) e mem_head
earlier-Mem r s rows (some t) h e =
    subst (λ x. Mem x (r ∷ rows)) e
      (if_cases (λ x. Mem x (r ∷ rows)) (comes_before r t) r t (λ _. mem_head)
        (λ _. mem_tail (h t refl)))

next_pending-Mem :
    (locked : ℕ → Bool) (at : ℕ) (rows : List OutboxRow) (r : OutboxRow)
    → next_pending locked at rows ≡ some r
    → Mem r rows
unfolding next_pending
next_pending-Mem locked at [] r = λ h. cc
next_pending-Mem locked at (s ∷ rows) r = elim (Bool-cases (is_claimable locked at s)) [
  | inl may ↦ rw may (λ h.
      let this : earlier s (next_pending locked at rows) ≡ r = cc in
      earlier-Mem s r rows (next_pending locked at rows)
        (λ t e. next_pending-Mem locked at rows t e) this)
  | inr other ↦ rw other (λ h. mem_tail (next_pending-Mem locked at rows r h))
]

-- What the claim finds is a row of the table that is pending, whose time has come, and that no other
-- transaction has locked; and no such row has an earlier time of its next attempt, or the same time
-- and an earlier creation.
pub next_pending-IsFirst :
    (locked : ℕ → Bool) (at : ℕ) (rows : List OutboxRow) (r : OutboxRow)
    → next_pending locked at rows ≡ some r
    → IsFirst locked at rows r
next_pending-IsFirst locked at rows r h =
    let (may, first) = next_pending-ComesFirst locked at rows r h in
    (
      next_pending-Mem locked at rows r h,
      is_claimable-IsFree locked at r may,
      all-NotLater locked at r rows first,
    )
