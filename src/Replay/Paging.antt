-- ===== src/Replay/Paging.antt =====
-- The pages of a replay follow one another: the cursor of a page asks for what the page left out.
use eventrail_ingestion.Prelude.{
  All-keep_if, All-order_by, All-take, AllApart, AllApart-keep_if, AllApart-order_by, Bool,
  Bool-cases, List, Option, Orders, String, [], ap, arith, drop, false, inl, inr, keep_if,
  keep_if-after, keep_if-order_by, last?, last?-All, none, not, order_by, order_by-IsOrdered, refl,
  some, sym, take, true, ℕ, ◌∙◌, ◌∷◌, ◌≡◌,
}
use eventrail_ingestion.Replay.{
  ReplayEvent, ReplayQuery, in_range, is_after, ordered_events, sorts_before,
}

-- The order of UUIDs, which are numbers of 128 bits.
module _ (uuid_leb : String → String → Bool) where
  -- No two rows have the same time and id.
  abbrev pub AreDistinct : List ReplayEvent → Type 0
  AreDistinct = AllApart (sorts_before uuid_leb)

  sorts_before-Orders : Orders uuid_leb → Orders (sorts_before uuid_leb)
  unfolding sorts_before
  sorts_before-Orders o = record {
    trans = λ a b c h k. ground (arith, o.trans a.id b.id c.id);
    total = λ a b h. ground (arith, o.total a.id b.id);
  }

  -- The condition of a cursor is that of coming after its row.
  is_after-row :
      (x e : ReplayEvent)
      → is_after uuid_leb (some (x.created_at, x.id)) e ≡ not (sorts_before uuid_leb e x)
  unfolding is_after sorts_before
  is_after-row x e = ground arith

  -- The query of the next page, for the same request with the cursor of a row.
  abbrev pub following : ReplayQuery → ReplayEvent → ReplayQuery
  following q x = record q { after = some (x.created_at, x.id) }

  -- What comes after a row that an earlier cursor let through, it lets through too.
  is_after_trans :
      Orders uuid_leb
      → (c : Option (ℕ × String)) (x e : ReplayEvent) → is_after uuid_leb c x ≡ true
      → is_after uuid_leb (some (x.created_at, x.id)) e ≡ true
      → is_after uuid_leb c e ≡ true
  unfolding is_after
  is_after_trans o none x e h k = refl
  is_after_trans o (some (t, i)) x e h k = ground (
    arith,
    o.trans e.id i x.id,
    o.trans e.id x.id i,
    o.total e.id i,
    o.trans x.id e.id i,
    o.total e.id x.id,
  )

  narrowed :
      (p q : ReplayEvent → Bool) (l : List ReplayEvent)
      → ((e : ReplayEvent) → q e ≡ true → p e ≡ true)
      → keep_if q (keep_if p l) ≡ keep_if q l
  narrowed p q [] h = refl
  narrowed p q (x ∷ l) h = elim (Bool-cases (p x)) [
    | inl in_p ↦ rw in_p (elim (Bool-cases (q x)) [
      | inl in_q ↦ rw in_q (ap (λ r. x ∷ r) (narrowed p q l h))
      | inr out_q ↦ rw out_q (narrowed p q l h)
    ])
    | inr out_p ↦
        let out_q : q x ≡ false = ground (arith, h x) in rw (out_p, out_q) (narrowed p q l h)
  ]

  keep_if-same :
      (p q : ReplayEvent → Bool) (l : List ReplayEvent)
      → ((e : ReplayEvent) → p e ≡ q e)
      → keep_if p l ≡ keep_if q l
  keep_if-same p q [] h = refl
  keep_if-same p q (x ∷ l) h = ground (arith, h x, keep_if-same p q l h)

  page-is_after :
      (q : ReplayQuery) (events : List ReplayEvent) (n : ℕ) (x : ReplayEvent)
      → last? (take n (ordered_events uuid_leb q events)) ≡ some x
      → is_after uuid_leb q.after x ≡ true
  unfolding ordered_events
  page-is_after q events n x last =
      let among : List ReplayEvent = keep_if (in_range uuid_leb q) events in
      let let_through : List ReplayEvent = keep_if (is_after uuid_leb q.after) among in
      last?-All (λ e. is_after uuid_leb q.after e ≡ true)
        (take n (order_by (sorts_before uuid_leb) let_through)) x
        (All-take (λ e. is_after uuid_leb q.after e ≡ true) n
          (order_by (sorts_before uuid_leb) let_through)
          (All-order_by (sorts_before uuid_leb) (λ e. is_after uuid_leb q.after e ≡ true)
            let_through (All-keep_if (is_after uuid_leb q.after) among)))
        last

  -- The query that follows the last row of a page asks for exactly the rows that the page left out,
  -- in the same order.
  pub ordered_events-following :
      Orders uuid_leb
      → (q : ReplayQuery) (events : List ReplayEvent) (n : ℕ) (x : ReplayEvent) → AreDistinct events
      → last? (take n (ordered_events uuid_leb q events)) ≡ some x
      → ordered_events uuid_leb (following q x) events ≡ drop n (ordered_events uuid_leb q events)
  unfolding ordered_events in_range
  ordered_events-following o q events n x distinct last =
      let order : ReplayEvent → ReplayEvent → Bool = sorts_before uuid_leb in
      let among : List ReplayEvent = keep_if (in_range uuid_leb q) events in
      let earlier : ReplayEvent → Bool = is_after uuid_leb q.after in
      let later : ReplayEvent → Bool = is_after uuid_leb (some (x.created_at, x.id)) in
      let rows : List ReplayEvent = keep_if earlier among in
      let one_filter : keep_if later rows ≡ keep_if later among =
        narrowed earlier later among
          (λ e. is_after_trans o q.after x e (page-is_after q events n x last)) in
      ap (order_by order) (sym one_filter)
      ∙ sym (keep_if-order_by order (sorts_before-Orders o) later rows)
      ∙ keep_if-same later (λ e. not (order e x)) (order_by order rows) (is_after-row x)
      ∙ keep_if-after order (sorts_before-Orders o) n (order_by order rows) x
          (order_by-IsOrdered order (sorts_before-Orders o) rows)
          (AllApart-order_by order rows (
            AllApart-keep_if order earlier among
              (AllApart-keep_if order (in_range uuid_leb q) events distinct)))
          last
