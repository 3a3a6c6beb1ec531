-- ===== src/Migrations/Laws.antt =====
-- What a run of the migrations leaves.
use eventrail_ingestion.Prelude.{
  All, Bool, Bool-cases, IsOrdered, List, Orders, String, [], ap, append-nil, append_assoc, arith,
  count_if, count_if-order_by, eq_iff, eq_refl, if◌then◌else◌, inl, inr, keep_if, keep_if-order_by,
  not, order_by, order_by-IsOrdered, refl, subst, sym, true, ◌++◌, ◌==◌, ◌||◌, ◌∙◌, ◌∷◌, ◌≡◌,
}
use eventrail_ingestion.Errors.{Error, failed, failure, new, nil, sentinel, wrap}
use eventrail_ingestion.Migrations.{
  Catalog, Migrator, apply, apply_one, apply_pending, continue, duplicate, has_name,
  migration_names, unless,
}

-- The names that are not among `applied`.
abbrev pub pending : List String → List String → List String
pending applied names = keep_if (λ n. not (has_name n applied)) names

abbrev pub extended : Catalog → List String → Catalog
extended c names = record { applied = c.applied ++ names; executed = c.executed ++ names }

-- A run that got past a check.
past :
    (e : Error) (context : String) (before : Catalog) (rest : Error × Catalog) {c : Catalog}
    → unless e context before rest ≡ (nil, c)
    → rest ≡ (nil, c)
unfolding unless
past nil context before rest h = h
past (new m) context before rest h = cc
past (sentinel s) context before rest h = cc
past (wrap b e a) context before rest h = cc
past (failure k s e) context before rest h = cc

apply_one-extends :
    (db : Migrator) (name : String) (c c' : Catalog)
    → apply_one db name c ≡ (nil, c')
    → c' ≡ extended c (name ∷ [])
unfolding apply_one
apply_one-extends db name c c' h =
    let done : ◌≡◌ {A = Error × Catalog} (nil, extended c (name ∷ [])) (nil, c') =
      past (db.commit_error name) _ c _ (
        past (duplicate name c.applied) _ c _ (
          past (db.record_error name) _ c _ (
            past (db.script_error name) _ c _
              (past (db.begin_error name) _ c _ (past (db.read_error name) _ c _ h))))) in
    sym (ap (λ (p : Error × Catalog). p.1) done)

continue-nil :
    (r : Error × Catalog) (rest : Catalog → Error × Catalog) (c' : Catalog)
    → continue r rest ≡ (nil, c')
    → (r ≡ (nil, r.1)) × (rest r.1 ≡ (nil, c'))
unfolding continue
continue-nil (nil, c) rest c' h = (refl, h)
continue-nil (new m, c) rest c' h = cc
continue-nil (sentinel s, c) rest c' h = cc
continue-nil (wrap b e a, c) rest c' h = cc
continue-nil (failure k s e, c) rest c' h = cc

extended_twice :
    (c : Catalog) (xs ys : List String) → extended (extended c xs) ys ≡ extended c (xs ++ ys)
extended_twice c xs ys = simp append_assoc

extended_nil : (c : Catalog) → extended c [] ≡ c
extended_nil c = simp append-nil

apply_pending-extends :
    (db : Migrator) (applied names : List String) (c c' : Catalog)
    → apply_pending db applied names c ≡ (nil, c')
    → c' ≡ extended c (pending applied names)
unfolding apply_pending continue
apply_pending-extends db applied [] c c' =
    λ h. let same : c ≡ c' = ap (λ (p : Error × Catalog). p.1) h in sym same ∙ sym (extended_nil c)
apply_pending-extends db applied (name ∷ names) c c' = elim (Bool-cases (has_name name applied)) [
  | inl old ↦ rw old (λ h. apply_pending-extends db applied names c c' h)
  | inr fresh ↦ rw fresh (λ h.
      let (first, rest) =
        continue-nil (apply_one db name c) (apply_pending db applied names) c' h in
      let c1 : Catalog = (apply_one db name c).1 in
      apply_pending-extends db applied names c1 c' rest
      ∙ ap (λ x. extended x (pending applied names)) (apply_one-extends db name c c1 first)
      ∙ extended_twice c (name ∷ []) (pending applied names))
]

executed_exactly :
    (db : Migrator) (before : String → String → Bool) (files : List String) (c c' : Catalog)
    → apply db before files c ≡ (nil, c')
    → c' ≡ extended c (pending c.applied (migration_names before files))
unfolding apply
executed_exactly db before files c c' h =
    apply_pending-extends db c.applied (migration_names before files) c c' (
      past db.glob_error "list embedded migrations: " c _ (
        past db.read_rows_error "read applied migrations: " c _ (
          past db.list_error "list applied migrations: " c _
            (past db.create_error "create schema_migrations table: " c _ h))))

-- What a run adds to a catalog: the names, in order, that no row had, each as often as it is embedded.
abbrev pub IsExtension :
    (String → String → Bool) → List String → Catalog → List String → Catalog → Type 0
IsExtension before files c names c' =
    (c'.applied ≡ c.applied ++ names)
    × (c'.executed ≡ c.executed ++ names)
    × IsOrdered before names
    × ((n : String)
        → count_if (λ m. m == n) names
          ≡ (if has_name n c.applied then 0 else count_if (λ m. m == n) files))

count-pending :
    (n : String) (applied names : List String)
    → count_if (λ m. m == n) (pending applied names)
      ≡ (if has_name n applied then 0 else count_if (λ m. m == n) names)
count-pending n applied [] = ground arith
count-pending n applied (m ∷ names) = elim (Bool-cases (m == n)) [
  | inl same ↦
      let this : m ≡ n = (eq_iff m n).0 same in
      subst
        (λ k.
          count_if (λ x. x == k) (pending applied (m ∷ names))
          ≡ (if has_name k applied then 0 else count_if (λ x. x == k) (m ∷ names)))
        this (ground (arith, eq_refl m, count-pending m applied names))
  | inr apart ↦ ground (arith, apart, count-pending n applied names)
]

-- A run that returns no error has executed, and recorded, after what was there the scripts that were
-- not applied before, in the order of their names: those added are in order, and each embedded name
-- that no row had is among them as often as it is embedded, every other name not at all. `before` is
-- the order of `sort.Strings`.
pub apply-extends :
    (db : Migrator) (before : String → String → Bool) (files : List String) (c c' : Catalog)
    → Orders before
    → apply db before files c ≡ (nil, c')
    → (names : List String) × IsExtension before files c names c'
unfolding migration_names
apply-extends db before files c c' o h =
    let fresh : String → Bool = λ n. not (has_name n c.applied) in
    let names : List String = pending c.applied (order_by before files) in
    let same : c' ≡ extended c names = executed_exactly db before files c c' h in
    (
      names,
      (
        ap (λ (x : Catalog). x.applied) same,
        ap (λ (x : Catalog). x.executed) same,
        subst (IsOrdered before) (sym (keep_if-order_by before o fresh files))
            (order_by-IsOrdered before o (keep_if fresh files)),
        λ n.
            count-pending n c.applied (order_by before files)
            ∙ ap (λ k. if has_name n c.applied then 0 else k)
                (count_if-order_by before (λ m. m == n) files),
      ),
    )

has_name-append :
    (n : String) (xs ys : List String) → has_name n (xs ++ ys) ≡ (has_name n xs || has_name n ys)
unfolding has_name
has_name-append n [] ys = refl
has_name-append n (x ∷ xs) ys = ground (arith, has_name-append n xs ys)

has_name-insert :
    (m n : String) (xs ys : List String)
    → has_name m (xs ++ ys) ≡ true
    → has_name m (xs ++ n ∷ ys) ≡ true
unfolding has_name
has_name-insert m n xs ys h = ground (arith, has_name-append m xs ys, has_name-append m xs (n ∷ ys))

has_name-insert_self : (n : String) (xs ys : List String) → has_name n (xs ++ n ∷ ys) ≡ true
unfolding has_name
has_name-insert_self n xs ys = ground (arith, has_name-append n xs (n ∷ ys), eq_refl n)

covered_more :
    (n : String) (xs ys names : List String)
    → All (λ m. has_name m (xs ++ ys) ≡ true) names
    → All (λ m. has_name m (xs ++ n ∷ ys) ≡ true) names
covered_more n xs ys [] h = tt
covered_more n xs ys (m ∷ names) (k, h) =
    (has_name-insert m n xs ys k, covered_more n xs ys names h)

covered :
    (applied names : List String)
    → All (λ m. has_name m (applied ++ pending applied names) ≡ true) names
covered applied [] = tt
covered applied (n ∷ names) =
    let rest : List String = pending applied names in
    let to_cover : List String → Type 0 =
      λ p. All (λ m. has_name m (applied ++ p) ≡ true) (n ∷ names) in
    elim (Bool-cases (has_name n applied)) [
      | inl old ↦
          let same : pending applied (n ∷ names) ≡ rest = rw old refl in
          subst to_cover (sym same)
            (ground (arith, has_name-append n applied rest), covered applied names)
      | inr fresh ↦
          let same : pending applied (n ∷ names) ≡ n ∷ rest = rw fresh refl in
          subst to_cover (sym same) (
            has_name-insert_self n applied rest,
            covered_more n applied rest names (covered applied names),
          )
    ]

nothing_pending :
    (db : Migrator) (applied names : List String) (c : Catalog)
    → All (λ m. has_name m applied ≡ true) names
    → apply_pending db applied names c ≡ (nil, c)
unfolding apply_pending continue
nothing_pending db applied [] c h = refl
nothing_pending db applied (n ∷ names) c (k, h) = rw k (nothing_pending db applied names c h)

stays :
    (e : Error) (context : String) (before : Catalog) (rest : Error × Catalog)
    → rest.1 ≡ before
    → (unless e context before rest).1 ≡ before
unfolding unless
stays e context before rest h = elim (Bool-cases (failed e)) [
  | inl bad ↦ rw bad refl
  | inr good ↦ rw good h
]

-- After a run that returned no error another one, whatever PostgreSQL answers, executes nothing.
pub apply_twice :
    (db db' : Migrator) (before : String → String → Bool) (files : List String) (c c' : Catalog)
    → apply db before files c ≡ (nil, c')
    → (apply db' before files c').1 ≡ c'
unfolding apply
apply_twice db db' before files c c' h =
    let names : List String = migration_names before files in
    let all_there : All (λ m. has_name m c'.applied ≡ true) names =
      subst (λ (x : Catalog). All (λ m. has_name m x.applied ≡ true) names)
        (sym (executed_exactly db before files c c' h)) (covered c.applied names) in
    stays db'.create_error "create schema_migrations table: " c' _ (
      stays db'.list_error "list applied migrations: " c' _ (
        stays db'.read_rows_error "read applied migrations: " c' _ (
          stays db'.glob_error "list embedded migrations: " c' _ (
            ap (λ (p : Error × Catalog). p.1)
              (nothing_pending db' c'.applied names c' all_there)))))
