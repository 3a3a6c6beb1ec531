-- ===== src/Migrations/Tests.antt =====
-- Three scripts, embedded in no order, of which one was applied before.
use eventrail_ingestion.Prelude.{
  Bool, List, Orders, String, [], arith, if◌then◌else◌, insert_by, leb, order_by, refl, ℕ, ◌==◌,
  ◌∷◌, ◌≡◌,
}
use eventrail_ingestion.Errors.{new, nil}
use eventrail_ingestion.Migrations.{
  Catalog, Migrator, apply, apply_one, apply_pending, continue, duplicate, has_name,
  migration_names, unless,
}
use eventrail_ingestion.Migrations.Laws.{IsExtension, apply-extends}

abbrev working : Migrator
working = record {
  create_error = nil;
  list_error = nil;
  read_rows_error = nil;
  glob_error = nil;
  read_error = λ n. nil;
  begin_error = λ n. nil;
  script_error = λ n. nil;
  record_error = λ n. nil;
  commit_error = λ n. nil;
}

abbrev scripts : List String
scripts = "003.sql" ∷ "001.sql" ∷ "002.sql" ∷ []

-- The order of these names.
abbrev rank : String → ℕ
rank n = if n == "001.sql" then 1 else if n == "002.sql" then 2 else 3

abbrev by_rank : String → String → Bool
by_rank a b = leb (rank a) (rank b)

by_rank-Orders : Orders by_rank
by_rank-Orders = record { trans = λ a b c h k. ground arith; total = λ a b h. ground arith }

abbrev old_catalog : Catalog
old_catalog = record { applied = "001.sql" ∷ []; executed = "001.sql" ∷ [] }

abbrev all_scripts : List String
all_scripts = "001.sql" ∷ "002.sql" ∷ "003.sql" ∷ []

abbrev new_catalog : Catalog
new_catalog = record { applied = all_scripts; executed = all_scripts }

migrated : apply working by_rank scripts old_catalog ≡ (nil, new_catalog)
unfolding apply unless apply_pending continue has_name apply_one duplicate migration_names order_by
    insert_by
migrated = refl

apply-extends_example :
    (names : List String) × IsExtension by_rank scripts old_catalog names new_catalog
apply-extends_example =
    apply-extends working by_rank scripts old_catalog new_catalog by_rank-Orders migrated

abbrev broken : Migrator
broken = record working { list_error = new "connection lost" }
