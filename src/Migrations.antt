-- ===== src/Migrations.antt =====
-- migrations/migrate.go: the embedded scripts are run once each, in the order of their names, each in
-- one transaction with the row of `schema_migrations` that says so.
pub mod Laws
mod Tests
use eventrail_ingestion.Prelude.{
  Bool, List, String, [], false, if◌then◌else◌, order_by, ◌++◌, ◌==◌, ◌||◌, ◌∷◌,
}
use eventrail_ingestion.Errors.{Error, failed, new, nil, wrap}

-- The rows of `schema_migrations`, and the scripts whose effect is committed; both oldest first.
pub record Catalog : Type 0 where
  pub applied : List String
  pub executed : List String

-- What PostgreSQL and the embedded files answer, by the name of a script; nil is success.
pub record Migrator : Type 0 where
  pub create_error : Error
  pub list_error : Error
  pub read_rows_error : Error
  pub glob_error : Error
  pub read_error : String → Error
  pub begin_error : String → Error
  pub script_error : String → Error
  pub record_error : String → Error
  pub commit_error : String → Error

pub has_name : String → List String → Bool
has_name n [] = false
has_name n (m ∷ l) = m == n || has_name n l

-- `filename TEXT PRIMARY KEY`.
duplicate : String → List String → Error
duplicate name applied = if has_name name applied then new "duplicate key value" else nil

unless : Error → String → Catalog → Error × Catalog → Error × Catalog
unless e context before rest = if failed e then (wrap context e "", before) else rest

-- `applyOne`: an error rolls the script back.
pub apply_one : Migrator → String → Catalog → Error × Catalog
apply_one db name c = unless (db.read_error name) "read migration: " c (
    unless (db.begin_error name) "begin migration: " c (
      unless (db.script_error name) "apply migration: " c (
        unless (db.record_error name) "record migration: " c (
          unless (duplicate name c.applied) "record migration: " c (
            unless (db.commit_error name) "commit migration: " c (
              nil,
              record { applied = c.applied ++ name ∷ []; executed = c.executed ++ name ∷ [] },
            ))))))

continue : Error × Catalog → (Catalog → Error × Catalog) → Error × Catalog
continue r rest = if failed r.0 then r else rest r.1

-- The loop over the names; `applied` is what was read before it.
apply_pending : Migrator → List String → List String → Catalog → Error × Catalog
apply_pending db applied [] c = (nil, c)
apply_pending db applied (name ∷ names) c =
    continue (if has_name name applied then (nil, c) else apply_one db name c)
      (apply_pending db applied names)

-- `migrationNames`: the embedded names in the order of `sort.Strings`, which is a parameter.
pub migration_names : (String → String → Bool) → List String → List String
migration_names before files = order_by before files

-- `Apply`.
pub apply : Migrator → (String → String → Bool) → List String → Catalog → Error × Catalog
apply db before files c = unless db.create_error "create schema_migrations table: " c (
    unless db.list_error "list applied migrations: " c (
      unless db.read_rows_error "read applied migrations: " c (
        unless db.glob_error "list embedded migrations: " c
          (apply_pending db c.applied (migration_names before files) c))))
