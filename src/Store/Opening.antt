-- ===== src/Store/Opening.antt =====
-- internal/adapters/sqlite/db.go and `New` of store.go: the database file is opened, and the
-- migrations that it lacks are applied. Closing the handle on an error is left out.
pub mod Recorded
pub mod Again
use Prim.Native.String
use meta_mcp.Prelude.{
  ℕ, suc, Bool, not, ◌&&◌, String, List, [], ◌∷◌, ◌++◌, Option, none, some, ◌==◌, contains,
  if◌then◌else◌,
}
use meta_mcp.Domain.Errors.{Error, wrap, is_no_rows}
use meta_mcp.Exec.{Result, ok, err, Exec, pure, lift, ◌>>=◌, ◌>>◌, or_return}
use meta_mcp.Store.Tables.{constraint, text_le, order_by}

infixr 65 ◌^^◌
abbrev pub ◌^^◌ : String → String → String
a ^^ b = String.◌++◌ a b

-- What the file system, the embedded files and the driver answer.
pub record Disk : Type 0 where
  -- `filepath.Dir`, and the format `%q`
  pub dir : String → String
  pub quote : String → String
  pub mkdir_all : String → Result Error (Unit {0})
  -- `sql.Open` of a data source
  pub open_file : String → Result Error (Unit {0})
  -- `fs.Glob` of the migrations, and `ReadFile` of one
  pub glob : Result Error (List String)
  pub read_file : String → Result Error String
  -- `some e` where the statement, or the begin or commit, of this step fails with `e`
  pub fault : ℕ → Option Error

-- The names in `schema_migrations`, and the SQL texts that were executed, in order.
pub record Schema : Type 0 where
  pub names : List String
  pub bodies : List String
  pub step : ℕ

abbrev pub Setup : Type 0 → Type 0
Setup A = Exec Schema Error A

abbrev pub pragmas : List String
pragmas =
    "PRAGMA journal_mode = WAL" ∷ "PRAGMA synchronous = NORMAL" ∷ "PRAGMA foreign_keys = ON"
    ∷ "PRAGMA busy_timeout = 5000" ∷ []

abbrev pub ticked : Schema → Schema
ticked s = record s { step = suc s.step }

module _ (disk : Disk) where
  -- A statement that changes the schema by `f` where it does not fail.
  unfoldable pub executed : (Schema → Result Error Schema) → Setup (Unit {0})
  executed f s = elim (disk.fault s.step) [
    | some e ↦ (err e, ticked s)
    | none ↦ elim (f s) [ err e ↦ (err e, ticked s) | ok s' ↦ (ok tt, ticked s') ]
  ]

  abbrev pub unchanged : Schema → Result Error Schema
  unchanged s = ok s

  unfoldable pub apply_pragmas : List String → Setup (Unit {0})
  unfolding executed
  apply_pragmas [] = pure tt
  apply_pragmas (p ∷ ps) = do
    or_return (executed unchanged) (wrap ("apply " ^^ disk.quote p))
    apply_pragmas ps

  unfoldable pub open_path : String → Setup (Unit {0})
  unfolding apply_pragmas
  open_path path = do
    or_return (lift (disk.open_file ("file:" ^^ path ^^ "?_txlock=immediate")))
        (wrap ("open sqlite " ^^ path))
    apply_pragmas pragmas

  -- `SELECT 1 FROM schema_migrations WHERE name = ?`
  unfoldable pub migration_applied : String → Setup Bool
  migration_applied name s = elim (disk.fault s.step) [
    | none ↦ (ok (contains s.names name), ticked s)
    | some e ↦ (
      if is_no_rows e then ok Bool.false else err (wrap ("check migration " ^^ name) e),
      ticked s,
    )
  ]

  abbrev pub with_body : String → Schema → Result Error Schema
  with_body body s = ok (record s { bodies = s.bodies ++ body ∷ [] })

  abbrev pub with_name : String → Schema → Result Error Schema
  with_name name s =
      if contains s.names name
      then err constraint
      else ok (record s { names = s.names ++ name ∷ [] })

  -- The statements of the transaction, up to its commit.
  unfoldable pub recorded : String → String → Setup (Unit {0})
  unfolding executed
  recorded name body = do
    or_return (executed (with_body body)) (wrap ("apply migration " ^^ name))
    or_return (executed (with_name name)) (wrap ("record migration " ^^ name))
    or_return (executed unchanged) (wrap ("commit migration " ^^ name))

  -- `defer tx.Rollback()`
  abbrev pub rolled_back :
      Schema → Result Error (Unit {0}) × Schema → Result Error (Unit {0}) × Schema
  rolled_back before (ok u, s) = (ok u, s)
  rolled_back before (err e, s) = (err e, record s { names = before.names; bodies = before.bodies })

  unfoldable pub in_transaction : Setup (Unit {0}) → Setup (Unit {0})
  in_transaction m s = rolled_back s (m s)

  unfoldable pub apply_migration : String → String → Setup (Unit {0})
  unfolding recorded in_transaction
  apply_migration name body = do
    or_return (executed unchanged) (wrap ("begin migration " ^^ name))
    in_transaction (recorded name body)

  unfoldable pub migrate_one : String → Bool → Setup (Unit {0})
  unfolding apply_migration
  migrate_one name applied = if applied then pure tt else do
    body ← or_return (lift (disk.read_file name)) (wrap ("read migration " ^^ name))
    apply_migration name body

  unfoldable pub migrate_all : List String → Setup (Unit {0})
  unfolding migrate_one migration_applied
  migrate_all [] = pure tt
  migrate_all (name ∷ names) = do
    applied ← migration_applied name
    migrate_one name applied
    migrate_all names

  unfoldable pub migrate : Setup (Unit {0})
  unfolding migrate_all order_by
  migrate = do
    or_return (executed unchanged) (wrap "create schema_migrations")
    names ← or_return (lift disk.glob) (wrap "list migrations")
    migrate_all (order_by text_le names)

  unfoldable pub make_dir : String → Setup (Unit {0})
  make_dir dir =
      if not (dir == "") && not (dir == ".")
      then or_return (lift (disk.mkdir_all dir)) (wrap ("create db directory " ^^ dir))
      else pure tt

  -- `New`
  unfoldable pub new_store : String → Setup (Unit {0})
  unfolding make_dir open_path migrate
  new_store path = do make_dir (disk.dir path); open_path path; migrate
