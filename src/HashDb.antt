-- ===== src/HashDb.antt =====
-- src/backend/SqliteHashDB.h and SqliteHashDB.cpp: the table of checked hashes of one machine.
pub mod Statements
pub mod Rows
pub mod Metered
use idsproject.Base.{
  Text, ℕ, codes, String, ℤ, pos, eqb_ℤ, Bool, true, false, Option, none, some, if◌then◌else◌, Run,
  pure, call, effect, ◌>>=◌, ◌>>◌,
}
use idsproject.Host.{Sqlite}

pub record ProcessRecord : Type 0 where
  pub name : Text
  pub status : Text
  pub last_checked : ℤ

-- The object: its handle, or a null pointer where the file did not open.
abbrev pub HashDb : Type 0 → Type 0
HashDb Db = Option Db

abbrev pub create_table : Text
create_table =
    codes
      "\n        CREATE TABLE IF NOT EXISTS process_hash (\n            hash          TEXT PRIMARY KEY,\n            name          TEXT NOT NULL,\n            status        TEXT NOT NULL,\n            last_checked  INTEGER NOT NULL\n        );\n    "

abbrev pub upsert : Text
upsert =
    codes
      "\n        INSERT INTO process_hash(hash,name,status,last_checked)\n        VALUES(?,?,?,?)\n        ON CONFLICT(hash) DO UPDATE SET\n          name = excluded.name,\n          status = excluded.status,\n          last_checked = excluded.last_checked;\n    "

abbrev pub select : Text
select =
    codes
      "\n        SELECT name, status, last_checked\n          FROM process_hash\n         WHERE hash = ?;\n    "

module _ {S Db Stmt : Type 0} (sqlite : Sqlite S Db Stmt) where
  unfoldable pub opened : Bool → Db → Run S (HashDb Db)
  opened true db = pure (some db)
  opened false db = do effect (sqlite.close db); pure none

  -- The constructor.
  unfoldable pub open_hash_db : Text → Run S (HashDb Db)
  unfolding opened
  open_hash_db path = do (is_open, db) ← call (sqlite.open_db path); opened is_open db

  -- The destructor.
  unfoldable pub close_hash_db : HashDb Db → Run S (Unit {0})
  close_hash_db none = pure tt
  close_hash_db (some db) = effect (sqlite.close db)

  unfoldable pub initialize : HashDb Db → Run S Bool
  initialize none = pure false
  initialize (some db) = call (sqlite.exec db create_table)

  bind_record : Stmt → Text → ProcessRecord → Run S (Unit {0})
  bind_record stmt hash rec = do
    effect (sqlite.bind_text stmt 1 hash)
    effect (sqlite.bind_text stmt 2 rec.name)
    effect (sqlite.bind_text stmt 3 rec.status)
    effect (sqlite.bind_int64 stmt 4 rec.last_checked)

  run_upsert : Stmt → Text → ProcessRecord → Run S Bool
  unfolding bind_record
  run_upsert stmt hash rec = do
    bind_record stmt hash rec
    rc ← call (sqlite.step stmt)
    effect (sqlite.finalize stmt)
    pure (eqb_ℤ rc (pos 101))

  store_with : Text → ProcessRecord → Option Stmt → Run S Bool
  store_with hash rec none = pure false
  store_with hash rec (some stmt) = run_upsert stmt hash rec

  -- Whether the record was stored, with SQLITE_DONE from the step.
  unfoldable pub set_record : HashDb Db → Text → ProcessRecord → Run S Bool
  unfolding store_with run_upsert
  set_record none hash rec = pure false
  set_record (some db) hash rec = call (sqlite.prepare db upsert) >>= store_with hash rec

  read_row : Stmt → S → ProcessRecord
  read_row stmt s = record {
    name = sqlite.column_text stmt 0 s;
    status = sqlite.column_text stmt 1 s;
    last_checked = sqlite.column_int64 stmt 2 s;
  }

  run_select : Stmt → Text → Run S (Option ProcessRecord)
  unfolding read_row
  run_select stmt hash = do
    effect (sqlite.bind_text stmt 1 hash)
    rc ← call (sqlite.step stmt)
    row ← call (λ s. (read_row stmt s, s))
    effect (sqlite.finalize stmt)
    pure (if eqb_ℤ rc (pos 100) then some row else none)

  select_with : Text → Option Stmt → Run S (Option ProcessRecord)
  select_with hash none = pure none
  select_with hash (some stmt) = run_select stmt hash

  -- `none` is the answer false: no handle, no statement, or no row (SQLITE_ROW) of this hash.
  unfoldable pub get_record : HashDb Db → Text → Run S (Option ProcessRecord)
  unfolding select_with run_select
  get_record none hash = pure none
  get_record (some db) hash = call (sqlite.prepare db select) >>= select_with hash
