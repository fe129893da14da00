-- ===== src/HashDb/Metered.antt =====
-- What no call of SQLite changes, no function of the class changes.
use idsproject.Base.{Text, ℕ, ℤ, Option, none, some, ◌≡◌, refl, ◌∙◌}
use idsproject.Host.{Sqlite}
use idsproject.HashDb.{
  HashDb, ProcessRecord, get_record, set_record, select_with, run_select, store_with, run_upsert,
  bind_record, select, upsert,
}

pub record IsLeftAlone {S Db Stmt : Type 0} (sqlite : Sqlite S Db Stmt) (requests : S → ℕ)
    : Type 0 where
  pub prepare : (db : Db) (text : Text) (s : S) → requests (sqlite.prepare db text s).1 ≡ requests s
  pub bind_text :
      (stmt : Stmt) (i : ℕ) (t : Text) (s : S) → requests (sqlite.bind_text stmt i t s) ≡ requests s
  pub bind_int64 :
      (stmt : Stmt) (i : ℕ) (n : ℤ) (s : S) → requests (sqlite.bind_int64 stmt i n s) ≡ requests s
  pub step : (stmt : Stmt) (s : S) → requests (sqlite.step stmt s).1 ≡ requests s
  pub finalize : (stmt : Stmt) (s : S) → requests (sqlite.finalize stmt s) ≡ requests s

module _ {S Db Stmt : Type 0} (sqlite : Sqlite S Db Stmt) (requests : S → ℕ)
    (L : IsLeftAlone sqlite requests) where
  select_with-requests :
      (hash : Text) (o : Option Stmt) (s : S)
      → requests (select_with sqlite hash o s).1 ≡ requests s
  unfolding select_with run_select
  select_with-requests hash none s = refl
  select_with-requests hash (some stmt) s =
      L.finalize stmt _ ∙ L.step stmt _ ∙ L.bind_text stmt 1 hash s

  store_with-requests :
      (hash : Text) (rec : ProcessRecord) (o : Option Stmt) (s : S)
      → requests (store_with sqlite hash rec o s).1 ≡ requests s
  unfolding store_with run_upsert bind_record
  store_with-requests hash rec none s = refl
  store_with-requests hash rec (some stmt) s =
      L.finalize stmt _
      ∙ L.step stmt _
      ∙ L.bind_int64 stmt 4 _ _
      ∙ L.bind_text stmt 3 _ _
      ∙ L.bind_text stmt 2 _ _
      ∙ L.bind_text stmt 1 hash s

  pub get_record-requests :
      (db : HashDb Db) (hash : Text) (s : S) → requests (get_record sqlite db hash s).1 ≡ requests s
  unfolding get_record
  get_record-requests none hash s = refl
  get_record-requests (some db) hash s =
      select_with-requests hash (sqlite.prepare db select s).0 _ ∙ L.prepare db select s

  pub set_record-requests :
      (db : HashDb Db) (hash : Text) (rec : ProcessRecord) (s : S)
      → requests (set_record sqlite db hash rec s).1 ≡ requests s
  unfolding set_record
  set_record-requests none hash rec s = refl
  set_record-requests (some db) hash rec s =
      store_with-requests hash rec (sqlite.prepare db upsert s).0 _ ∙ L.prepare db upsert s
