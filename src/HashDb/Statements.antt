-- ===== src/HashDb/Statements.antt =====
-- No prepared statement is left open.
use idsproject.Base.{Text, ℕ, suc, ℤ, none, some, ◌≡◌, refl, ◌∙◌, Option-cases, inl, inr}
use idsproject.Host.{Sqlite}
use idsproject.HashDb.{
  HashDb, ProcessRecord, set_record, get_record, store_with, run_upsert, bind_record, select_with,
  run_select, upsert, select,
}

-- What SQLite documents of the number of open statements.
pub record IsCounted {S Db Stmt : Type 0} (sqlite : Sqlite S Db Stmt) (count : S → ℕ) : Type 0 where
  pub prepare_some :
      (db : Db) (sql : Text) (s : S) (stmt : Stmt)
      → (sqlite.prepare db sql s).0 ≡ some stmt
      → count (sqlite.prepare db sql s).1 ≡ suc (count s)
  pub prepare_none :
      (db : Db) (sql : Text) (s : S)
      → (sqlite.prepare db sql s).0 ≡ none
      → count (sqlite.prepare db sql s).1 ≡ count s
  pub bind_text :
      (st : Stmt) (i : ℕ) (t : Text) (s : S) → count (sqlite.bind_text st i t s) ≡ count s
  pub bind_int64 :
      (st : Stmt) (i : ℕ) (v : ℤ) (s : S) → count (sqlite.bind_int64 st i v s) ≡ count s
  pub step : (st : Stmt) (s : S) → count (sqlite.step st s).1 ≡ count s
  pub finalize : (st : Stmt) (s : S) (n : ℕ) → count s ≡ suc n → count (sqlite.finalize st s) ≡ n

module _ {S Db Stmt : Type 0} (sqlite : Sqlite S Db Stmt) (count : S → ℕ)
    (C : IsCounted sqlite count) where
  run_upsert-count :
      (stmt : Stmt) (hash : Text) (rec : ProcessRecord) (s : S) (n : ℕ)
      → count s ≡ suc n
      → count (run_upsert sqlite stmt hash rec s).1 ≡ n
  unfolding run_upsert bind_record
  run_upsert-count stmt hash rec s n e = C.finalize stmt _ n (
      C.step stmt _
      ∙ (C.bind_int64 stmt 4 _ _
          ∙ (C.bind_text stmt 3 _ _ ∙ (C.bind_text stmt 2 _ _ ∙ (C.bind_text stmt 1 _ _ ∙ e)))))

  run_select-count :
      (stmt : Stmt) (hash : Text) (s : S) (n : ℕ)
      → count s ≡ suc n
      → count (run_select sqlite stmt hash s).1 ≡ n
  unfolding run_select
  run_select-count stmt hash s n e =
      C.finalize stmt _ n (C.step stmt _ ∙ (C.bind_text stmt 1 _ _ ∙ e))

  -- However storing a record ends, as many statements are open behind it as before it, by any count
  -- that the calls change as SQLite documents.
  pub set_record-balanced :
      (db : HashDb Db) (hash : Text) (rec : ProcessRecord) (s : S)
      → count (set_record sqlite db hash rec s).1 ≡ count s
  unfolding set_record store_with
  set_record-balanced none hash rec s = refl
  set_record-balanced (some db) hash rec s = elim (Option-cases (sqlite.prepare db upsert s).0) [
    | inl e ↦ rw e (C.prepare_none db upsert s e)
    | inr (stmt, e) ↦
        rw e (run_upsert-count stmt hash rec _ (count s) (C.prepare_some db upsert s stmt e))
  ]

  -- However looking a hash up ends, as many statements are open behind it as before it, by any count
  -- that the calls change as SQLite documents.
  pub get_record-balanced :
      (db : HashDb Db) (hash : Text) (s : S) → count (get_record sqlite db hash s).1 ≡ count s
  unfolding get_record select_with
  get_record-balanced none hash s = refl
  get_record-balanced (some db) hash s = elim (Option-cases (sqlite.prepare db select s).0) [
    | inl e ↦ rw e (C.prepare_none db select s e)
    | inr (stmt, e) ↦
        rw e (run_select-count stmt hash _ (count s) (C.prepare_some db select s stmt e))
  ]
