-- ===== src/HashDb/Rows.antt =====
-- The table as a map from hashes to records, over a database in working order.
use idsproject.Base.{
  Text, ℕ, ℤ, pos, eqb_ℤ, text_eq, ◌==◌, true, Option, none, some, ◌≡◌, refl, ◌∙◌, ap,
  if◌then◌else◌, ok,
}
use idsproject.Host.{Sqlite}
use idsproject.HashDb.{
  ProcessRecord, upsert, select, set_record, get_record, bind_record, run_upsert, store_with,
  read_row, run_select, select_with,
}

abbrev pub Rows : Type 0
Rows = Text → Option ProcessRecord

abbrev pub with_row : Text → ProcessRecord → Rows → Rows
with_row hash rec rows h = if text_eq hash h then some rec else rows h

-- What can be seen of a database: the rows of the table, and of a statement its text and what is bound.
pub record Sight (S Stmt : Type 0) : Type 0 where
  pub rows : S → Rows
  pub sql : S → Stmt → Text
  pub text_at : S → Stmt → ℕ → Text
  pub int_at : S → Stmt → ℕ → ℤ

-- The record that the upsert takes from its bindings.
abbrev pub bound_record : {S Stmt : Type 0} → Sight S Stmt → S → Stmt → ProcessRecord
bound_record sight s stmt = record {
  name = sight.text_at s stmt 2;
  status = sight.text_at s stmt 3;
  last_checked = sight.int_at s stmt 4;
}

module _ {S Db Stmt : Type 0} (sqlite : Sqlite S Db Stmt) (db : Db) where
  -- The columns of the row that a step has reached, if it has.
  abbrev pub HasRow : Stmt → ℤ × S → Option ProcessRecord → Type 0
  HasRow stmt (rc, s) none = rc ≡ pos 101
  HasRow stmt (rc, s) (some rec) =
      (rc ≡ pos 100)
      × (sqlite.column_text stmt 0 s ≡ rec.name)
      × (sqlite.column_text stmt 1 s ≡ rec.status)
      × (sqlite.column_int64 stmt 2 s ≡ rec.last_checked)

  -- What SQLite promises of a table with the hash as its key, where no call fails: a binding is kept
  -- until it is changed, the upsert writes one row and ends with SQLITE_DONE, and the select reaches the
  -- row of its hash with SQLITE_ROW or ends with SQLITE_DONE.
  pub record IsDatabase (sight : Sight S Stmt) : Type 0 where
    pub prepare :
        (text : Text) (s : S)
        → (stmt : Stmt) × (s' : S) × (sqlite.prepare db text s ≡ (some stmt, s'))
          × (sight.sql s' stmt ≡ text)
          × (sight.rows s' ≡ sight.rows s)
    pub bind_text :
        (stmt : Stmt) (i : ℕ) (t : Text) (s : S)
        → (sight.rows (sqlite.bind_text stmt i t s) ≡ sight.rows s)
          × (sight.sql (sqlite.bind_text stmt i t s) stmt ≡ sight.sql s stmt)
    pub text_at-bind_text :
        (stmt : Stmt) (i j : ℕ) (t : Text) (s : S)
        → sight.text_at (sqlite.bind_text stmt i t s) stmt j
          ≡ (if i == j then t else sight.text_at s stmt j)
    pub bind_int64 :
        (stmt : Stmt) (i : ℕ) (n : ℤ) (s : S)
        → (sight.rows (sqlite.bind_int64 stmt i n s) ≡ sight.rows s)
          × (sight.sql (sqlite.bind_int64 stmt i n s) stmt ≡ sight.sql s stmt)
          × (sight.int_at (sqlite.bind_int64 stmt i n s) stmt i ≡ n)
    pub text_at-bind_int64 :
        (stmt : Stmt) (i j : ℕ) (n : ℤ) (s : S)
        → sight.text_at (sqlite.bind_int64 stmt i n s) stmt j ≡ sight.text_at s stmt j
    pub step-upsert :
        (stmt : Stmt) (s : S)
        → sight.sql s stmt ≡ upsert
        → ((sqlite.step stmt s).0 ≡ pos 101)
          × (sight.rows (sqlite.step stmt s).1
              ≡ with_row (sight.text_at s stmt 1) (bound_record sight s stmt) (sight.rows s))
    pub step-select :
        (stmt : Stmt) (s : S)
        → sight.sql s stmt ≡ select
        → (sight.rows (sqlite.step stmt s).1 ≡ sight.rows s)
          × HasRow stmt (sqlite.step stmt s) (sight.rows s (sight.text_at s stmt 1))
    pub finalize : (stmt : Stmt) (s : S) → sight.rows (sqlite.finalize stmt s) ≡ sight.rows s

  module _ (sight : Sight S Stmt) (D : IsDatabase sight) where
    -- The answer of the select, from what its step has reached.
    answer-HasRow :
        (stmt : Stmt) (r : ℤ × S) (o : Option ProcessRecord)
        → HasRow stmt r o
        → (if eqb_ℤ r.0 (pos 100) then some (read_row sqlite stmt r.1) else none) ≡ o
    unfolding read_row
    answer-HasRow stmt (rc, s) none e = rw e refl
    answer-HasRow stmt (rc, s) (some rec) (e, a, b, c) = rw (e, a, b, c) refl

    pub get_record-rows :
        (hash : Text) (s : S)
        → ((get_record sqlite (some db) hash s).0 ≡ ok (sight.rows s hash))
          × (sight.rows (get_record sqlite (some db) hash s).1 ≡ sight.rows s)
    unfolding get_record select_with run_select
    get_record-rows hash s =
        let (stmt, s1, e, q, kept) = D.prepare select s in
        let s2 = sqlite.bind_text stmt 1 hash s1 in
        let (kept', q') = D.bind_text stmt 1 hash s1 in
        let at : sight.text_at s2 stmt 1 ≡ hash = D.text_at-bind_text stmt 1 1 hash s1 in
        let (kept'', row) = D.step-select stmt s2 (q' ∙ q) in
        let same : sight.rows s2 (sight.text_at s2 stmt 1) ≡ sight.rows s hash =
          ap (λ r. r (sight.text_at s2 stmt 1)) (kept' ∙ kept) ∙ ap (sight.rows s) at in
        (
          rw e (ap ok (answer-HasRow stmt (sqlite.step stmt s2) _ row ∙ same)),
          rw e (D.finalize stmt (sqlite.step stmt s2).1 ∙ kept'' ∙ kept' ∙ kept),
        )

    pub set_record-rows :
        (hash : Text) (rec : ProcessRecord) (s : S)
        → ((set_record sqlite (some db) hash rec s).0 ≡ ok true)
          × (sight.rows (set_record sqlite (some db) hash rec s).1
              ≡ with_row hash rec (sight.rows s))
    unfolding set_record store_with run_upsert bind_record
    set_record-rows hash rec s =
        let (stmt, s0, e, q, kept) = D.prepare upsert s in
        let s1 = sqlite.bind_text stmt 1 hash s0 in
        let s2 = sqlite.bind_text stmt 2 rec.name s1 in
        let s3 = sqlite.bind_text stmt 3 rec.status s2 in
        let s4 = sqlite.bind_int64 stmt 4 rec.last_checked s3 in
        let (r1, q1) = D.bind_text stmt 1 hash s0 in
        let (r2, q2) = D.bind_text stmt 2 rec.name s1 in
        let (r3, q3) = D.bind_text stmt 3 rec.status s2 in
        let (r4, q4, i4) = D.bind_int64 stmt 4 rec.last_checked s3 in
        let (rc, written) = D.step-upsert stmt s4 (q4 ∙ q3 ∙ q2 ∙ q1 ∙ q) in
        let at1 : sight.text_at s4 stmt 1 ≡ hash =
          D.text_at-bind_int64 stmt 4 1 rec.last_checked s3
          ∙ D.text_at-bind_text stmt 3 1 rec.status s2
          ∙ D.text_at-bind_text stmt 2 1 rec.name s1
          ∙ D.text_at-bind_text stmt 1 1 hash s0 in
        let at2 : sight.text_at s4 stmt 2 ≡ rec.name =
          D.text_at-bind_int64 stmt 4 2 rec.last_checked s3
          ∙ D.text_at-bind_text stmt 3 2 rec.status s2
          ∙ D.text_at-bind_text stmt 2 2 rec.name s1 in
        let at3 : sight.text_at s4 stmt 3 ≡ rec.status =
          D.text_at-bind_int64 stmt 4 3 rec.last_checked s3
          ∙ D.text_at-bind_text stmt 3 3 rec.status s2 in
        let bound : bound_record sight s4 stmt ≡ rec = simp (at2, at3, i4) in
        (
          rw e (ap (λ n. ok (eqb_ℤ n (pos 101))) rc),
          rw e (
              D.finalize stmt (sqlite.step stmt s4).1
              ∙ written
              ∙ cc (at1, bound, r4 ∙ r3 ∙ r2 ∙ r1 ∙ kept)),
        )
