-- ===== src/Tests/Databases.antt =====
-- A database of one table, with the bindings of the statement that is being prepared.
use idsproject.Base.{
  Text, ℕ, ℤ, pos, text_eq, text_eq_refl, lookup, insert, lookup-insert, Bool, true, false, Option,
  none, some, List, [], ◌==◌, ◌≡◌, refl, sym, ◌∙◌, ap, arith, ok, if◌then◌else◌, zero, suc,
  Option-cases, inl, inr,
}
use idsproject.Host.{Sqlite, Disk, Curl}
use idsproject.HashDb.{ProcessRecord, upsert, select, get_record, set_record}
use idsproject.ProcessMonitor.Cache.{IsTable}
use idsproject.HashDb.Statements.{IsCounted}

-- The bound values, the rows, and the number of open statements.
pub record Table : Type 0 where
  pub hash : Text
  pub row : ProcessRecord
  pub rows : List (Text × ProcessRecord)
  pub open_count : ℕ

abbrev pub empty_row : ProcessRecord
empty_row = record { name = []; status = []; last_checked = pos 0 }

abbrev pub empty_table : Table
empty_table = record { hash = []; row = empty_row; rows = []; open_count = 0 }

abbrev bind : ℕ → Text → Table → Table
bind i t s =
    if i == 2
    then record s { row = record (s.row) { name = t } }
    else if i == 3
    then record s { row = record (s.row) { status = t } }
    else record s { hash = t }

abbrev row_code : Option ProcessRecord → ℤ
row_code none = pos 101
row_code (some rec) = pos 100

-- A statement is whether it selects.
abbrev run_step : Bool → Table → ℤ × Table
run_step true s = (row_code (lookup s.hash s.rows), s)
run_step false s = (pos 101, record s { rows = insert s.hash s.row s.rows })

abbrev row_or_empty : Option ProcessRecord → ProcessRecord
row_or_empty none = empty_row
row_or_empty (some rec) = rec

abbrev current : Table → ProcessRecord
current s = row_or_empty (lookup s.hash s.rows)

abbrev column : ℕ → ProcessRecord → Text
column zero rec = rec.name
column (suc n) rec = rec.status

abbrev less : ℕ → ℕ
less zero = zero
less (suc n) = n

abbrev pub table_sqlite : Sqlite Table Unit Bool
table_sqlite = record {
  open_db = λ p s. ((true, tt), s);
  close = λ d s. s;
  exec = λ d t s. (true, s);
  prepare = λ d t s. (some (text_eq t select), record s { open_count = suc s.open_count });
  bind_text = λ st i t s. bind i t s;
  bind_int64 = λ st i v s. record s { row = record (s.row) { last_checked = v } };
  step = run_step;
  column_text = λ st i s. column i (current s);
  column_int64 = λ st i s. (current s).last_checked;
  finalize = λ st s. record s { open_count = less s.open_count };
}

abbrev pub no_disk : Disk Table
no_disk = record { read = λ f s. none; open_write = λ f s. (false, s); write = λ f t s. s }

abbrev pub no_curl : Curl Table Unit
no_curl = record {
  easy_init = λ s. (none, s);
  easy_escape = λ h t s. (none, s);
  easy_perform = λ h r s. ((false, []), s);
  easy_cleanup = λ h s. s;
}

select_eq : text_eq select select ≡ true
select_eq = text_eq_refl select

upsert_eq : text_eq upsert select ≡ false
unfolding text_eq
upsert_eq = refl

get_record-table :
    (hash : Text) (s : Table)
    → (get_record table_sqlite (some tt) hash s).0 ≡ ok (lookup hash s.rows)
unfolding get_record
get_record-table hash s = elim (Option-cases (lookup hash s.rows)) [
  | inl e ↦ rw (get_record, select_eq, e)
  | inr (rec, e) ↦ rw (get_record, select_eq, e)
]

set_record-rows :
    (hash : Text) (rec : ProcessRecord) (s : Table)
    → (set_record table_sqlite (some tt) hash rec s).1.rows ≡ insert hash rec s.rows
unfolding set_record
set_record-rows hash rec s = rw (set_record, upsert_eq)

pub table_sqlite-IsTable : IsTable table_sqlite (some tt)
unfolding set_record get_record
table_sqlite-IsTable = record {
  set_record-ok = λ hash rec s. rw (set_record, upsert_eq);
  get_record-set_record = λ hash rec s.
      get_record-table hash (set_record table_sqlite (some tt) hash rec s).1
      ∙ ap ok
          (ap (lookup hash) (set_record-rows hash rec s) ∙ rw (lookup-insert, text_eq_refl hash));
  get_record-get_record = λ hash s.
      get_record-table hash (get_record table_sqlite (some tt) hash s).1
      ∙ (rw (get_record, select_eq) refl ∙ sym (get_record-table hash s));
  get_record-ok = λ hash s. (lookup hash s.rows, get_record-table hash s);
}

bind-count : (i : ℕ) (t : Text) (s : Table) → (bind i t s).open_count ≡ s.open_count
bind-count i t s = ground arith

pub table_sqlite-IsCounted : IsCounted table_sqlite (λ s. s.open_count)
table_sqlite-IsCounted = record {
  prepare_some = λ db sql s stmt e. refl;
  prepare_none = λ db sql s e. absurd (cc);
  bind_text = λ st i t s. bind-count i t s;
  bind_int64 = λ st i v s. refl;
  step = step-count;
  finalize = λ st s n e. rw e;
}
  where
    step-count : (st : Bool) (s : Table) → (run_step st s).1.open_count ≡ s.open_count
    step-count true s = refl
    step-count false s = refl
