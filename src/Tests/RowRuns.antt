-- ===== src/Tests/RowRuns.antt =====
-- Checks in a row over a small database, with a service that knows every file for malicious.
use mathlib.Core.Path.{fun_ext}
use idsproject.Base.{
  Text, ℕ, suc, ◌+◌, ◌≤◌, ◌==◌, ℤ, pos, codes, text_eq, text_eq_refl, lookup, insert, lookup-insert,
  Bool, true, false, Option, none, some, Option-cases, Bool-cases, inl, inr, List, [], ◌∷◌, length,
  ◌≡◌, refl, arith, ok, if◌then◌else◌, ap, lines, trim_left, trim_right, starts_with,
}
use idsproject.Host.{Sqlite, Disk, Curl, Nlohmann}
use idsproject.HashDb.{ProcessRecord, upsert, select, get_record, set_record}
use idsproject.HashDb.Rows.{Sight, IsDatabase, HasRow}
use idsproject.HashDb.Metered.{IsLeftAlone}
use idsproject.Signatures.{query_malware_bazaar, find_key, trim}
use idsproject.Signatures.Requests.{IsMetered}
use idsproject.ProcessMonitor.{judge, ask_api, new_record}
use idsproject.ProcessMonitor.Verdicts.{Check, fresh, Remembers, verdict_in, has_row}
use idsproject.ProcessMonitor.Memo.{judge_all, judge_all_refines}
use idsproject.Tests.Documents.{Doc, text, obj, end, field, toy_nlohmann}
use idsproject.Tests.Databases.{empty_row}

pub record Store : Type 0 where
  pub texts : ℕ → Text
  pub ints : ℕ → ℤ
  pub rows : List (Text × ProcessRecord)
  pub requests : ℕ

abbrev set_at : {A : Type 0} → ℕ → A → (ℕ → A) → ℕ → A
set_at i a f j = if i == j then a else f j

abbrev bound : Store → ProcessRecord
bound s = record { name = s.texts 2; status = s.texts 3; last_checked = s.ints 4 }

abbrev code_of : Option ProcessRecord → ℤ
code_of none = pos 101
code_of (some rec) = pos 100

abbrev row_of : Option ProcessRecord → ProcessRecord
row_of none = empty_row
row_of (some rec) = rec

abbrev reached : Store → ProcessRecord
reached s = row_of (lookup (s.texts 1) s.rows)

-- A statement is its text.
abbrev run_step : Text → Store → ℤ × Store
run_step stmt s =
    if text_eq stmt select
    then (code_of (lookup (s.texts 1) s.rows), s)
    else (pos 101, record s { rows = insert (s.texts 1) (bound s) s.rows })

abbrev sqlite : Sqlite Store Unit Text
sqlite = record {
  open_db = λ p s. ((true, tt), s);
  close = λ d s. s;
  exec = λ d t s. (true, s);
  prepare = λ d t s. (some t, s);
  bind_text = λ st i t s. record s { texts = set_at i t s.texts };
  bind_int64 = λ st i n s. record s { ints = set_at i n s.ints };
  step = run_step;
  column_text = λ st i s. if i == 0 then (reached s).name else (reached s).status;
  column_int64 = λ st i s. (reached s).last_checked;
  finalize = λ st s. s;
}

abbrev sight : Sight Store Text
sight = record {
  rows = λ s h. lookup h s.rows;
  sql = λ s st. st;
  text_at = λ s st i. s.texts i;
  int_at = λ s st i. s.ints i;
}

select_eq : text_eq select select ≡ true
select_eq = text_eq_refl select

upsert_eq : text_eq upsert select ≡ false
unfolding text_eq
upsert_eq = refl

reached_row :
    (s : Store) (stmt : Text)
    → HasRow sqlite tt stmt (code_of (lookup (s.texts 1) s.rows), s) (lookup (s.texts 1) s.rows)
reached_row s stmt = elim (Option-cases (lookup (s.texts 1) s.rows)) [
  | inl e ↦ rw e refl
  | inr (rec, e) ↦ rw e (
    refl,
    ap (λ o. (row_of o).name) e,
    ap (λ o. (row_of o).status) e,
    ap (λ o. (row_of o).last_checked) e,
  )
]

set_at_same : {A : Type 0} (i : ℕ) (a : A) (f : ℕ → A) → set_at i a f i ≡ a
set_at_same i a f = ground arith

sqlite-IsDatabase : IsDatabase sqlite tt sight
sqlite-IsDatabase = record {
  prepare = λ t s. (t, s, refl, refl, refl);
  bind_text = λ st i t s. (refl, refl);
  text_at-bind_text = λ st i j t s. refl;
  bind_int64 = λ st i n s. (refl, refl, set_at_same i n s.ints);
  text_at-bind_int64 = λ st i j n s. refl;
  step-upsert =
      λ st s e. rw (e, upsert_eq) (refl, fun_ext λ h. lookup-insert (s.texts 1) h (bound s) s.rows);
  step-select = λ st s e. rw (e, select_eq) (refl, reached_row s select);
  finalize = λ st s. refl;
}

step-requests : (st : Text) (s : Store) → (run_step st s).1.requests ≡ s.requests
step-requests st s = elim (Bool-cases (text_eq st select)) [ inl e ↦ rw e refl | inr e ↦ rw e refl ]

sqlite-IsLeftAlone : IsLeftAlone sqlite (λ s. s.requests)
sqlite-IsLeftAlone = record {
  prepare = λ d t s. refl;
  bind_text = λ st i t s. refl;
  bind_int64 = λ st i n s. refl;
  step = step-requests;
  finalize = λ st s. refl;
}

abbrev curl : Curl Store Unit
curl = record {
  easy_init = λ s. (some tt, s);
  easy_escape = λ h t s. (some t, s);
  easy_perform = λ h r s. ((true, codes "{}" ∷ []), record s { requests = suc s.requests });
  easy_cleanup = λ h s. s;
}

curl-IsMetered : IsMetered curl sight.rows (λ s. s.requests)
curl-IsMetered = record {
  init = λ s. (refl, refl);
  escape = λ h t s. (refl, refl);
  perform = λ h r s. (refl, refl);
  cleanup = λ h s. (refl, refl);
}

abbrev disk : Disk Store
disk = record {
  read = λ f s. some (codes "AUTH_KEY=k\n");
  open_write = λ f s. (false, s);
  write = λ f t s. s;
}

abbrev json : Nlohmann Doc
json = toy_nlohmann (codes "{}") (obj (field (codes "query_status") (text (codes "ok")) end))

abbrev checks : List Check
checks =
    record { hash = codes "ff"; path = codes "/a"; now = 1 }
    ∷ record { hash = codes "aa"; path = codes "/b"; now = 2 }
    ∷ record { hash = codes "ff"; path = codes "/c"; now = 3 }
    ∷ []

abbrev start : Store
start = record { texts = λ i. []; ints = λ i. pos 0; rows = []; requests = 0 }

abbrev verdicts : List Bool
verdicts = true ∷ true ∷ true ∷ []

judged :
    judge_all json disk sqlite curl (some tt) checks start
    ≡ (ok verdicts, (judge_all json disk sqlite curl (some tt) checks start).1)
unfolding judge_all judge get_record set_record ask_api query_malware_bazaar find_key new_record
    text_eq lookup insert lines trim_left trim_right starts_with trim
judged = refl

judge_all_refines_example :
    Remembers (verdict_in (sight.rows start)) checks verdicts
    × ((judge_all json disk sqlite curl (some tt) checks start).1.requests
        ≤ 0 + length (fresh (has_row (sight.rows start)) checks))
judge_all_refines_example =
    judge_all_refines json disk sqlite curl tt sight (λ s. s.requests) sqlite-IsDatabase
      sqlite-IsLeftAlone curl-IsMetered checks start judged
