-- ===== src/ProcessMonitor/Memo.antt =====
-- Many checks in a row over one table: what they answer, and how many requests they make.
use idsproject.Base.{
  Text, ℕ, suc, ◌+◌, ◌≤◌, codes, text_eq, text_eq_refl, Bool, true, false, ◌||◌, Option, none, some,
  Option-cases, List, [], ◌∷◌, length, ◌≡◌, ◌⊎◌, inl, inr, refl, sym, subst, ◌∙◌, ap, arith, Run,
  ok, pure, ◌>>=◌, Preserves, preserves_rules, Preserves-pure, kept_behind, attempt, bind-eq-ok,
}
use idsproject.Host.{Nlohmann, Disk, Sqlite, Curl}
use idsproject.HashDb.{HashDb, ProcessRecord, get_record, set_record}
use idsproject.HashDb.Metered.{IsLeftAlone, get_record-requests, set_record-requests}
use idsproject.Signatures.Requests.{IsMetered, query_malware_bazaar-requests}
use idsproject.HashDb.Rows.{Sight, IsDatabase, with_row, get_record-rows, set_record-rows}
use idsproject.Signatures.{query_malware_bazaar}
use idsproject.ProcessMonitor.{judge, ask_api, verdict_of, new_record}
use idsproject.ProcessMonitor.Cache.{IsTable, judge-known, judge-new, judge-asked}
use idsproject.ProcessMonitor.Verdicts.{
  Check, fresh, Remembers, row_verdict, is_row, verdict_in, has_row, verdict_in_known,
  verdict_in_new, has_row_new,
}

module _ {S J Db Stmt H : Type 0} (json : Nlohmann J) (disk : Disk S) (sqlite : Sqlite S Db Stmt)
    (curl : Curl S H) where
  -- Checks in a row over one table. The code opens the same file anew for each of them.
  unfoldable pub judge_all : HashDb Db → List Check → Run S (List Bool)
  judge_all db [] = pure []
  judge_all db (c ∷ checks) = do
    v ← judge json disk sqlite curl db c.hash c.path c.now
    vs ← judge_all db checks
    pure (v ∷ vs)

module _ {S J Db Stmt H : Type 0} (json : Nlohmann J) (disk : Disk S) (sqlite : Sqlite S Db Stmt)
    (curl : Curl S H) (db : Db) (sight : Sight S Stmt) (requests : S → ℕ)
    (D : IsDatabase sqlite db sight) (L : IsLeftAlone sqlite requests)
    (M : IsMetered curl sight.rows requests) where
  ask_api-requests :
      (hash : Text) (s : S)
      → (requests (ask_api json disk curl hash s).1 ≤ suc (requests s))
        × (sight.rows (ask_api json disk curl hash s).1 ≡ sight.rows s)
  unfolding ask_api
  ask_api-requests hash s =
      kept_behind (attempt (query_malware_bazaar disk curl json hash)) (verdict_of json disk curl) s
        behind (query_malware_bazaar-requests disk curl json sight.rows requests M hash s)
    where
      AtMostOne : S → Type 0
      AtMostOne t = (requests t ≤ suc (requests s)) × (sight.rows t ≡ sight.rows s)

      behind : (o : Option J) → Preserves AtMostOne (verdict_of json disk curl o)
      behind none = Preserves-pure false
      behind (some j) = search preserves_rules depth 6

  -- A database in working order is a table in working order.
  pub database-IsTable : IsTable sqlite (some db)
  database-IsTable = record {
    set_record-ok = λ hash rec s. (set_record-rows sqlite db sight D hash rec s).0;
    get_record-set_record = λ hash rec s.
        (get_record-rows sqlite db sight D hash (set_record sqlite (some db) hash rec s).1).0
        ∙ ap (λ r. ok (r hash)) (set_record-rows sqlite db sight D hash rec s).1
        ∙ rw (text_eq_refl hash) refl;
    get_record-get_record = λ hash s.
        (get_record-rows sqlite db sight D hash (get_record sqlite (some db) hash s).1).0
        ∙ ap (λ r. ok (r hash)) (get_record-rows sqlite db sight D hash s).1
        ∙ sym (get_record-rows sqlite db sight D hash s).0;
    get_record-ok = λ hash s. (sight.rows s hash, (get_record-rows sqlite db sight D hash s).0);
  }

  -- A check with a verdict: from the table, with no request; or with one request at most, and stored.
  abbrev IsCheck : Check → S → Bool → S → Type 0
  IsCheck c s v s' =
      ((rec : ProcessRecord) × (sight.rows s c.hash ≡ some rec)
        × (text_eq rec.status (codes "malicious") ≡ v)
        × (sight.rows s' ≡ sight.rows s)
        × (requests s' ≡ requests s))
      ⊎ ((sight.rows s c.hash ≡ none)
          × (sight.rows s' ≡ with_row c.hash (new_record c.path v c.now) (sight.rows s))
          × (requests s' ≤ suc (requests s)))

  judge-IsCheck :
      (c : Check) (s : S) {v : Bool} {s' : S}
      → judge json disk sqlite curl (some db) c.hash c.path c.now s ≡ (ok v, s')
      → IsCheck c s v s'
  judge-IsCheck c s {v} {s'} answered =
      let got = get_record-rows sqlite db sight D c.hash s in
      let s1 = (get_record sqlite (some db) c.hash s).1 in
      let r1 = get_record-requests sqlite requests L (some db) c.hash s in
      elim (Option-cases (sight.rows s c.hash)) [
        | inr (rec, e) ↦
            let once =
              judge-known json disk sqlite curl (some db) database-IsTable c.hash c.path c.now s rec
                (got.0 ∙ ap ok e) in
            let at : s1 ≡ s' = cc (once, answered) in
            inl (
              rec,
              e,
              cc (once, answered),
              subst (λ t. sight.rows t ≡ sight.rows s) at got.1,
              subst (λ t. requests t ≡ requests s) at r1,
            )
        | inl e ↦
            let unknown = got.0 ∙ ap ok e in
            let (w, asked) =
              judge-asked json disk sqlite curl (some db) database-IsTable c.hash c.path c.now s
                unknown answered in
            let once =
              judge-new json disk sqlite curl (some db) database-IsTable c.hash c.path c.now s
                unknown asked in
            let s2 = (ask_api json disk curl c.hash s1).1 in
            let same : w ≡ v = cc (once, answered) in
            let at : (set_record sqlite (some db) c.hash (new_record c.path w c.now) s2).1 ≡ s' =
              cc (once, answered) in
            let (r2, kept) = ask_api-requests c.hash s1 in
            let r3 =
              set_record-requests sqlite requests L (some db) c.hash (new_record c.path w c.now)
                s2 in
            let stored =
              (set_record-rows sqlite db sight D c.hash (new_record c.path w c.now) s2).1 in
            inr (
              e,
              subst (λ t. sight.rows t ≡ with_row c.hash (new_record c.path v c.now) (sight.rows s))
                  at (stored ∙ cc (kept ∙ got.1, same)),
              subst (λ t. requests t ≤ suc (requests s)) at (omega (arith, r1, r2, r3)),
            )
      ]

  extended :
      (c : Check) (checks : List Check) (s : S) (v : Bool) (s1 : S) (ws : List Bool) (s2 : S)
      → IsCheck c s v s1
      → Remembers (verdict_in (sight.rows s1)) checks ws
      → requests s2 ≤ requests s1 + length (fresh (has_row (sight.rows s1)) checks)
      → Remembers (verdict_in (sight.rows s)) (c ∷ checks) (v ∷ ws)
        × (requests s2 ≤ requests s + length (fresh (has_row (sight.rows s)) (c ∷ checks)))
  extended c checks s v s1 ws s2 (inl (rec, e, same, kept, r)) later bound =
      let at : has_row (sight.rows s) c.hash ≡ true = ap is_row e in
      let verdicts =
        ap verdict_in kept ∙ sym (verdict_in_known (sight.rows s) c.hash rec v e same) in
      let count : requests s2 ≤ requests s + length (fresh (has_row (sight.rows s)) checks) =
        subst (λ k. requests s2 ≤ requests s + length (fresh (has_row k) checks)) kept
          (omega (arith, bound, r)) in
      (
        (inl (ap row_verdict e ∙ ap some same), subst (λ k. Remembers k checks ws) verdicts later),
        rw at count,
      )
  extended c checks s v s1 ws s2 (inr (e, stored, r)) later bound =
      let rec = new_record c.path v c.now in
      let verdicts =
        ap verdict_in stored ∙ sym (verdict_in_new (sight.rows s) c.hash c.path v c.now) in
      let rows = ap has_row stored ∙ sym (has_row_new (sight.rows s) c.hash rec) in
      let known : Text → Bool = λ h. text_eq c.hash h || has_row (sight.rows s) h in
      let count : requests s2 ≤ requests s1 + length (fresh known checks) =
        subst (λ k. requests s2 ≤ requests s1 + length (fresh k checks)) rows bound in
      let at : has_row (sight.rows s) c.hash ≡ false = ap is_row e in
      (
        (inr (ap row_verdict e), subst (λ k. Remembers k checks ws) verdicts later),
        rw at (omega (arith, count, r)),
      )

  -- Many checks in a row over a database in working order, if none of them ends in an exception: a hash
  -- that has a row keeps its verdict, every later check of a hash gives the verdict of its first one, and
  -- there is at most one request for each different hash that had no row at the start.
  pub judge_all_refines :
      (checks : List Check) (s : S) {vs : List Bool} {s' : S}
      → judge_all json disk sqlite curl (some db) checks s ≡ (ok vs, s')
      → Remembers (verdict_in (sight.rows s)) checks vs
        × (requests s' ≤ requests s + length (fresh (has_row (sight.rows s)) checks))
  unfolding judge_all
  judge_all_refines [] s {vs} {s'} e =
      let none_left : vs ≡ [] = cc e in
      let at : s ≡ s' = cc e in
      (rw none_left tt, subst (λ t. requests t ≤ requests s + 0) at (omega arith))
  judge_all_refines (c ∷ checks) s {vs} {s'} e =
      let (v, e1, e2) =
        bind-eq-ok (judge json disk sqlite curl (some db) c.hash c.path c.now) _ s e in
      let s1 = (judge json disk sqlite curl (some db) c.hash c.path c.now s).1 in
      let (ws, e3, e4) = bind-eq-ok (judge_all json disk sqlite curl (some db) checks) _ s1 e2 in
      let s2 = (judge_all json disk sqlite curl (some db) checks s1).1 in
      let all : vs ≡ v ∷ ws = cc e4 in
      let at : s2 ≡ s' = cc e4 in
      let (later, bound) = judge_all_refines checks s1 {vs = ws} {s' = s2} (ap (λ r. (r, s2)) e3) in
      let (remembers, most) =
        extended c checks s v s1 ws s2 (judge-IsCheck c s (ap (λ r. (r, s1)) e1)) later bound in
      (
        subst (Remembers (verdict_in (sight.rows s)) (c ∷ checks)) (sym all) remembers,
        subst (λ t. requests t ≤ requests s + length (fresh (has_row (sight.rows s)) (c ∷ checks)))
            at most,
      )
