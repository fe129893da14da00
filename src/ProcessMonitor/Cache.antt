-- ===== src/ProcessMonitor/Cache.antt =====
-- What the cache of verdicts means for the checks that come later.
use idsproject.Base.{
  Text, ℕ, subst, codes, text_eq, Bool, true, false, Option, none, some, ◌≡◌, refl, ◌∙◌, ap, sym,
  List, [], ◌∷◌, ok, failed, inl, inr, Option-cases, bind-eq-ok,
}
use idsproject.Host.{Nlohmann, Disk, Sqlite, Curl}
use idsproject.HashDb.{HashDb, ProcessRecord, get_record, set_record}
use idsproject.Signatures.{query_malware_bazaar}
use idsproject.ProcessMonitor.{judge, ask_api, ask_and_store, new_record}

-- A database in working order: a record that is put in is accepted and found, and a lookup changes
-- no answer.
pub record IsTable {S Db Stmt : Type 0} (sqlite : Sqlite S Db Stmt) (db : HashDb Db) : Type 0 where
  pub set_record-ok :
      (hash : Text) (rec : ProcessRecord) (s : S) → (set_record sqlite db hash rec s).0 ≡ ok true
  pub get_record-set_record :
      (hash : Text) (rec : ProcessRecord) (s : S)
      → (get_record sqlite db hash (set_record sqlite db hash rec s).1).0 ≡ ok (some rec)
  pub get_record-get_record :
      (hash : Text) (s : S)
      → (get_record sqlite db hash (get_record sqlite db hash s).1).0
        ≡ (get_record sqlite db hash s).0
  pub get_record-ok :
      (hash : Text) (s : S) → (o : Option ProcessRecord) × ((get_record sqlite db hash s).0 ≡ ok o)

module _ {S J Db Stmt H : Type 0} (json : Nlohmann J) (disk : Disk S) (sqlite : Sqlite S Db Stmt)
    (curl : Curl S H) (db : HashDb Db) (T : IsTable sqlite db) where
  -- A hash in the cache is judged by the cache alone.
  pub judge-known :
      (hash path : Text) (now : ℕ) (s : S) (rec : ProcessRecord)
      → (get_record sqlite db hash s).0 ≡ ok (some rec)
      → judge json disk sqlite curl db hash path now s
        ≡ (ok (text_eq rec.status (codes "malicious")), (get_record sqlite db hash s).1)
  unfolding judge
  judge-known hash path now s rec e = rw (judge, e)

  -- The verdict that a stored record stands for.
  pub status-verdict :
      (path : Text) (v : Bool) (now : ℕ)
      → text_eq (new_record path v now).status (codes "malicious") ≡ v
  unfolding new_record text_eq
  status-verdict path true now = refl
  status-verdict path false now = refl

  -- A hash that is not in the cache: behind the verdict of the service stands its record.
  pub judge-new :
      (hash path : Text) (now : ℕ) (s : S) {v : Bool} {s1 : S}
      → (get_record sqlite db hash s).0 ≡ ok none
      → ask_api json disk curl hash (get_record sqlite db hash s).1 ≡ (ok v, s1)
      → judge json disk sqlite curl db hash path now s
        ≡ (ok v, (set_record sqlite db hash (new_record path v now) s1).1)
  unfolding judge ask_and_store
  judge-new hash path now s {v} {s1} e asked =
      rw (judge, e, ask_and_store, asked, T.set_record-ok hash (new_record path v now) s1)

  -- A verdict on a hash that is not in the cache comes from the service.
  pub judge-asked :
      (hash path : Text) (now : ℕ) (s : S) {v : Bool} {s1 : S}
      → (get_record sqlite db hash s).0 ≡ ok none
      → judge json disk sqlite curl db hash path now s ≡ (ok v, s1)
      → (w : Bool) × (ask_api json disk curl hash (get_record sqlite db hash s).1
          ≡ (ok w, (ask_api json disk curl hash (get_record sqlite db hash s).1).1))
  unfolding judge ask_and_store
  judge-asked hash path now s unknown first =
      let s2 = (get_record sqlite db hash s).1 in
      let asking : judge json disk sqlite curl db hash path now s
          ≡ ask_and_store json disk sqlite curl db hash path now s2 =
        rw (judge, unknown) in
      let (w, e, _) = bind-eq-ok (ask_api json disk curl hash) _ s2 (sym asking ∙ first) in
      (w, ap (λ r. (r, (ask_api json disk curl hash s2).1)) e)

  remembers-new :
      (hash path path' : Text) (now now' : ℕ) (s : S) (v : Bool)
      → judge json disk sqlite curl db hash path' now'
          (set_record sqlite db hash (new_record path v now) s).1
        ≡ (
          ok v,
          (get_record sqlite db hash (set_record sqlite db hash (new_record path v now) s).1).1,
        )
  remembers-new hash path path' now now' s v =
      let s1 = (set_record sqlite db hash (new_record path v now) s).1 in
      judge-known hash path' now' s1 (new_record path v now)
        (T.get_record-set_record hash (new_record path v now) s)
      ∙ ap (λ b. (ok b, (get_record sqlite db hash s1).1)) (status-verdict path v now)

  -- With a database in working order, a verdict once given for a hash is given again by the next
  -- check of that hash, under whatever path and time, and this check is one lookup: no request.
  pub judge-remembers :
      (hash path path' : Text) (now now' : ℕ) (s : S) {v : Bool} {s1 : S}
      → judge json disk sqlite curl db hash path now s ≡ (ok v, s1)
      → judge json disk sqlite curl db hash path' now' s1 ≡ (ok v, (get_record sqlite db hash s1).1)
  judge-remembers hash path path' now now' s {v} {s1} first =
      let (o, got) = T.get_record-ok hash s in
      elim (Option-cases o) [
        | inr (rec, e) ↦
            let known : (get_record sqlite db hash s).0 ≡ ok (some rec) = got ∙ ap ok e in
            let once = judge-known hash path now s rec known in
            let at : s1 ≡ (get_record sqlite db hash s).1 = cc (once, first) in
            let verdict : text_eq rec.status (codes "malicious") ≡ v = cc (once, first) in
            let again : (get_record sqlite db hash s1).0 ≡ ok (some rec) =
              ap (λ t. (get_record sqlite db hash t).0) at
              ∙ (T.get_record-get_record hash s ∙ known) in
            judge-known hash path' now' s1 rec again
            ∙ ap (λ b. (ok b, (get_record sqlite db hash s1).1)) verdict
        | inl e ↦
            let unknown : (get_record sqlite db hash s).0 ≡ ok none = got ∙ ap ok e in
            let (w, asked) = judge-asked hash path now s unknown first in
            let once = judge-new hash path now s unknown asked in
            let s2 = (ask_api json disk curl hash (get_record sqlite db hash s).1).1 in
            let same : w ≡ v = cc (once, first) in
            let at : (set_record sqlite db hash (new_record path w now) s2).1 ≡ s1 =
              cc (once, first) in
            subst
              (λ t.
                judge json disk sqlite curl db hash path' now' t
                ≡ (ok v, (get_record sqlite db hash t).1))
              at
              (remembers-new hash path path' now now' s2 w
                ∙ ap
                    (λ b. (
                      ok b,
                      (get_record sqlite db hash
                          (set_record sqlite db hash (new_record path w now) s2).1).1,
                    ))
                    same)
      ]

  -- Every one of these later checks of the hash gives the verdict by one lookup, with no request.
  abbrev pub AlwaysJudged : Text → Bool → List (Text × ℕ) → S → Type 0
  AlwaysJudged hash v [] s = Unit
  AlwaysJudged hash v ((path, now) ∷ checks) s =
      (judge json disk sqlite curl db hash path now s ≡ (ok v, (get_record sqlite db hash s).1))
      × AlwaysJudged hash v checks (get_record sqlite db hash s).1

  known-AlwaysJudged :
      (hash : Text) (rec : ProcessRecord) (v : Bool) (checks : List (Text × ℕ)) (s : S)
      → text_eq rec.status (codes "malicious") ≡ v
      → (get_record sqlite db hash s).0 ≡ ok (some rec)
      → AlwaysJudged hash v checks s
  known-AlwaysJudged hash rec v [] s same e = tt
  known-AlwaysJudged hash rec v ((path, now) ∷ checks) s same e = (
    judge-known hash path now s rec e ∙ ap (λ b. (ok b, (get_record sqlite db hash s).1)) same,
    known-AlwaysJudged hash rec v checks (get_record sqlite db hash s).1 same
        (T.get_record-get_record hash s ∙ e),
  )

  -- Over a database in working order, which accepts and finds what is put in, a request that fails counts
  -- as a clean verdict, and for good: where the hash is not in the cache and the request ends in its
  -- failure, the check says "not malicious", and so does every later check of that hash in a row, without
  -- a request, whatever the service would say by then.
  pub judge-offline :
      (hash path : Text) (now : ℕ) (later : List (Text × ℕ)) (s : S)
      → (get_record sqlite db hash s).0 ≡ ok none
      → (query_malware_bazaar disk curl json hash (get_record sqlite db hash s).1).0 ≡ failed
      → (s1 : S) × (judge json disk sqlite curl db hash path now s ≡ (ok false, s1))
        × AlwaysJudged hash false later s1
  unfolding ask_api
  judge-offline hash path now later s unknown offline =
      let s2 = (query_malware_bazaar disk curl json hash (get_record sqlite db hash s).1).1 in
      let asked : ask_api json disk curl hash (get_record sqlite db hash s).1 ≡ (ok false, s2) =
        rw (ask_api, offline) in
      let rec = new_record path false now in
      (
        (set_record sqlite db hash rec s2).1,
        judge-new hash path now s unknown asked,
        known-AlwaysJudged hash rec false later _ (status-verdict path false now)
            (T.get_record-set_record hash rec s2),
      )
