-- ===== src/Signatures/Requests.antt =====
-- How many requests a query makes.
use idsproject.Base.{
  Text, ℕ, suc, ◌≤◌, Bool, true, false, Option, none, some, Option-cases, inl, inr, ◌≡◌, refl, ◌∙◌,
  arith, need, fail, lines, if◌then◌else◌,
}
use idsproject.Host.{Nlohmann, Disk, Curl, Request}
use idsproject.Signatures.{
  query_malware_bazaar, load_auth_key, find_key, env_path, send, request_for, form_of,
}

-- A count of the requests that only `curl_easy_perform` changes, and something that no call of libcurl does.
pub record IsMetered {S H R : Type 0} (curl : Curl S H) (rows : S → R) (requests : S → ℕ)
    : Type 0 where
  pub init :
      (s : S) → (requests (curl.easy_init s).1 ≡ requests s) × (rows (curl.easy_init s).1 ≡ rows s)
  pub escape :
      (h : H) (t : Text) (s : S)
      → (requests (curl.easy_escape h t s).1 ≡ requests s)
        × (rows (curl.easy_escape h t s).1 ≡ rows s)
  pub perform :
      (h : H) (r : Request) (s : S)
      → (requests (curl.easy_perform h r s).1 ≡ suc (requests s))
        × (rows (curl.easy_perform h r s).1 ≡ rows s)
  pub cleanup :
      (h : H) (s : S)
      → (requests (curl.easy_cleanup h s) ≡ requests s) × (rows (curl.easy_cleanup h s) ≡ rows s)

need_if-state :
    {S J : Type 0} (b : Bool) (o : Option J) (s : S) → ((if b then need o else fail) s).1 ≡ s
need_if-state false o s = refl
need_if-state true none s = refl
need_if-state true (some j) s = refl

module _ {S H J R : Type 0} (disk : Disk S) (curl : Curl S H) (json : Nlohmann J) (rows : S → R)
    (requests : S → ℕ) (M : IsMetered curl rows requests) where
  send-requests :
      (h : H) (key hash : Text) (s : S)
      → (requests (send disk curl json h key hash s).1 ≡ suc (requests s))
        × (rows (send disk curl json h key hash s).1 ≡ rows s)
  unfolding send
  send-requests h key hash s =
      let (a, a') = M.escape h hash s in
      let (b, b') =
        M.perform h (request_for key (form_of (curl.easy_escape h hash s).0))
          (curl.easy_escape h hash s).1 in
      let (c, c') =
        M.cleanup h
          (curl.easy_perform h (request_for key (form_of (curl.easy_escape h hash s).0))
            (curl.easy_escape h hash s).1).1 in
      (omega (arith, a, b, c), c' ∙ b' ∙ a')

  -- One request at most, and what libcurl leaves alone stays.
  pub query_malware_bazaar-requests :
      (hash : Text) (s : S)
      → (requests (query_malware_bazaar disk curl json hash s).1 ≤ suc (requests s))
        × (rows (query_malware_bazaar disk curl json hash s).1 ≡ rows s)
  unfolding query_malware_bazaar load_auth_key send
  query_malware_bazaar-requests hash s = elim (Option-cases (disk.read env_path s)) [
    | inl e ↦ rw e (omega arith, refl)
    | inr (contents, e) ↦ elim (Option-cases (find_key (lines contents))) [
      | inl e' ↦ rw (e, e') (omega arith, refl)
      | inr (key, e') ↦
          let (a, a') = M.init s in
          elim (Option-cases (curl.easy_init s).0) [
            | inl e'' ↦ rw (e, e', e'') (omega (arith, a), a')
            | inr (h, e'') ↦
                let s1 = (curl.easy_init s).1 in
                let (b, b') = send-requests h key hash s1 in
                rw (e, e', e'', need_if-state) (omega (arith, a, b), b' ∙ a')
          ]
    ]
  ]
