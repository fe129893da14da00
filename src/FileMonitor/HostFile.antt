-- ===== src/FileMonitor/HostFile.antt =====
-- What `storeFileHash` relies on: a disk that keeps what is written, and services that leave the hash
-- file alone while the guest's files are read and hashed.
use idsproject.Base.{
  Text, negsuc, Bool, true, false, Option, none, some, [], ◌++◌, ◌≡◌, refl, ◌∙◌, ok, Run, Result,
  pure, fail, call, need, effect, ensure, or_value, ◌>>=◌, ◌>>◌, continue,
}
use idsproject.Host.{Libvirt, JsonC, Evp, Disk}
use idsproject.FileMonitor.{free_unless, free_if_null, hash_content, file_hash}
use idsproject.FileMonitor.Hex.{hex_text}
use idsproject.FileMonitor.Guest.{ask, answer, read_file_from_vm}

-- Files keep what is written to them: opening one for writing empties it, and `<<` appends.
pub record IsDisk {S : Type 0} (disk : Disk S) : Type 0 where
  pub read-open_write :
      (f : Text) (s : S)
      → (disk.open_write f s).0 ≡ true
      → disk.read f (disk.open_write f s).1 ≡ some []
  pub read-write :
      (f t u : Text) (s : S)
      → disk.read f s ≡ some u
      → disk.read f (disk.write f t s) ≡ some (u ++ t)

-- The code leaves the host's file alone.
pub record Keeps {S A : Type 0} (disk : Disk S) (f : Text) (m : Run S A) : Type 0 where
  pub at : (s : S) → disk.read f (m s).1 ≡ disk.read f s

-- libvirt and the digest library do not touch the host's hash file.
pub record LeavesFile {S Dom Ctx : Type 0} (disk : Disk S) (virt : Libvirt S Dom) (evp : Evp S Ctx)
    (f : Text) : Type 0 where
  pub lookup_by_name : (n : Text) → Keeps disk f (call (virt.lookup_by_name n))
  pub domain_free : (d : Dom) → Keeps disk f (effect (virt.domain_free d))
  pub agent_command : (d : Dom) (c : Text) → Keeps disk f (call (virt.agent_command d c (negsuc 1)))
  pub ctx_new : Keeps disk f (call evp.ctx_new)
  pub ctx_free : (c : Ctx) → Keeps disk f (effect (evp.ctx_free c))
  pub digest_init : (c : Ctx) → Keeps disk f (call (evp.digest_init c))
  pub digest_update : (c : Ctx) (t : Text) → Keeps disk f (call (evp.digest_update c t))
  pub digest_final : (c : Ctx) → Keeps disk f (call (evp.digest_final c))

module _ {S : Type 0} (disk : Disk S) (f : Text) where
  Keeps-pure : {A : Type 0} (a : A) → Keeps disk f (pure a)
  Keeps-pure a = record { at = λ s. refl }

  Keeps-fail : {A : Type 0} → Keeps disk f (fail {A = A})
  Keeps-fail = record { at = λ s. refl }

  Keeps-need : {A : Type 0} (o : Option A) → Keeps disk f (need o)
  Keeps-need none = record { at = λ s. refl }
  Keeps-need (some a) = record { at = λ s. refl }

  Keeps-ensure : (b : Bool) → Keeps disk f (ensure b)
  Keeps-ensure true = record { at = λ s. refl }
  Keeps-ensure false = record { at = λ s. refl }

  Keeps-or_value : {A : Type 0} (a : A) (m : Run S A) → Keeps disk f m → Keeps disk f (or_value a m)
  Keeps-or_value a m h = record { at = h.at }

  after_bind :
      {A B : Type 0} (r : Result A) (s : S) (k : A → Run S B)
      → ((a : A) → Keeps disk f (k a))
      → disk.read f (continue r k s).1 ≡ disk.read f s
  after_bind (ok a) s k hk = (hk a).at s
  after_bind _ s k hk = refl

  Keeps-bind :
      {A B : Type 0} (m : Run S A) (k : A → Run S B)
      → Keeps disk f m
      → ((a : A) → Keeps disk f (k a))
      → Keeps disk f (m >>= k)
  Keeps-bind m k hm hk = record { at = λ s. after_bind (m s).0 (m s).1 k hk ∙ hm.at s }

ruleset keeps_rules = (Keeps-pure, Keeps-fail, Keeps-need, Keeps-ensure, Keeps-or_value, Keeps-bind)

module _ {S Dom J Ctx : Type 0} (virt : Libvirt S Dom) (json : JsonC J) (evp : Evp S Ctx)
    (disk : Disk S) (f : Text) (L : LeavesFile disk virt evp f) where
  ask-Keeps : (dom : Dom) (cmd : Text) → Keeps disk f (ask virt json dom cmd)
  unfolding ask
  ask-Keeps dom cmd = search (keeps_rules, L.agent_command)

  answer-Keeps : (text : Text) → Keeps disk f (answer virt json text)
  unfolding answer
  answer-Keeps text = search keeps_rules

  read-Keeps : (dom : Dom) (path : Text) → Keeps disk f (read_file_from_vm virt json dom path)
  unfolding read_file_from_vm
  read-Keeps dom path = search (keeps_rules, ask-Keeps, answer-Keeps, L.agent_command) depth 20

  free_unless-Keeps : (ctx : Ctx) (b : Bool) → Keeps disk f (free_unless virt json evp ctx b)
  unfolding free_unless
  free_unless-Keeps ctx true = search keeps_rules
  free_unless-Keeps ctx false = search (keeps_rules, L.ctx_free)

  free_if_null-Keeps :
      (ctx : Ctx) (o : Option Text) → Keeps disk f (free_if_null virt json evp ctx o)
  unfolding free_if_null
  free_if_null-Keeps ctx none = search (keeps_rules, L.ctx_free)
  free_if_null-Keeps ctx (some d) = search keeps_rules

  new-Keeps : Keeps disk f (call evp.ctx_new >>= need)
  new-Keeps = search (keeps_rules, L.ctx_new)

  final-Keeps :
      (c : Ctx) → Keeps disk f (call (evp.digest_final c) >>= free_if_null virt json evp c)
  final-Keeps c = search (keeps_rules, L.digest_final, free_if_null-Keeps)

  tail-Keeps : (c : Ctx) (d : Text) → Keeps disk f (effect (evp.ctx_free c) >> pure d)
  tail-Keeps c d = search (keeps_rules, L.ctx_free)

  hash_content-Keeps : (content : Text) → Keeps disk f (hash_content virt json evp content)
  unfolding hash_content
  hash_content-Keeps content = Keeps-bind _ _ _ _ new-Keeps λ ctx.
      Keeps-bind _ _ _ _ (L.digest_init ctx) λ i. Keeps-bind _ _ _ _ (free_unless-Keeps ctx i) λ _.
        Keeps-bind _ _ _ _ (L.digest_update ctx content) λ u.
          Keeps-bind _ _ _ _ (free_unless-Keeps ctx u)
            λ _. Keeps-bind _ _ _ _ (final-Keeps ctx) λ d. tail-Keeps ctx (hex_text d)

  pub file_hash-Keeps : (dom : Dom) (path : Text) → Keeps disk f (file_hash virt json evp dom path)
  unfolding file_hash
  file_hash-Keeps dom path = search (keeps_rules, read-Keeps, hash_content-Keeps) depth 10
