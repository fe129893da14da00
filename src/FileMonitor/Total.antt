-- ===== src/FileMonitor/Total.antt =====
-- The file monitor never lets an exception out: every failure of the agent, of JSON or of the digest
-- is an early return.
use idsproject.Base.{Text, Bool, true, false, Option, none, some, Returns, returns_rules}
use idsproject.Host.{Libvirt, JsonC, Evp}
use idsproject.FileMonitor.{free_unless, free_if_null, hash_content, file_hash}
use idsproject.FileMonitor.Guest.{ask, answer, read_file_from_vm}

module _ {S Dom J Ctx : Type 0} (virt : Libvirt S Dom) (json : JsonC J) (evp : Evp S Ctx) where
  ask-Returns : (dom : Dom) (cmd : Text) → Returns (ask virt json dom cmd)
  unfolding ask
  ask-Returns dom cmd = search returns_rules

  answer-Returns : (text : Text) → Returns (answer virt json text)
  unfolding answer
  answer-Returns text = search returns_rules

  read_file_from_vm-Returns :
      (dom : Dom) (path : Text) → Returns (read_file_from_vm virt json dom path)
  unfolding read_file_from_vm
  read_file_from_vm-Returns dom path = search (returns_rules, ask-Returns, answer-Returns) depth 20

  free_unless-Returns : (ctx : Ctx) (b : Bool) → Returns (free_unless virt json evp ctx b)
  unfolding free_unless
  free_unless-Returns ctx true = search returns_rules
  free_unless-Returns ctx false = search returns_rules

  free_if_null-Returns : (ctx : Ctx) (o : Option Text) → Returns (free_if_null virt json evp ctx o)
  unfolding free_if_null
  free_if_null-Returns ctx none = search returns_rules
  free_if_null-Returns ctx (some d) = search returns_rules

  hash_content-Returns : (content : Text) → Returns (hash_content virt json evp content)
  unfolding hash_content
  hash_content-Returns content =
      search (returns_rules, free_unless-Returns, free_if_null-Returns) depth 20

  pub file_hash-Returns : (dom : Dom) (path : Text) → Returns (file_hash virt json evp dom path)
  unfolding file_hash
  file_hash-Returns dom path =
      search (returns_rules, read_file_from_vm-Returns, hash_content-Returns) depth 10
