-- ===== src/ProcessMonitor.antt =====
-- src/monitor/processMonitor/: the dump of a guest's file, and the check of a file against
-- MalwareBazaar with its cache.
pub mod Cache
pub mod Chunks
pub mod Verdicts
pub mod Memo
pub mod Dump
pub mod LocalCopy
pub mod Verdict
use idsproject.Base.{
  Text, ℕ, zero, suc, ◌++◌, codes, String, ℤ, pos, ltb_ℤ, decimal, is_empty, text_eq, starts_with,
  ◌==◌, Bool, true, false, not, ◌&&◌, Option, none, some, List, [], ◌∷◌, if◌then◌else◌, Run, Result,
  ok, spent, lift, pure, fail, throw, call, need, need_or_throw, effect, ensure, or_value, attempt,
  ◌>>=◌, ◌>>◌,
}
use idsproject.Host.{Libvirt, Nlohmann, JsonBuild, Crypto, Disk, Shell, Folders, Sqlite, Curl}
use idsproject.FileMonitor.Hex.{hex_text}
use idsproject.HashDb.{
  HashDb, ProcessRecord, open_hash_db, close_hash_db, initialize, get_record, set_record,
}
use idsproject.Signatures.{query_malware_bazaar}

unfoldable pub compute_sha256 : Crypto → Text → Text
compute_sha256 crypto input = hex_text (crypto.sha256 input)

ends_with_slash : Text → Bool
ends_with_slash [] = false
ends_with_slash (c ∷ []) = c == b'/'
ends_with_slash (_ ∷ d ∷ s) = ends_with_slash (d ∷ s)

-- `std::filesystem::path::operator/`
unfoldable pub join : Text → Text → Text
unfolding ends_with_slash
join a b =
    if starts_with (codes "/") b
    then b
    else if is_empty a
    then b
    else if ends_with_slash a
    then a ++ b
    else a ++ codes "/" ++ b

-- `path::filename`: what stands behind the last slash.
unfoldable pub filename : Text → Text
filename s = last_part s []
  where
    last_part : Text → Text → Text
    last_part [] acc = acc
    last_part (c ∷ s) acc = if c == b'/' then last_part s [] else last_part s (acc ++ c ∷ [])

unfoldable pub new_record : Text → Bool → ℕ → ProcessRecord
new_record guest_path malicious now = record {
  name = guest_path;
  status = if malicious then codes "malicious" else codes "clean";
  last_checked = pos now;
}

module _ {S J H : Type 0} (json : Nlohmann J) (disk : Disk S) (curl : Curl S H) where
  -- The verdict of an answer, and of none.
  unfoldable pub verdict_of : Option J → Run S Bool
  verdict_of none = pure false
  verdict_of (some j) = do
    status ← need_or_throw (json.value_string j (codes "query_status") [])
    pure (text_eq status (codes "ok"))

  -- The service's verdict: malicious where it answers and its status is "ok".
  unfoldable pub ask_api : Text → Run S Bool
  unfolding verdict_of
  ask_api hash = attempt (query_malware_bazaar disk curl json hash) >>= verdict_of

module _ {S J Db Stmt H : Type 0} (json : Nlohmann J) (disk : Disk S) (sqlite : Sqlite S Db Stmt)
    (curl : Curl S H) where
  unfoldable pub ask_and_store : HashDb Db → Text → Text → ℕ → Run S Bool
  ask_and_store db hash guest_path now = do
    malicious ← ask_api json disk curl hash
    set_record sqlite db hash (new_record guest_path malicious now)
    pure malicious

  -- The cache first, and else the service, whose verdict is stored whatever became of the request.
  unfoldable pub judge : HashDb Db → Text → Text → ℕ → Run S Bool
  unfolding ask_and_store
  judge db hash guest_path now = do
    known ← get_record sqlite db hash
    elim known [
      | none ↦ ask_and_store db hash guest_path now
      | some rec ↦ pure (text_eq rec.status (codes "malicious"))
    ]

module _ {S Dom : Type 0} (virt : Libvirt S Dom) where
  unfoldable pub free_behind : {A : Type 0} → Option Dom → (Dom → Run S A) → Run S A
  free_behind none body s = fail s
  free_behind (some dom) body s = let (r, s') = body dom s in (r, virt.domain_free dom s')

  -- `getDomain`: the handle is freed on every way out of the function that holds it, also by an exception
  -- that a caller catches; one that nothing catches ends the program, and nothing is stated of the state
  -- behind it.
  unfoldable pub with_domain : {A : Type 0} → Text → (Dom → Run S A) → Run S A
  unfolding free_behind
  with_domain vm_name body = do found ← call (virt.lookup_by_name vm_name); free_behind found body

module _ {S Dom J : Type 0} (virt : Libvirt S Dom) (json : Nlohmann J) (build : JsonBuild J)
    (crypto : Crypto) where
  -- A command of the agent with its arguments; a null answer is `none`.
  unfoldable pub agent : Dom → Text → List (Text × J) → Run S (Option Text)
  agent dom execute arguments = do
    cmd ← need_or_throw (
        build.dump (
          build.object (
            (codes "execute", build.text execute)
            ∷ (codes "arguments", build.object arguments)
            ∷ [])))
    call (virt.agent_command dom cmd (pos 10))

  -- The handle of `guest-file-open`.
  unfoldable pub open_guest_file : Dom → Text → Run S ℤ
  open_guest_file dom path = do
    opened ←
        agent dom (codes "guest-file-open")
          ((codes "path", build.text path) ∷ (codes "mode", build.text (codes "rb")) ∷ [])
        >>= need
    parsed ← need (json.parse opened)
    ensure (json.contains parsed (codes "return"))
    returned ← need_or_throw (json.at_key parsed (codes "return"))
    ensure (json.is_number_integer returned)
    handle ← need_or_throw (json.get_int returned)
    ensure (not (ltb_ℤ handle (pos 0)))
    pure handle

  -- One answer of `guest-file-read`: its data, and whether it is the last.
  unfoldable pub read_answer : Text → Run S (Text × Bool)
  read_answer text = do
    root ← need_or_throw (json.parse text)
    returned ← need_or_throw (json.at_key root (codes "return"))
    b64 ← need_or_throw (json.value_string returned (codes "buf-b64") [])
    if is_empty b64 then pure ([], true) else do
      data_read ← need_or_throw (crypto.decode b64)
      eof ← need_or_throw (json.value_bool returned (codes "eof") false)
      pure (data_read, eof)

  unfoldable pub ask_chunk : Dom → ℤ → Run S (Option Text)
  unfolding agent
  ask_chunk dom handle =
      agent dom (codes "guest-file-read")
        ((codes "handle", build.int handle) ∷ (codes "count", build.int (pos 65536)) ∷ [])

  -- The loop over the blocks, whose number the guest decides. A null answer ends it like the last block.
  unfoldable pub read_chunks : ℕ → Dom → ℤ → Text → Run S Text
  read_chunks zero dom handle all_data = lift spent
  read_chunks (suc fuel) dom handle all_data = do
    reply ← ask_chunk dom handle
    elim reply [
      | none ↦ pure all_data
      | some text ↦ do
        (data_read, last) ← read_answer text
        elim last [
          | true ↦ pure (all_data ++ data_read)
          | false ↦ read_chunks fuel dom handle (all_data ++ data_read)
        ]
    ]

  module _ (disk : Disk S) (shell : Shell S) (folders : Folders S) where
    -- The path of the file that was written, for `localPath`.
    unfoldable pub save_dump : Text → Text → Text → Run S Text
    save_dump vm_name guest_path all_data = do
      call (shell.create_directories (codes "/tmp/IDS-TFG/snapshots")) >>= need_or_throw
      ts ← call shell.now
      let path =
          codes "/tmp/IDS-TFG/snapshots/"
          ++ (vm_name
              ++ (codes "_"
                  ++ (filename guest_path ++ (codes "_" ++ (decimal ts ++ codes ".bin")))))
      is_open ← call (disk.open_write path)
      ensure is_open
      effect (disk.write path all_data)
      pure path

    unfoldable pub dump_guest_file : ℕ → Text → Text → Run S Text
    unfolding with_domain agent open_guest_file read_chunks save_dump
    dump_guest_file fuel vm_name guest_path = with_domain virt vm_name λ dom. do
      handle ← open_guest_file dom guest_path
      all_data ← read_chunks fuel dom handle []
      agent dom (codes "guest-file-close") ((codes "handle", build.int handle) ∷ [])
      save_dump vm_name guest_path all_data

    unfoldable pub remove_file : Text → Run S (Unit {0})
    remove_file path = do call (folders.remove path) >>= need_or_throw; pure tt

    module _ {Db Stmt H : Type 0} (sqlite : Sqlite S Db Stmt) (curl : Curl S H) where
      need_or_remove : Text → Option Text → Run S Text
      need_or_remove path none = do remove_file path; fail
      need_or_remove path (some contents) = pure contents

      pub check_local : Text → Text → Bool → HashDb Db → Run S Bool
      check_local guest_path local_path should_remove db = do
        ready ← initialize sqlite db
        if ready
            then pure tt
            else (do if should_remove then remove_file local_path else pure tt; fail)
        contents ← call (λ s. (disk.read local_path s, s)) >>= need_or_remove local_path
        now ← call shell.now
        malicious ← judge json disk sqlite curl db (compute_sha256 crypto contents) guest_path now
        if should_remove then remove_file local_path else pure tt
        remove_file local_path
        pure malicious

      -- The destructor of the database runs on every way out.
      pub with_db : Text → (HashDb Db → Run S Bool) → Run S Bool
      with_db path body = do db ← open_hash_db sqlite path; closing db
        where
          closing : HashDb Db → Run S Bool
          closing db s = let (r, s') = body db s in (r, (close_hash_db sqlite db s').1)

      -- The file itself where the host has one of that name, or else a dump of the guest's.
      local_copy : ℕ → Text → Text → Run S (Text × Bool)
      local_copy fuel vm_name guest_path = do
        on_host ← call (λ s. (shell.exists guest_path s, s))
        if on_host
            then pure (guest_path, false)
            else do path ← dump_guest_file fuel vm_name guest_path; pure (path, true)

      -- `fail` inside is the answer false.
      unfoldable pub check_guest_file : ℕ → Text → Text → Run S Bool
      unfolding local_copy with_db check_local need_or_remove
      check_guest_file fuel vm_name guest_path = or_value false do
        (local_path, should_remove) ← local_copy fuel vm_name guest_path
        root ← call (λ s. (folders.current_path s, s))
        call (shell.create_directories (join root (codes "cache"))) >>= need_or_throw
        with_db (join (join root (codes "cache")) (vm_name ++ codes "_cache.db"))
            (check_local guest_path local_path should_remove)
