-- ===== src/ProcessMonitor/Verdict.antt =====
-- The check of a file that only the guest has (checkGuestFileWithBazaarAPI), from the dump to the verdict.
use idsproject.Base.{
  Text, ℕ, suc, ◌++◌, ◌≤◌, ℤ, length, Bool, true, false, some, List, ◌≡◌, refl, ◌∙◌, ap, Run, ok,
  pure, call, need_or_throw, ◌>>=◌, ◌>>◌, bind_ok, sym, or_value, codes,
}
use idsproject.Host.{Libvirt, Nlohmann, JsonBuild, Crypto, Disk, Shell, Folders, Sqlite, Curl}
use idsproject.FileMonitor.HostFile.{IsDisk}
use idsproject.HashDb.{close_hash_db, initialize, open_hash_db, HashDb}
use idsproject.ProcessMonitor.{
  open_guest_file, dump_guest_file, judge, compute_sha256, check_guest_file, join, check_local,
  with_db, local_copy, need_or_remove, remove_file,
}
use idsproject.ProcessMonitor.Chunks.{joined, Delivers}
use idsproject.ProcessMonitor.Dump.{dump_guest_file-writes}
use idsproject.ProcessMonitor.LocalCopy.{LeavesDumps, IsOutside, open_hash_db-read, initialize-read}

-- Where the database of a machine is.
abbrev pub cache_of : Text → Text → Text
cache_of root vm_name = join (join root (codes "cache")) (vm_name ++ codes "_cache.db")

module _ {S Dom J : Type 0} (virt : Libvirt S Dom) (json : Nlohmann J) (build : JsonBuild J)
    (crypto : Crypto) (disk : Disk S) (shell : Shell S) (folders : Folders S) (D : IsDisk disk)
    {Db Stmt H : Type 0} (sqlite : Sqlite S Db Stmt) (curl : Curl S H) where
  -- What is run on the local copy, from the making of the cache's folder on.
  abbrev cached : Text → Text → Text × Bool → Run S Bool
  cached vm_name guest_path copy = do
    root ← call (λ t. (folders.current_path t, t))
    call (shell.create_directories (join root (codes "cache"))) >>= need_or_throw
    with_db virt json build crypto disk shell folders sqlite curl (cache_of root vm_name)
        (check_local virt json build crypto disk shell folders sqlite curl guest_path copy.0 copy.1)

  local_copy-dump :
      (fuel : ℕ) (vm_name guest_path : Text) (s : S) {path : Text} {s' : S}
      → shell.exists guest_path s ≡ false
      → dump_guest_file virt json build crypto disk shell folders fuel vm_name guest_path s
        ≡ (ok path, s')
      → local_copy virt json build crypto disk shell folders sqlite curl fuel vm_name guest_path s
        ≡ (ok (path, true), s')
  unfolding local_copy
  local_copy-dump fuel vm_name guest_path s {path} {s'} absent e = rw absent (
      bind_ok (dump_guest_file virt json build crypto disk shell folders fuel vm_name guest_path)
        (λ p. pure (p, true)) s e)

  remove_file-ok :
      (path : Text) (s : S) {removed : Bool} {s' : S}
      → folders.remove path s ≡ (some removed, s')
      → remove_file virt json build crypto disk shell folders path s ≡ (ok tt, s')
  unfolding remove_file
  remove_file-ok path s e =
      bind_ok (call (folders.remove path) >>= need_or_throw) (λ _. pure tt) s
        (ap (λ x. need_or_throw x.0 x.1) e)

  check_local-ok :
      (guest_path path contents : Text) (db : HashDb Db) (s6 : S) {now : ℕ} {v removed again : Bool}
      {s7 s8 s9 s10 s11 : S}
      → initialize sqlite db s6 ≡ (ok true, s7)
      → disk.read path s7 ≡ some contents
      → shell.now s7 ≡ (now, s8)
      → judge json disk sqlite curl db (compute_sha256 crypto contents) guest_path now s8
        ≡ (ok v, s9)
      → folders.remove path s9 ≡ (some removed, s10)
      → folders.remove path s10 ≡ (some again, s11)
      → check_local virt json build crypto disk shell folders sqlite curl guest_path path true db s6
        ≡ (ok v, s11)
  unfolding check_local need_or_remove
  check_local-ok guest_path path contents db s6 {now} {v} {removed} {again} {s7} {s8} {s9} {s10}
        {s11} ready held at judged gone gone_again =
      let reading =
        call (λ t. (disk.read path t, t))
        >>= need_or_remove virt json build crypto disk shell folders sqlite curl path in
      let found : reading s7 ≡ (ok contents, s7) = rw held refl in
      let timed : call shell.now s7 ≡ (ok now, s8) = ap (λ x. (ok x.0, x.1)) at in
      let removing = remove_file virt json build crypto disk shell folders path in
      let done : Bool → Run S Bool = λ malicious. (do removing; removing; pure malicious) in
      let judging : ℕ → Run S Bool = λ time.
        (judge json disk sqlite curl db (compute_sha256 crypto contents) guest_path time
          >>= done) in
      bind_ok (initialize sqlite db) _ s6 ready
      ∙ bind_ok reading _ s7 found
      ∙ bind_ok (call shell.now) judging s7 timed
      ∙ bind_ok (judge json disk sqlite curl db (compute_sha256 crypto contents) guest_path now)
          done s8 judged
      ∙ bind_ok removing (λ _. removing >> pure v) s9 (remove_file-ok path s9 gone)
      ∙ bind_ok removing (λ _. pure v) s10 (remove_file-ok path s10 gone_again)

  cached-judge :
      (vm_name guest_path path contents : Text) (s4 : S) {made : Bool} {db : HashDb Db} {now : ℕ}
      {v removed again : Bool} {s5 s6 s7 s8 s9 s10 s11 : S}
      → shell.create_directories (join (folders.current_path s4) (codes "cache")) s4
        ≡ (some made, s5)
      → open_hash_db sqlite (cache_of (folders.current_path s4) vm_name) s5 ≡ (ok db, s6)
      → initialize sqlite db s6 ≡ (ok true, s7)
      → disk.read path s7 ≡ some contents
      → shell.now s7 ≡ (now, s8)
      → judge json disk sqlite curl db (compute_sha256 crypto contents) guest_path now s8
        ≡ (ok v, s9)
      → folders.remove path s9 ≡ (some removed, s10)
      → folders.remove path s10 ≡ (some again, s11)
      → cached vm_name guest_path (path, true) s4 ≡ (ok v, (close_hash_db sqlite db s11).1)
  unfolding with_db
  cached-judge vm_name guest_path path contents s4 {made} {db} {s5} {s6} made_at opened ready held
        at judged gone gone_again =
      let root = folders.current_path s4 in
      bind_ok (call (shell.create_directories (join root (codes "cache"))) >>= need_or_throw) _ s4
        (ap (λ x. need_or_throw x.0 x.1) made_at)
      ∙ bind_ok (open_hash_db sqlite (cache_of root vm_name)) _ s5 opened
      ∙ ap (λ x. (x.0, (close_hash_db sqlite db x.1).1))
          (check_local-ok guest_path path contents db s6 ready held at judged gone gone_again)

  -- A file that the host does not have is judged by its own bytes: where the guest delivers these blocks,
  -- they are dumped, the cache's folder is there, its database opens and is initialised, and the dump can be
  -- removed twice, the check gives the verdict of that database and the service on the SHA-256 of exactly
  -- those blocks in their order, and closes the database. The release of the domain leaves the host's files
  -- alone, the making of folders and the cache's database leave the snapshots alone, in whose folder that
  -- database is not, and there is fuel for one round more than there are blocks.
  pub check_guest_file-judge :
      (fuel : ℕ) (vm_name guest_path : Text) (s : S) {dom : Dom} {s1 s2 s3 : S} {handle : ℤ}
      {blocks : List Text} {path : Text} {made : Bool} {db : HashDb Db} {now : ℕ}
      {v removed again : Bool} {s4 s5 s6 s7 s8 s9 s10 s11 : S}
      → LeavesDumps virt json build crypto disk shell folders D sqlite curl
      → IsOutside (cache_of (folders.current_path s4) vm_name)
      → ((f : Text) (t : S) → disk.read f (virt.domain_free dom t) ≡ disk.read f t)
      → shell.exists guest_path s ≡ false
      → virt.lookup_by_name vm_name s ≡ (some dom, s1)
      → open_guest_file virt json build crypto dom guest_path s1 ≡ (ok handle, s2)
      → Delivers virt json build crypto dom handle s2 blocks s3
      → length blocks ≤ fuel
      → dump_guest_file virt json build crypto disk shell folders (suc fuel) vm_name guest_path s
        ≡ (ok path, s4)
      → shell.create_directories (join (folders.current_path s4) (codes "cache")) s4
        ≡ (some made, s5)
      → open_hash_db sqlite (cache_of (folders.current_path s4) vm_name) s5 ≡ (ok db, s6)
      → initialize sqlite db s6 ≡ (ok true, s7)
      → shell.now s7 ≡ (now, s8)
      → judge json disk sqlite curl db (compute_sha256 crypto (joined blocks)) guest_path now s8
        ≡ (ok v, s9)
      → folders.remove path s9 ≡ (some removed, s10)
      → folders.remove path s10 ≡ (some again, s11)
      → check_guest_file virt json build crypto disk shell folders sqlite curl
          (suc fuel)
          vm_name
          guest_path
          s
        ≡ (ok v, (close_hash_db sqlite db s11).1)
  unfolding check_guest_file
  check_guest_file-judge fuel vm_name guest_path s {s1} {blocks} {path} {db} {s4} {s5} {s6} {s7}
        leaves outside keeps absent found opened delivers le dumped made_at db_opened ready at
        judged gone gone_again =
      let root = folders.current_path s4 in
      let (named, held) =
        dump_guest_file-writes virt json build crypto disk shell folders D fuel vm_name guest_path s
          keeps found opened delivers le dumped in
      let read5 : disk.read path s5 ≡ some (joined blocks) =
        ap (λ x. disk.read path x.1) (sym made_at)
        ∙ leaves.create_directories (join root (codes "cache")) path s4
        ∙ held in
      let read6 : disk.read path s6 ≡ some (joined blocks) =
        ap (λ x. disk.read path x.1) (sym db_opened)
        ∙ open_hash_db-read virt json build crypto disk shell folders D sqlite curl path
            (cache_of root vm_name) s5 leaves outside named
        ∙ read5 in
      let read7 : disk.read path s7 ≡ some (joined blocks) =
        ap (λ x. disk.read path x.1) (sym ready)
        ∙ initialize-read virt json build crypto disk shell folders D sqlite curl path
            (cache_of root vm_name) s5 leaves outside named (ap (λ x. x.0) db_opened) s6
        ∙ read6 in
      let whole =
        bind_ok
          (local_copy virt json build crypto disk shell folders sqlite curl (suc fuel) vm_name
            guest_path)
          (cached vm_name guest_path) s
          (local_copy-dump (suc fuel) vm_name guest_path s absent dumped)
        ∙ cached-judge vm_name guest_path path (joined blocks) s4 made_at db_opened ready read7 at
            judged gone gone_again in
      ap (λ x. or_value false (λ _. x) s) whole
