-- ===== src/ProcessMonitor/LocalCopy.antt =====
-- The opening of the cache's database in checkGuestFileWithBazaarAPI leaves a dump of a file alone.
use idsproject.Base.{
  Text, false, Bool-cases, none, some, ◌≡◌, inl, inr, refl, ◌∙◌, ok, codes, starts_with, subst,
}
use idsproject.Host.{Libvirt, Nlohmann, JsonBuild, Crypto, Disk, Shell, Folders, Sqlite, Curl}
use idsproject.FileMonitor.HostFile.{IsDisk}
use idsproject.HashDb.{opened, HashDb, open_hash_db, initialize, create_table}
use idsproject.ProcessMonitor.{}
use idsproject.ProcessMonitor.Dump.{IsDump}

-- A path that is not in the folder of the snapshots.
abbrev pub IsOutside : Text → Type 0
IsOutside path = starts_with (codes "/tmp/IDS-TFG/snapshots/") path ≡ false

module _ {S Dom J : Type 0} (virt : Libvirt S Dom) (json : Nlohmann J) (build : JsonBuild J)
    (crypto : Crypto) (disk : Disk S) (shell : Shell S) (folders : Folders S) (D : IsDisk disk)
    {Db Stmt H : Type 0} (sqlite : Sqlite S Db Stmt) (curl : Curl S H) where
  -- The making of folders and a database in another folder leave the files that are dumped alone.
  pub record LeavesDumps : Type 0 where
    pub create_directories :
        (p f : Text) (t : S) → disk.read f (shell.create_directories p t).1 ≡ disk.read f t
    pub open_db :
        (p f : Text) (t : S)
        → IsOutside p
        → IsDump f
        → disk.read f (sqlite.open_db p t).1 ≡ disk.read f t
    pub close :
        (p f : Text) (t u : S)
        → IsOutside p
        → IsDump f
        → disk.read f (sqlite.close (sqlite.open_db p t).0.1 u) ≡ disk.read f u
    pub exec :
        (p sql f : Text) (t u : S)
        → IsOutside p
        → IsDump f
        → disk.read f (sqlite.exec (sqlite.open_db p t).0.1 sql u).1 ≡ disk.read f u

  pub open_hash_db-read :
      (f path : Text) (s : S)
      → LeavesDumps
      → IsOutside path
      → IsDump f
      → disk.read f (open_hash_db sqlite path s).1 ≡ disk.read f s
  unfolding open_hash_db opened
  open_hash_db-read f path s leaves outside dump = elim (Bool-cases (sqlite.open_db path s).0.0) [
    | inl e ↦ rw (e, opened) (leaves.open_db path f s outside dump)
    | inr e ↦
        rw (e, opened) (leaves.close path f s _ outside dump ∙ leaves.open_db path f s outside dump)
  ]

  pub initialize-read :
      (f path : Text) (s : S) {db : HashDb Db}
      → LeavesDumps
      → IsOutside path
      → IsDump f
      → (open_hash_db sqlite path s).0 ≡ ok db
      → (u : S) → disk.read f (initialize sqlite db u).1 ≡ disk.read f u
  unfolding initialize open_hash_db opened
  initialize-read f path s {db} leaves outside dump e u =
      elim (Bool-cases (sqlite.open_db path s).0.0) [
        | inl is_open ↦
            let at : some (sqlite.open_db path s).0.1 ≡ db = cc (rw is_open at e) in
            subst (λ d. disk.read f (initialize sqlite d u).1 ≡ disk.read f u) at
              (leaves.exec path create_table f s u outside dump)
        | inr closed ↦
            let at : none ≡ db = cc (rw closed at e) in
            subst (λ d. disk.read f (initialize sqlite d u).1 ≡ disk.read f u) at refl
      ]
