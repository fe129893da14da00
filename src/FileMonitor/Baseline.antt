-- ===== src/FileMonitor/Baseline.antt =====
-- The state of the object after `initializeVMHashes`, and what follows for the rounds after it.
use idsproject.Base.{Text, lookup, lines, true, none, some, List, [], ◌∷◌, ◌≡◌, refl, ◌∙◌, All, ok}
use idsproject.Host.{Libvirt, JsonC, Evp, Disk}
use idsproject.FileMonitor.{
  FileMonitor, new_monitor, hash_file, store_file_hash, load_stored_hashes, initialize_vm_hashes,
  requires_initialization, load_lines,
}
use idsproject.FileMonitor.Observe.{Seen}
use idsproject.FileMonitor.Loading.{print, assign, IsClean, load_lines-print}
use idsproject.FileMonitor.HostFile.{IsDisk, LeavesFile}
use idsproject.FileMonitor.Startup.{
  Looked, readable, paths_of, IsCleanPath, HexSeen, store_files-print,
}

pub readable-IsClean :
    (seen : Seen) → All IsCleanPath (paths_of seen) → HexSeen seen → All IsClean (readable seen)
readable-IsClean [] c x = tt
readable-IsClean ((path, none) ∷ seen) c x = readable-IsClean seen c.1 x.1
readable-IsClean ((path, some hash) ∷ seen) ((a, b), c) x =
    ((a, b, x.0 hash refl), readable-IsClean seen c x.1)

module _ {S Dom J Ctx : Type 0} (virt : Libvirt S Dom) (json : JsonC J) (evp : Evp S Ctx)
    (disk : Disk S) (D : IsDisk disk) (m : FileMonitor)
    (L : LeavesFile disk virt evp (hash_file m)) where
  -- The hash file after `storeFileHash` has a line for each watched file that could be read, and
  -- nothing of what stood in it before.
  pub store_file_hash-print :
      (s : S) {dom : Dom} {s1 : S}
      → virt.lookup_by_name m.vm_name s ≡ (some dom, s1)
      → (disk.open_write (hash_file m) s1).0 ≡ true
      → (seen : Seen) × (paths_of seen ≡ m.files2watch)
        × ((store_file_hash virt json evp disk m s).0 ≡ ok tt)
        × (disk.read (hash_file m) (store_file_hash virt json evp disk m s).1
            ≡ some (print (readable seen)))
        × HexSeen seen
        × Looked virt json evp disk dom
            (hash_file m)
            m.files2watch
            (disk.open_write (hash_file m) s1).1
            seen
  unfolding store_file_hash
  store_file_hash-print s {dom} {s1} found opened =
      let s2 = (disk.open_write (hash_file m) s1).1 in
      let (seen, p, q, r, x, looked) =
        store_files-print virt json evp disk D (hash_file m) L dom m.files2watch [] s2
          (D.read-open_write (hash_file m) s1 opened) in
      (
        seen,
        p,
        rw (found, opened, q),
        rw (found, opened, q) ((L.domain_free dom).at _ ∙ r),
        x,
        looked,
      )

  pub load_stored_hashes-read :
      (s : S) {text : Text}
      → disk.read (hash_file m) s ≡ some text
      → (load_stored_hashes virt json evp disk m s).0
        ≡ ok (record m { file_hashes = load_lines (lines text) m.file_hashes })
  unfolding load_stored_hashes
  load_stored_hashes-read s {text} e = rw (load_stored_hashes, e)

  -- The object after `initializeVMHashes`, where the domain is found, the hash file opens and no
  -- watched path has `": "` or a newline in it: the hashes in memory are those of before, overwritten
  -- by the hashes of the files that could be read, in the order of the watch list.
  pub initialize_vm_hashes-hashes :
      (s : S) {dom : Dom} {s1 : S}
      → virt.lookup_by_name m.vm_name s ≡ (some dom, s1)
      → (disk.open_write (hash_file m) s1).0 ≡ true
      → All IsCleanPath m.files2watch
      → (seen : Seen) × (paths_of seen ≡ m.files2watch)
        × ((initialize_vm_hashes virt json evp disk m s).0
            ≡ ok (record m { file_hashes = assign (readable seen) m.file_hashes }))
        × Looked virt json evp disk dom
            (hash_file m)
            m.files2watch
            (disk.open_write (hash_file m) s1).1
            seen
  unfolding initialize_vm_hashes
  initialize_vm_hashes-hashes s found opened clean =
      let (seen, p, q, r, x, looked) = store_file_hash-print s found opened in
      let c : All IsClean (readable seen) = readable-IsClean seen (rw p clean) x in
      (
        seen,
        p,
        rw (q, load_stored_hashes-read _ r, load_lines-print (readable seen) m.file_hashes c),
        looked,
      )

-- A new object over a non-empty watch list always asks for initialisation, so a machine's monitor
-- starts by `initializeVMHashes`; behind it, where the domain is found, the hash file opens and no
-- path has `": "` or a newline, the hashes in memory are those alone of the looks at the guest's files
-- that are made then, one behind the other, whatever the hash file held before.
pub startup_forgets :
    {S Dom J Ctx : Type 0} (virt : Libvirt S Dom) (json : JsonC J) (evp : Evp S Ctx) (disk : Disk S)
    (path : Text) (rest : List Text) (hash_path vm_name : Text) (s : S) {dom : Dom} {s1 : S}
    → IsDisk disk
    → LeavesFile disk virt evp (hash_file (new_monitor (path ∷ rest) hash_path vm_name))
    → virt.lookup_by_name vm_name s ≡ (some dom, s1)
    → (disk.open_write (hash_file (new_monitor (path ∷ rest) hash_path vm_name)) s1).0 ≡ true
    → All IsCleanPath (path ∷ rest)
    → (requires_initialization (new_monitor (path ∷ rest) hash_path vm_name) ≡ true)
      × ((seen : Seen) × (paths_of seen ≡ path ∷ rest)
          × ((initialize_vm_hashes virt json evp disk
                (new_monitor (path ∷ rest) hash_path vm_name)
                s).0
              ≡ ok (record (new_monitor (path ∷ rest) hash_path vm_name) {
                file_hashes = assign (readable seen) [];
              }))
          × Looked virt json evp disk dom
              (hash_file (new_monitor (path ∷ rest) hash_path vm_name))
              (path ∷ rest)
              (disk.open_write (hash_file (new_monitor (path ∷ rest) hash_path vm_name)) s1).1
              seen)
unfolding requires_initialization lookup
startup_forgets virt json evp disk path rest hash_path vm_name s D L found opened clean = (
  refl,
  initialize_vm_hashes-hashes virt json evp disk D (new_monitor (path ∷ rest) hash_path vm_name) L s
      found opened clean,
)
