-- ===== src/FileMonitor/Storing.antt =====
-- Every function of the file monitor that a thread calls comes back: no exception leaves it.
use idsproject.Base.{
  Text, Bool, true, false, List, [], ◌∷◌, Returns, returns_rules, Returns-bind, Returns-or_value,
  Returns-effect, Option-cases, inl, inr,
}
use idsproject.Host.{Libvirt, JsonC, Evp, Disk}
use idsproject.FileMonitor.{
  FileMonitor, Hashes, hash_file, check_files, has_file_changed, load_stored_hashes, store_files,
  free_unless_open, store_file_hash, initialize_vm_hashes,
}
use idsproject.FileMonitor.Total.{file_hash-Returns}

module _ {S Dom J Ctx : Type 0} (virt : Libvirt S Dom) (json : JsonC J) (evp : Evp S Ctx) where
  check_files-Returns :
      (dom : Dom) (paths : List Text) (seen : Hashes × Bool)
      → Returns (check_files virt json evp dom paths seen)
  unfolding check_files
  check_files-Returns dom [] seen = search returns_rules
  check_files-Returns dom (path ∷ rest) seen =
      search (returns_rules, file_hash-Returns, check_files-Returns dom rest) depth 10

  pub has_file_changed-Returns : (m : FileMonitor) → Returns (has_file_changed virt json evp m)
  unfolding has_file_changed
  has_file_changed-Returns m = search (returns_rules, check_files-Returns) depth 12

  module _ (disk : Disk S) where
    store_files-Returns :
        (dom : Dom) (out : Text) (paths : List Text)
        → Returns (store_files virt json evp disk dom out paths)
    unfolding store_files
    store_files-Returns dom out [] = search returns_rules
    store_files-Returns dom out (path ∷ rest) =
        Returns-bind _ _
          (Returns-or_value tt _
            (Returns-bind _ _ (file_hash-Returns virt json evp dom path) λ hash. Returns-effect _))
          λ _. store_files-Returns dom out rest

    free_unless_open-Returns :
        (dom : Dom) (b : Bool) → Returns (free_unless_open virt json evp disk dom b)
    unfolding free_unless_open
    free_unless_open-Returns dom true = search returns_rules
    free_unless_open-Returns dom false = search returns_rules

    pub store_file_hash-Returns : (m : FileMonitor) → Returns (store_file_hash virt json evp disk m)
    unfolding store_file_hash
    store_file_hash-Returns m =
        search (returns_rules, store_files-Returns, free_unless_open-Returns) depth 14

    load_stored_hashes-Returns :
        (m : FileMonitor) → Returns (load_stored_hashes virt json evp disk m)
    unfolding load_stored_hashes
    load_stored_hashes-Returns m = record {
      at = λ s. elim (Option-cases (disk.read (hash_file m) s)) [
        | inl e ↦ rw (load_stored_hashes, e) tt
        | inr (t, e) ↦ rw (load_stored_hashes, e) tt
      ];
    }

    pub initialize_vm_hashes-Returns :
        (m : FileMonitor) → Returns (initialize_vm_hashes virt json evp disk m)
    unfolding initialize_vm_hashes
    initialize_vm_hashes-Returns m =
        search (returns_rules, store_file_hash-Returns, load_stored_hashes-Returns) depth 10
