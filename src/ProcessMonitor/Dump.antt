-- ===== src/ProcessMonitor/Dump.antt =====
-- A whole dump of a guest's file (dumpGuestFile), up to the file that the host is left with.
use idsproject.Base.{
  Text, ℕ, suc, ◌++◌, ◌≤◌, ℤ, length, Bool, true, false, some, List, [], ◌∷◌, ◌≡◌, refl, sym, subst,
  ◌∙◌, ap, Run, ok, pure, call, need_or_throw, effect, ensure, ◌>>=◌, ◌>>◌, bind-eq-ok, bind_known,
  codes, decimal, starts_with, starts_with-append,
}
use idsproject.Host.{Libvirt, Nlohmann, JsonBuild, Crypto, Disk, Shell, Folders}
use idsproject.FileMonitor.HostFile.{IsDisk}
use idsproject.HashDb.{opened}
use idsproject.ProcessMonitor.{
  with_domain, free_behind, agent, open_guest_file, read_chunks, save_dump, dump_guest_file,
  filename,
}
use idsproject.ProcessMonitor.Chunks.{joined, Delivers, read_chunks-Delivers}

-- Where the dumps are.
abbrev pub IsDump : Text → Type 0
IsDump path = starts_with (codes "/tmp/IDS-TFG/snapshots/") path ≡ true

module _ {S Dom J : Type 0} (virt : Libvirt S Dom) (json : Nlohmann J) (build : JsonBuild J)
    (crypto : Crypto) (disk : Disk S) (shell : Shell S) (folders : Folders S)
    (D : IsDisk disk) where
  -- Behind the opening of a file.
  write_open : Bool → Text → Text → Run S Text
  write_open is_open p all_data = do ensure is_open; effect (disk.write p all_data); pure p

  write_open-read :
      (is_open : Bool) (p all_data : Text) (s : S) {path : Text} {s' : S}
      → (is_open ≡ true → disk.read p s ≡ some [])
      → write_open is_open p all_data s ≡ (ok path, s')
      → (p ≡ path) × (disk.read path s' ≡ some all_data)
  unfolding write_open
  write_open-read false p all_data s empty e = absurd (cc)
  write_open-read true p all_data s {path} {s'} empty e =
      let same : p ≡ path = cc e in
      let at : disk.write p all_data s ≡ s' = cc e in
      (
        same,
        subst (λ q. disk.read q s' ≡ some all_data) same
            (subst (λ t. disk.read p t ≡ some all_data) at
              (D.read-write p all_data [] s (empty refl))),
      )

  -- A dump that is saved is the whole contents of its file.
  save_dump-read :
      (vm_name guest_path all_data : Text) (s : S) {path : Text} {s' : S}
      → save_dump virt json build crypto disk shell folders vm_name guest_path all_data s
        ≡ (ok path, s')
      → IsDump path × (disk.read path s' ≡ some all_data)
  unfolding save_dump write_open
  save_dump-read vm_name guest_path all_data s e =
      let (_, _, e1) =
        bind-eq-ok
          (call (shell.create_directories (codes "/tmp/IDS-TFG/snapshots")) >>= need_or_throw) _ s
          e in
      let s1 =
        ((call (shell.create_directories (codes "/tmp/IDS-TFG/snapshots")) >>= need_or_throw)
          s).1 in
      let (ts, s2) = shell.now s1 in
      let name =
        vm_name
        ++ (codes "_" ++ (filename guest_path ++ (codes "_" ++ (decimal ts ++ codes ".bin")))) in
      let p = codes "/tmp/IDS-TFG/snapshots/" ++ name in
      let (same, written) =
        write_open-read (disk.open_write p s2).0 p all_data (disk.open_write p s2).1
          (D.read-open_write p s2) e1 in
      (subst IsDump same (starts_with-append (codes "/tmp/IDS-TFG/snapshots/") name), written)

  free_behind-ok :
      {A : Type 0} (dom : Dom) (body : Dom → Run S A) (s : S) {a : A} {s' : S}
      → free_behind virt (some dom) body s ≡ (ok a, s')
      → (t : S) × (body dom s ≡ (ok a, t)) × (virt.domain_free dom t ≡ s')
  unfolding free_behind
  free_behind-ok dom body s e =
      ((body dom s).1, ap (λ r. (r, (body dom s).1)) (ap (λ r. r.0) e), ap (λ r. r.1) e)

  -- A dump that succeeds leaves the host a file in the folder of the snapshots with exactly the blocks that
  -- the guest has delivered, in their order, if the release of the domain's handle leaves the host's files
  -- alone and there is fuel for one round more than there are blocks.
  pub dump_guest_file-writes :
      (fuel : ℕ) (vm_name guest_path : Text) (s : S) {dom : Dom} {s1 s2 s3 : S} {handle : ℤ}
      {blocks : List Text} {path : Text} {s' : S}
      → ((f : Text) (t : S) → disk.read f (virt.domain_free dom t) ≡ disk.read f t)
      → virt.lookup_by_name vm_name s ≡ (some dom, s1)
      → open_guest_file virt json build crypto dom guest_path s1 ≡ (ok handle, s2)
      → Delivers virt json build crypto dom handle s2 blocks s3
      → length blocks ≤ fuel
      → dump_guest_file virt json build crypto disk shell folders (suc fuel) vm_name guest_path s
        ≡ (ok path, s')
      → IsDump path × (disk.read path s' ≡ some (joined blocks))
  unfolding dump_guest_file with_domain
  dump_guest_file-writes fuel vm_name guest_path s {dom} {s1} {s2} {s3} {handle} {blocks} {path}
        {s'} leaves found opened delivers le e =
      let whole = read_chunks-Delivers virt json build crypto dom handle fuel [] delivers le in
      let body : Dom → Run S Text = λ d. (do
        h ← open_guest_file virt json build crypto d guest_path
        all_data ← read_chunks virt json build crypto (suc fuel) d h []
        agent virt json build crypto d (codes "guest-file-close")
            ((codes "handle", build.int h) ∷ [])
        save_dump virt json build crypto disk shell folders vm_name guest_path all_data) in
      let e0 : free_behind virt (some dom) body s1 ≡ (ok path, s') =
        subst (λ r. free_behind virt r.0 body r.1 ≡ (ok path, s')) found e in
      let (t, e1, freed) = free_behind-ok dom body s1 e0 in
      let e2 = bind_known (open_guest_file virt json build crypto dom guest_path) _ s1 opened e1 in
      let e3 =
        bind_known (read_chunks virt json build crypto (suc fuel) dom handle []) _ s2 whole e2 in
      let (_, _, e4) =
        bind-eq-ok
          (agent virt json build crypto dom (codes "guest-file-close")
            ((codes "handle", build.int handle) ∷ []))
          _ s3 e3 in
      let (named, written) = save_dump-read vm_name guest_path (joined blocks) _ e4 in
      (named, ap (disk.read path) (sym freed) ∙ leaves path t ∙ written)
