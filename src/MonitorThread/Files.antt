-- ===== src/MonitorThread/Files.antt =====
-- The rounds of the file thread, with the object and the hash file that they leave behind.
use idsproject.Base.{
  ℕ, zero, suc, ℤ, Bool, true, false, some, [], ◌∷◌, ◌≡◌, ap, ok, IsReturn, Returns, Returns-if,
  Returns-pure, Returns-bind, Returns-effect,
}
use idsproject.Host.{Libvirt, JsonC, Evp, Disk}
use idsproject.Config.{Config}
use idsproject.FileMonitor.{FileMonitor, hash_file, has_file_changed}
use idsproject.FileMonitor.Observe.{Seen, Distinct, Differs, note_all, observe}
use idsproject.FileMonitor.Changes.{has_file_changed-eq}
use idsproject.FileMonitor.Alarms.{has_file_changed-exact}
use idsproject.FileMonitor.Loading.{print}
use idsproject.FileMonitor.HostFile.{IsDisk, LeavesFile}
use idsproject.FileMonitor.Startup.{Looked, readable, paths_of}
use idsproject.FileMonitor.Baseline.{store_file_hash-print}
use idsproject.FileMonitor.Storing.{has_file_changed-Returns, store_file_hash-Returns}
use idsproject.MonitorThread.{alarm, file_round, file_thread}

module _ {S Dom J Ctx : Type 0} (virt : Libvirt S Dom) (json : JsonC J) (evp : Evp S Ctx)
    (disk : Disk S) where
  alarm-Returns : (answer : Bool × FileMonitor) → Returns (alarm virt json evp disk answer)
  unfolding alarm
  alarm-Returns (false, m) = Returns-pure (false, m)
  alarm-Returns (true, m) =
      Returns-bind _ _ (store_file_hash-Returns virt json evp disk m) λ _. Returns-pure (true, m)

  file_round-Returns :
      (config : Config) (m : FileMonitor) → Returns (file_round virt json evp disk config m)
  unfolding file_round
  file_round-Returns config m =
      Returns-if config.monitor_files _ _
        (Returns-bind _ _ (has_file_changed-Returns virt json evp m) alarm-Returns)
        (Returns-pure (false, m))

  -- Where files are monitored and the watched paths are distinct, a round that finds the domain and sees
  -- a watched file with a hash other than the one in memory gives an alert; where the domain is found
  -- again and the hash file opens, that file holds afterwards, for each watched file that could be read
  -- at the second look, a line with its path and the hash of that look, in their order, and no more.
  pub file_round-stores :
      (config : Config) (m : FileMonitor) (s : S) {dom dom' : Dom} {s1 s2 : S} {seen : Seen}
      → IsDisk disk
      → LeavesFile disk virt evp (hash_file m)
      → config.monitor_files ≡ true
      → virt.lookup_by_name m.vm_name s ≡ (some dom, s1)
      → (observe virt json evp dom m.files2watch s1).0 ≡ ok seen
      → Distinct seen
      → Differs seen m.file_hashes
      → virt.lookup_by_name m.vm_name (has_file_changed virt json evp m s).1 ≡ (some dom', s2)
      → (disk.open_write (hash_file m) s2).0 ≡ true
      → (m' : FileMonitor) × (stored : Seen) × ((file_round virt json evp disk config m s).0
          ≡ ok (true, m'))
        × (paths_of stored ≡ m.files2watch)
        × (disk.read (hash_file m) (file_round virt json evp disk config m s).1
            ≡ some (print (readable stored)))
        × Looked virt json evp disk dom'
            (hash_file m)
            m.files2watch
            (disk.open_write (hash_file m) s2).1
            stored
  unfolding file_round alarm hash_file
  file_round-stores config m s {seen} D L on found saw d differs again opened =
      let (changed, m1, answer, exact) = has_file_changed-exact virt json evp m s found saw d in
      let m' : FileMonitor = record m { file_hashes = (note_all seen (m.file_hashes, false)).0 } in
      let round = has_file_changed-eq virt json evp m s found saw in
      let alerted : changed ≡ true = exact.1 differs in
      let s' = (has_file_changed virt json evp m s).1 in
      let whole : (has_file_changed virt json evp m s).0 ≡ ok (true, m') =
        cc (ap (λ t. t.0) round, answer, alerted) in
      let (stored, p, q, r, _, looked) =
        store_file_hash-print virt json evp disk D m' L s' again opened in
      (m', stored, rw (on, whole, alarm, q), p, rw (on, whole, alarm, q) r, looked)

  module _ (sleep_s : ℤ → S → S) where
    file_thread-Returns :
        (rounds : ℕ) (config : Config) (m : FileMonitor)
        → Returns (file_thread virt json evp disk sleep_s rounds config m)
    unfolding file_thread
    file_thread-Returns zero config m = Returns-pure ([], m)
    file_thread-Returns (suc n) config m = Returns-bind _ _ (Returns-effect _) λ _.
        Returns-bind _ _ (file_round-Returns config m) λ x.
          Returns-bind _ _ (file_thread-Returns n config x.1) λ y. Returns-pure (x.0 ∷ y.0, y.1)

    -- However many rounds the file thread makes, it comes back from them without an exception, which
    -- would end the whole program: every failure of the agent, of its answers or of the digest stays
    -- inside a round.
    pub file_thread-IsReturn :
        (rounds : ℕ) (config : Config) (m : FileMonitor) (s : S)
        → IsReturn (file_thread virt json evp disk sleep_s rounds config m s).0
    file_thread-IsReturn rounds config m s = (file_thread-Returns rounds config m).at s
