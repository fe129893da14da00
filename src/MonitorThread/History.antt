-- ===== src/MonitorThread/History.antt =====
-- The file thread over all its rounds, against an ideal monitor that sees what the guest shows at each.
use idsproject.Base.{
  Text, ℕ, zero, suc, ℤ, Bool, true, false, Option, some, List, [], ◌∷◌, ◌≡◌, refl, ap, All, subst,
  Run, ok, failed, thrown, spent, ◌>>=◌, effect, lookup, or_value_settled, call, need, ◌>>◌,
}
use idsproject.Host.{Libvirt, JsonC, Evp, Disk}
use idsproject.Config.{Config}
use idsproject.FileMonitor.{
  FileMonitor, Hashes, new_monitor, hash_file, has_file_changed, store_file_hash,
  initialize_vm_hashes, store_files, free_unless_open,
}
use idsproject.FileMonitor.Observe.{Seen}
use idsproject.FileMonitor.HostFile.{IsDisk, LeavesFile}
use idsproject.FileMonitor.Startup.{IsCleanPath, readable}
use idsproject.FileMonitor.Loading.{assign}
use idsproject.FileMonitor.Steady.{IsSteady, shown}
use idsproject.FileMonitor.Detection.{DistinctPaths, initialize-shown}
use idsproject.FileMonitor.Storing.{store_file_hash-Returns}
use idsproject.FileMonitor.Views.{
  view, empty_view, noted, Watches, look_at, view-assign, has_file_changed-Notices,
}
use idsproject.MonitorThread.{alarm, file_round, file_thread}

module _ {S Dom J Ctx : Type 0} (virt : Libvirt S Dom) (json : JsonC J) (evp : Evp S Ctx)
    (disk : Disk S) where
  store_file_hash-ok :
      (m : FileMonitor) (s : S) → (store_file_hash virt json evp disk m s).0 ≡ ok tt
  unfolding store_file_hash
  store_file_hash-ok m s =
      let body : Run S (Unit {0}) = (do
        dom ← call (virt.lookup_by_name m.vm_name) >>= need
        is_open ← call (disk.open_write (hash_file m))
        free_unless_open virt json evp disk dom is_open
        store_files virt json evp disk dom (hash_file m) m.files2watch
        effect (virt.domain_free dom)) in
      (or_value_settled tt body s ((store_file_hash-Returns virt json evp disk m).at s)).1

  alarm-ok :
      (b : Bool) (m : FileMonitor) (s : S) → (alarm virt json evp disk (b, m) s).0 ≡ ok (b, m)
  unfolding alarm
  alarm-ok false m s = refl
  alarm-ok true m s = rw (store_file_hash-ok m s)

  -- A round that monitors files ends with the answer of `hasFileChanged`.
  file_round-ok :
      (config : Config) (m : FileMonitor) (s : S) {b : Bool} {m' : FileMonitor}
      → config.monitor_files ≡ true
      → (has_file_changed virt json evp m s).0 ≡ ok (b, m')
      → (file_round virt json evp disk config m s).0 ≡ ok (b, m')
  unfolding file_round
  file_round-ok config m s {b} {m'} on e = rw (on, e, alarm-ok b m')

  module _ (sleep_s : ℤ → S → S) where
    -- What the guest shows at each round, behind its sleep; the host is as the rounds before have left it.
    unfoldable pub looks : ℕ → Config → FileMonitor → S → List (Option Seen)
    looks zero config m s = []
    looks (suc rounds) config m s =
        let woken = sleep_s config.monitoring_interval s in
        look_at virt json evp disk m.files2watch (virt.lookup_by_name m.vm_name woken)
        ∷ elim (file_round virt json evp disk config m woken).0 [
          | ok (b, m') ↦ looks rounds config m' (file_round virt json evp disk config m woken).1
          | failed ↦ []
          | thrown ↦ []
          | spent ↦ []
        ]

    file_thread-Watches :
        (rounds : ℕ) (config : Config) (m : FileMonitor) (s : S)
        → ((dom : Dom) → IsSteady virt json evp disk dom)
        → DistinctPaths m.files2watch
        → config.monitor_files ≡ true
        → (alarms : List Bool) × (known : Hashes) × ((file_thread virt json evp disk sleep_s rounds
              config m s).0
            ≡ ok (alarms, record m { file_hashes = known }))
          × Watches (view m.file_hashes) (looks rounds config m s) alarms (view known)
    unfolding file_thread looks
    file_thread-Watches zero config m s steady distinct on = ([], m.file_hashes, refl, refl)
    file_thread-Watches (suc rounds) config m s steady distinct on =
        let woken = sleep_s config.monitoring_interval s in
        let (b, known, answer, notices) =
          has_file_changed-Notices virt json evp disk m woken steady distinct in
        let m' : FileMonitor = record m { file_hashes = known } in
        let round = file_round-ok config m woken on answer in
        let s' = (file_round virt json evp disk config m woken).1 in
        let (alarms, known', later, watches) =
          file_thread-Watches rounds config m' s' steady distinct on in
        (b ∷ alarms, known', rw (round, later), rw (round, looks) (view known, notices, watches))

    -- The monitor of a machine from its start on refines an ideal one. Where the guest is steady while it
    -- is looked at, the watched paths are distinct and have no `": "` and no newline, files are monitored,
    -- the domain is found at the start and the hash file opens, a new object is initialised and every
    -- number of rounds of the file thread is made to its end. At each round there is an alarm exactly where
    -- some watched file has a hash that is not the last one that was seen of it, at the start or at a round
    -- since; a round that does not find the domain gives no alarm and forgets nothing.
    pub session_refines :
        (rounds : ℕ) (config : Config) (files : List Text) (hash_path vm_name : Text) (s : S)
        {dom : Dom} {s1 : S}
        → IsDisk disk
        → LeavesFile disk virt evp (hash_file (new_monitor files hash_path vm_name))
        → ((d : Dom) → IsSteady virt json evp disk d)
        → DistinctPaths files
        → All IsCleanPath files
        → config.monitor_files ≡ true
        → virt.lookup_by_name vm_name s ≡ (some dom, s1)
        → (disk.open_write (hash_file (new_monitor files hash_path vm_name)) s1).0 ≡ true
        → (m : FileMonitor) × (s2 : S) × (alarms : List Bool) × (m' : FileMonitor)
          × (initialize_vm_hashes virt json evp disk (new_monitor files hash_path vm_name) s
              ≡ (ok m, s2))
          × ((file_thread virt json evp disk sleep_s rounds config m s2).0 ≡ ok (alarms, m'))
          × Watches
              (noted (shown virt json evp disk dom files s1) empty_view)
              (looks rounds config m s2)
              alarms
              (view m'.file_hashes)
    unfolding lookup
    session_refines rounds config files hash_path vm_name s {dom} {s1} D L steady distinct clean on
          found opened =
        let m0 = new_monitor files hash_path vm_name in
        let before = shown virt json evp disk dom files s1 in
        let m : FileMonitor = record m0 { file_hashes = assign (readable before) [] } in
        let started =
          initialize-shown virt json evp disk m0 s D L (steady dom) found opened clean in
        let s2 = (initialize_vm_hashes virt json evp disk m0 s).1 in
        let (alarms, known, answer, watches) =
          file_thread-Watches rounds config m s2 steady distinct on in
        (
          m,
          s2,
          alarms,
          record m { file_hashes = known },
          ap (λ r. (r, s2)) started,
          answer,
          subst (λ v. Watches v (looks rounds config m s2) alarms (view known))
              (view-assign before []) watches,
        )
