-- ===== src/MonitorThread.antt =====
-- src/monitor/MonitorThread.h and MonitorThread.cpp: what the threads of one machine do. Their
-- interleaving is in MonitorThread.Life.
pub mod Life
pub mod Files
pub mod History
use idsproject.Base.{
  Text, ℕ, zero, suc, ◌++◌, codes, String, ℤ, int_text, trim_right, ◌==◌, Bool, true, false, not,
  ◌&&◌, Option, none, some, List, [], ◌∷◌, if◌then◌else◌, Run, pure, fail, call, effect, or_value,
  attempt, ◌>>=◌, ◌>>◌,
}
use idsproject.Host.{
  Libvirt, JsonC, Evp, Disk, Crypto, Nlohmann, JsonBuild, Shell, Folders, Sqlite, Curl, Doubles,
  Domains, Tinyxml, BlockDecoder,
}
use idsproject.Config.{Config}
use idsproject.Network.{Alert, run}
use idsproject.Syscalls.{monitor_syscalls}
use idsproject.FileMonitor.{
  FileMonitor, requires_initialization, initialize_vm_hashes, has_file_changed, store_file_hash,
}
use idsproject.Monitor.{initialize_monitor}
use idsproject.VmUtils.{ensure_bridge_exists, ensure_directory_exists, configure_new_vm}
use idsproject.Processes.{GuestProcessInfo, list_guest_processes}
use idsproject.ProcessMonitor.{dump_guest_file, check_guest_file}

module _ {S Dom J Ctx : Type 0} (virt : Libvirt S Dom) (json : JsonC J) (evp : Evp S Ctx)
    (disk : Disk S) where
  -- The answer of `hasFileChanged`, and the hash file written anew behind an alert.
  unfoldable pub alarm : Bool × FileMonitor → Run S (Bool × FileMonitor)
  alarm (false, m) = pure (false, m)
  alarm (true, m) = do store_file_hash virt json evp disk m; pure (true, m)

  -- One round of the file thread behind its sleep: whether it gave an alert.
  unfoldable pub file_round : Config → FileMonitor → Run S (Bool × FileMonitor)
  unfolding alarm
  file_round config m =
      if config.monitor_files then has_file_changed virt json evp m >>= alarm else pure (false, m)

  module _ (sleep_s : ℤ → S → S) where
    -- The rounds of the file thread for which the flag was up, and which of them gave an alert.
    unfoldable pub file_thread : ℕ → Config → FileMonitor → Run S (List Bool × FileMonitor)
    file_thread zero config m = pure ([], m)
    file_thread (suc rounds) config m = do
      effect (sleep_s config.monitoring_interval)
      (alert, m') ← file_round config m
      (later, m'') ← file_thread rounds config m'
      pure (alert ∷ later, m'')

    module _ {Doc El : Type 0} (crypto : Crypto) (sleep_ms : ℕ → S → S) (shell : Shell S)
        (xml : Tinyxml Doc El) (domains : Domains S Dom) where
      prepare_new : ℕ → FileMonitor → Run S FileMonitor
      prepare_new fuel m = do
        ensure_bridge_exists shell
        attempt (configure_new_vm xml domains fuel m.vm_name)
        initialize_vm_hashes virt json evp disk m

      -- What `run` does before it starts its threads; `fail` where it returns without them.
      unfoldable pub prepare : ℕ → Config → FileMonitor → Run S FileMonitor
      unfolding prepare_new
      prepare fuel config m = do
        ready ← initialize_monitor virt json crypto sleep_ms m.vm_name
        if not ready
            then fail
            else if config.monitor_files && requires_initialization m
            then prepare_new fuel m
            else pure m

-- `basePath.pop_back()` where it ends with a slash.
unfoldable pub without_slash : Text → Text
without_slash [] = []
without_slash (c ∷ []) = if c == b'/' then [] else c ∷ []
without_slash (c ∷ d ∷ s) = c ∷ without_slash (d ∷ s)

unfoldable pub local_bin_path : Config → Text → ℤ → Text
unfolding without_slash
local_bin_path config vm_name pid =
    without_slash config.guest_file_path
    ++ (codes "/" ++ (vm_name ++ (codes "_" ++ (int_text pid ++ codes ".bin"))))

-- `path::parent_path` of a path with a file's name: what stands before its last slashes, and the root
-- where nothing does.
unfoldable pub parent_path : Text → Text
parent_path path =
    root_or (trim_right (λ c. c == b'/') (trim_right (λ c. not (c == b'/')) path)) path
  where
    root_or : Text → Text → Text
    root_or (c ∷ dir) path = c ∷ dir
    root_or [] (c ∷ s) = if c == b'/' then codes "/" else []
    root_or [] [] = []

module _ {S Dom J Db Stmt H F : Type 0} (virt : Libvirt S Dom) (json : Nlohmann J)
    (build : JsonBuild J) (crypto : Crypto) (disk : Disk S) (shell : Shell S) (folders : Folders S)
    (sqlite : Sqlite S Db Stmt) (curl : Curl S H) (doubles : Doubles F) (sleep_ms : ℕ → S → S) where
  -- The file is dumped, checked and removed: the process's number where it is malicious.
  inspect : ℕ → Text → GuestProcessInfo F → Text → Run S (Option ℤ)
  inspect fuel vm_name proc path = do
    malicious ←
        check_guest_file virt json build crypto disk shell folders sqlite curl fuel vm_name path
    call (folders.remove path)
    pure (if malicious then some proc.pid else none)

  -- The body of the loop over the processes. `dumpGuestFile` puts its own path into `localBinPath`, so
  -- that of the configuration only has its folder created.
  unfoldable pub check_process : ℕ → Config → Text → GuestProcessInfo F → Run S (Option ℤ)
  unfolding inspect
  check_process fuel config vm_name proc = do
    ensure_directory_exists shell (parent_path (local_bin_path config vm_name proc.pid))
    dumped ←
        attempt
          (dump_guest_file virt json build crypto disk shell folders fuel vm_name proc.binary_path)
    elim dumped [ none ↦ pure none | some path ↦ inspect fuel vm_name proc path ]

  alerted : Option ℤ → List ℤ → List ℤ
  alerted none later = later
  alerted (some pid) later = pid ∷ later

  unfoldable pub check_processes : ℕ → Config → Text → List (GuestProcessInfo F) → Run S (List ℤ)
  unfolding alerted
  check_processes fuel config vm_name [] = pure []
  check_processes fuel config vm_name (proc ∷ rest) = do
    alert ← check_process fuel config vm_name proc
    later ← check_processes fuel config vm_name rest
    pure (alerted alert later)

  -- One round of the process thread behind its sleep: the processes that it reports.
  unfoldable pub process_round : ℕ → Config → Text → Run S (List ℤ)
  process_round fuel config vm_name = if not config.monitor_processes then pure [] else do
    processes ← list_guest_processes virt json crypto sleep_ms doubles fuel vm_name
    check_processes fuel config vm_name processes

module _ {S Dom J : Type 0} (virt : Libvirt S Dom) (json : Nlohmann J) (decoder : BlockDecoder)
    (sleep_ms : ℕ → S → S) (should_continue : S → Bool × S) where
  -- The network thread: the lines of the system calls that are reported, and behind them what
  -- `NetworkMonitor::run` gives on the pipe.
  unfoldable pub network_thread :
      ℕ → Config → Text → (Text → Option (List Text)) → Run S (List Text × (List Alert × Bool))
  network_thread fuel config vm_name pipe = do
    calls ← monitor_syscalls virt json decoder sleep_ms should_continue fuel vm_name
    pure (calls, run config pipe)
