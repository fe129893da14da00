-- ===== src/Backend.antt =====
-- src/backend/ids_backend_service.h and ids_backend_service.cpp: the configuration of the service, which
-- machines get a thread, and what the thread of a machine does.
pub mod Threads
pub mod Machine
pub mod Startup
pub mod Lifetime
pub mod Joining
pub mod Progress
use idsproject.Base.{
  Text, ℕ, zero, suc, ◌==◌, codes, String, ℤ, Bool, true, false, not, any, Option, none, some, List,
  [], ◌∷◌, ◌++◌, if◌then◌else◌, Run, pure, fail, effect, ◌>>=◌, ◌>>◌,
}
use idsproject.Host.{Libvirt, JsonC, Evp, Disk, Crypto, Nlohmann}
use idsproject.Config.{Config, load_from_file, set_hash_path}
use idsproject.FileMonitor.{
  FileMonitor, is_hash_stored, has_file_changed, store_file_hash, initialize_vm_hashes,
}
use idsproject.Monitor.{initialize_monitor}
use idsproject.ProcessMonitor.{join}
use idsproject.MonitorThread.{parent_path}

-- The two fields that the loop changes: the hashes of the machines' names that were met, and the
-- machines whose thread was started, in order.
pub record Service : Type 0 where
  pub monitored : List ℕ
  pub threads : List Text

abbrev pub new_service : Service
new_service = record { monitored = []; threads = [] }

-- `monitoredVMs.find(vm_hash) != monitoredVMs.end()`
unfoldable pub is_monitored : ℕ → List ℕ → Bool
is_monitored hash monitored = any (λ h. h == hash) monitored

-- `hasher` is `std::hash<std::string>`, of which nothing is assumed.
module _ (hasher : Text → ℕ) where
  unfoldable pub visit : Text → Service → Service
  unfolding is_monitored
  visit vm_name service =
      if is_monitored (hasher vm_name) service.monitored then service else record {
        monitored = service.monitored ++ hasher vm_name ∷ [];
        threads = service.threads ++ vm_name ∷ [];
      }

  -- One round over the names that `get_vm_names` gave.
  unfoldable pub sweep : List Text → Service → Service
  sweep [] service = service
  sweep (vm_name ∷ rest) service = sweep rest (visit vm_name service)

  -- The rounds while the service is running, each with the names of its time.
  unfoldable pub monitoring_loop : List (List Text) → Service → Service
  monitoring_loop [] service = service
  monitoring_loop (vm_names ∷ rounds) service = monitoring_loop rounds (sweep vm_names service)

-- The constructor: it loads the configuration, `fail` standing for `std::exit(1)`, and then sets the
-- folder of the hashes.
unfoldable pub configure : {J : Type 0} → Nlohmann J → Option Text → Text → Run Config (Unit {0})
configure json contents current_path = do
  loaded ← load_from_file json contents
  if not loaded
      then fail
      else effect (set_hash_path (join (parent_path current_path) (codes "hashStore")))

-- The loop of `monitorVM` over the configuration's files.
unfoldable pub needs_init : List Text → FileMonitor → Bool
needs_init [] m = false
needs_init (path ∷ rest) m =
    let later = needs_init rest m in if not (is_hash_stored m path) then true else later

module _ {S Dom J Ctx : Type 0} (virt : Libvirt S Dom) (json : JsonC J) (evp : Evp S Ctx)
    (disk : Disk S) where
  -- The hash file is written anew, and the alert is emitted.
  emit_alert : FileMonitor → Run S (Bool × FileMonitor)
  emit_alert m = do store_file_hash virt json evp disk m; pure (true, m)

  changed_or_not : Bool × FileMonitor → Run S (Bool × FileMonitor)
  unfolding emit_alert
  changed_or_not (changed, m) = if changed then emit_alert m else pure (false, m)

  -- One round of the loop of `monitorVM`, behind its sleep; the check of processes is empty.
  unfoldable pub machine_round : Config → FileMonitor → Run S (Bool × FileMonitor)
  unfolding changed_or_not
  machine_round config m =
      if config.monitor_files
      then has_file_changed virt json evp m >>= changed_or_not
      else pure (false, m)

  module _ (sleep_s : ℤ → S → S) where
    unfoldable pub machine_rounds : ℕ → Config → FileMonitor → Run S (List Bool × FileMonitor)
    machine_rounds zero config m = pure ([], m)
    machine_rounds (suc rounds) config m = do
      effect (sleep_s config.monitoring_interval)
      (alert, m') ← machine_round config m
      (later, m'') ← machine_rounds rounds config m'
      pure (alert ∷ later, m'')

    -- `monitorVM`, while the service is running for so many rounds; `fail` where the machine's monitor
    -- is not ready.
    unfoldable pub monitor_vm :
        Crypto → (ℕ → S → S) → ℕ → Config → FileMonitor → Run S (List Bool × FileMonitor)
    monitor_vm crypto sleep_ms rounds config m = do
      ready ← initialize_monitor virt json crypto sleep_ms m.vm_name
      if not ready then fail else do
        m' ←
            if needs_init config.files2watch m
            then initialize_vm_hashes virt json evp disk m
            else pure m
        machine_rounds rounds config m'
