-- ===== src/Tests/ServiceRuns.antt =====
-- Rounds of the service over two machines, of which one comes later; its start, and the thread of a
-- machine.
use idsproject.Base.{
  Text, ℕ, suc, codes, pos, map, length, text_eq, starts_with, trim_right, Bool, true, not, some,
  List, [], ◌∷◌, ◌≡◌, refl, ok, All, if◌then◌else◌, fail, pure, ◌>>=◌,
}
use idsproject.Host.{Libvirt, Nlohmann, Crypto, BlockDecoder}
use idsproject.Config.{
  Config, default_config, assign_if, within, load_monitoring, load_document, load_from_file,
}
use idsproject.Config.Loading.{section}
use idsproject.Config.Settings.{settings}
use idsproject.FileMonitor.{requires_initialization, initialize_vm_hashes}
use idsproject.Monitor.{initialize_monitor}
use idsproject.ProcessMonitor.{join}
use idsproject.MonitorThread.{parent_path, file_thread}
use idsproject.Backend.Machine.{monitor_vm-file_thread}
use idsproject.Backend.Startup.{configure-settings}
use idsproject.Tests.Documents.{Doc, num, bool, text, obj, end, field, toy_nlohmann}
use idsproject.Tests.Guests.{Machine, toy_virt, toy_json, toy_evp, toy_disk}
use idsproject.Tests.FileRuns.{files, fresh}
use idsproject.Backend.{configure, monitor_vm, new_service, Service, is_monitored, monitoring_loop}
use idsproject.Backend.Threads.{
  threads_of, Distinct, Has, monitoring_loop-threads, monitoring_loop-settled,
}

abbrev rounds : List (List Text)
rounds = (codes "web" ∷ []) ∷ (codes "web" ∷ codes "mail" ∷ []) ∷ []

-- A hash under which names of one length collide.
abbrev hasher : Text → ℕ
hasher = length

monitoring_loop-threads_example :
    Distinct (map hasher (monitoring_loop hasher rounds new_service).threads)
    × All (λ names. All (Has hasher (monitoring_loop hasher rounds new_service)) names) rounds
monitoring_loop-threads_example = monitoring_loop-threads hasher rounds

abbrev settled : Service
settled = record { monitored = 3 ∷ []; threads = codes "web" ∷ [] }

monitoring_loop-settled_example :
    threads_of hasher 3 (monitoring_loop hasher rounds settled).threads ≡ codes "web" ∷ []
unfolding is_monitored
monitoring_loop-settled_example = monitoring_loop-settled hasher rounds (codes "web") settled refl

abbrev json : Nlohmann Doc
json = toy_nlohmann (codes "{}") (
    obj
      (field (codes "Monitoring") (obj (field (codes "Hash_Path") (text (codes "/var")) end)) end))

abbrev configured : Config
configured = record default_config { hash_path = codes "/srv/hashStore" }

starts :
    configure json (some (codes "{}")) (codes "/srv/build") default_config ≡ (ok tt, configured)
unfolding configure load_from_file load_document within load_monitoring assign_if text_eq
    parent_path trim_right join starts_with
starts = refl

configure-settings_example :
    (j : Doc) × (json.read_stream (codes "{}") ≡ some j)
    × (configured
        ≡ record (settings json
            (section json j "General")
            (section json j "Monitoring")
            (section json j "Network")
            default_config) {
              hash_path = join (parent_path (codes "/srv/build")) (codes "hashStore");
            })
configure-settings_example =
    configure-settings json (codes "{}") (codes "/srv/build") default_config configured starts

abbrev crypto : Crypto
crypto = record { sha256 = λ t. t; decode = λ t. some (codes "6.1.0 \n") }

abbrev no_sleep : {N : Type 0} → N → Machine → Machine
no_sleep n s = s

abbrev watching : Config
watching = record default_config { monitor_files = true; files2watch = files }

monitor_vm-file_thread_example :
    monitor_vm toy_virt toy_json toy_evp toy_disk no_sleep crypto no_sleep 2 watching fresh ≡ (
      initialize_monitor toy_virt toy_json crypto no_sleep (codes "vm") >>= λ ready.
      if not ready
      then fail
      else ((if requires_initialization fresh
            then initialize_vm_hashes toy_virt toy_json toy_evp toy_disk fresh
            else pure fresh)
          >>= file_thread toy_virt toy_json toy_evp toy_disk no_sleep 2 watching))
monitor_vm-file_thread_example =
    monitor_vm-file_thread toy_virt toy_json toy_evp toy_disk no_sleep crypto no_sleep 2 watching
      fresh refl

-- The command of the guest has exited at the first question; one line of its output is of interest.
abbrev traced : Nlohmann Doc
traced = toy_nlohmann (codes "{}") (
    obj (
      field (codes "return")
        (obj (
          field (codes "pid") (num (pos 7)) (
            field (codes "exited") (bool true) (
              field (codes "out-data")
                (text (codes "openat(\"/etc/shadow\")\nopenat(\"/etc/hosts\")\n")) end))))
        end))

abbrev virt : Libvirt ℕ Unit
virt = record {
  lookup_by_name = λ n s. (some tt, suc s);
  domain_free = λ d s. 0;
  agent_command = λ d c t s. (some (codes "{}"), s);
}

abbrev decoder : BlockDecoder
decoder = record { decode_block = λ t. some t }

abbrev no_rest : ℕ → ℕ → ℕ
no_rest n s = s

abbrev always : ℕ → Bool × ℕ
always s = (true, s)

abbrev alerts : List Text
alerts = codes "openat(\"/etc/shadow\")" ∷ []
