-- ===== src/MonitorUi.antt =====
-- src/monitorui.h and monitorui.cpp behind the widgets: the environment file, the key, and the machines
-- that are watched. Of the widgets their texts are kept.
pub mod Watched
pub mod EnvFile
use idsproject.Base.{
  Text, ℕ, ◌++◌, codes, String, decimal, is_empty, starts_with, drop, find, lookup, insert, text_eq,
  lines, any, length, Bool, true, false, Option, none, some, List, [], ◌∷◌, if◌then◌else◌, Run,
  effect, ◌>>=◌, ◌>>◌,
}
use idsproject.Host.{Nlohmann}
use idsproject.Config.{Config, load_from_file, set_hash_path}
use idsproject.ProcessMonitor.{join}
use idsproject.MonitorThread.{parent_path}

abbrev pub Env : Type 0
Env = List (Text × Text)

-- `env[key] = value`, unless the second `getline` has nothing to read.
assign_value : Text → Text → Env → Env
assign_value key [] env = env
assign_value key (c ∷ value) env = insert key (c ∷ value) env

-- The key is what stands before the first `=`.
unfoldable pub load_env_line : Text → Env → Env
unfolding assign_value
load_env_line [] env = env
load_env_line (c ∷ line) env =
    if starts_with (codes "#") (c ∷ line) then env else elim (find (codes "=") (c ∷ line)) [
      | none ↦ env
      | some (key, rest) ↦ assign_value key (drop 1 rest) env
    ]

unfoldable pub load_env_lines : List Text → Env → Env
load_env_lines [] env = env
load_env_lines (line ∷ rest) env = load_env_lines rest (load_env_line line env)

-- `contents` is the file's, or `none` where it does not open.
unfoldable pub load_env_file : Option Text → Env
load_env_file none = []
load_env_file (some contents) = load_env_lines (lines contents) []

text_or_empty : Option Text → Text
text_or_empty none = []
text_or_empty (some t) = t

-- The variable of the process, and else that of the file.
unfoldable pub choose_api_key : Option Text → Option Text → Text
unfolding text_or_empty
choose_api_key (some key) file = key
choose_api_key none file = text_or_empty (lookup (codes "API_KEY") (load_env_file file))

-- What a thread runs: `NetworkMonitor::run`, or `MonitorThread::run`.
pub data Thread : Type 0 where
  network : Text → Thread
  monitor : Text → Thread

-- The texts of the label and of the list, the keys of `monitors`, the threads, and the environment
-- variable that `setenv` leaves.
pub record MonitorUi : Type 0 where
  pub label : Text
  pub items : List Text
  pub monitors : List Text
  pub threads : List Thread
  pub api_key : Option Text

abbrev pub starting : Option Text → MonitorUi
starting api_key = record {
  label = codes "Iniciando IDS...";
  items = [];
  monitors = [];
  threads = [];
  api_key = api_key;
}

unfoldable pub has_name : Text → List Text → Bool
has_name vm_name names = any (λ n. text_eq n vm_name) names

unfoldable pub watch : Text → MonitorUi → MonitorUi
unfolding has_name
watch vm_name ui = if has_name vm_name ui.monitors then ui else record ui {
  threads = ui.threads ++ network vm_name ∷ monitor vm_name ∷ [];
  monitors = ui.monitors ++ vm_name ∷ [];
  items = ui.items ++ (codes "Monitoreando VM: " ++ vm_name) ∷ [];
}

unfoldable pub watch_all : List Text → MonitorUi → MonitorUi
watch_all [] ui = ui
watch_all (vm_name ∷ rest) ui = watch_all rest (watch vm_name ui)

-- `updateVMs` for the names that `get_vm_names` gave.
unfoldable pub update_vms : List Text → MonitorUi → MonitorUi
update_vms names ui =
    let watching = watch_all names ui in
    record watching {
      label = codes "Vigilando " ++ (decimal (length watching.monitors) ++ codes " VM(s)");
    }

unfoldable pub with_key : Text → MonitorUi → MonitorUi
with_key key ui =
    if is_empty key
    then record ui { label = codes "API Key no encontrada." }
    else record ui { api_key = some key }

-- The constructor, with the variable of the process, the environment file and the first names.
unfoldable pub new_ui : Option Text → Option Text → List Text → MonitorUi
unfolding with_key
new_ui variable file names =
    update_vms names (with_key (choose_api_key variable file) (starting variable))

-- The configuration with which the window starts: unlike the service it goes on where the file does not
-- open.
unfoldable pub window_config :
    {J : Type 0} → Nlohmann J → Option Text → Text → Run Config (Unit {0})
window_config json contents current_path = do
  load_from_file json contents
  effect (set_hash_path (join (parent_path current_path) (codes "hashStore")))

-- The ticks of the timer and the clicks on the button.
unfoldable pub refresh_all : List (List Text) → MonitorUi → MonitorUi
refresh_all [] ui = ui
refresh_all (names ∷ rounds) ui = refresh_all rounds (update_vms names ui)
