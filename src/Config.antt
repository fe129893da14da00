-- ===== src/Config.antt =====
-- src/core/config.h and src/core/config.cpp: the configuration record and its loading from a JSON file.
pub mod Loading
pub mod Settings
use idsproject.Base.{
  Text, ℕ, ℤ, pos, to_u16, codes, String, Bool, true, false, Option, none, some, List, [], ◌∷◌,
  ◌++◌, if◌then◌else◌, Run, pure, lift, need_or_throw, effect, ◌>>=◌, ◌>>◌,
}
use idsproject.Host.{Nlohmann}

-- Config::NetworkFilter; the two ends of the range are `uint16_t`.
pub record NetworkFilter : Type 0 where
  pub protocol : Text
  pub ports : List ℤ
  pub range_first : ℕ
  pub range_second : ℕ
  pub ip : Text

pub record Config : Type 0 where
  pub update_interval : ℤ
  pub monitoring_interval : ℤ
  pub process_interval : ℤ
  pub monitor_files : Bool
  pub monitor_processes : Bool
  pub files2watch : List Text
  pub hash_path : Text
  pub guest_file_path : Text
  pub network_interface : Text
  pub network_filters : List NetworkFilter

-- The default constructor, with the initialisers of the fields.
abbrev pub default_config : Config
default_config = record {
  update_interval = pos 5;
  monitoring_interval = pos 10;
  process_interval = pos 10;
  monitor_files = false;
  monitor_processes = false;
  files2watch = [];
  hash_path = [];
  guest_file_path = [];
  network_interface = codes "red-central";
  network_filters = [];
}

-- The constructor with a value for each field, in its order.
abbrev pub new_config :
    ℤ → ℤ → ℤ → Bool → Bool → List Text → Text → Text → Text → List NetworkFilter → Config
new_config update monitoring process files processes watched hash_path guest_path interface
      filters =
    record {
      update_interval = update;
      monitoring_interval = monitoring;
      process_interval = process;
      monitor_files = files;
      monitor_processes = processes;
      files2watch = watched;
      hash_path = hash_path;
      guest_file_path = guest_path;
      network_interface = interface;
      network_filters = filters;
    }

-- The setters.
abbrev pub set_update_interval : ℤ → Config → Config
set_update_interval i c = record c { update_interval = i }

abbrev pub set_monitoring_interval : ℤ → Config → Config
set_monitoring_interval i c = record c { monitoring_interval = i }

abbrev pub set_process_interval : ℤ → Config → Config
set_process_interval i c = record c { process_interval = i }

abbrev pub set_monitor_files : Bool → Config → Config
set_monitor_files b c = record c { monitor_files = b }

abbrev pub set_monitor_processes : Bool → Config → Config
set_monitor_processes b c = record c { monitor_processes = b }

abbrev pub set_files2watch : List Text → Config → Config
set_files2watch v c = record c { files2watch = v }

abbrev pub set_hash_path : Text → Config → Config
set_hash_path p c = record c { hash_path = p }

abbrev pub set_guest_file_path : Text → Config → Config
set_guest_file_path p c = record c { guest_file_path = p }

abbrev pub set_network_interface : Text → Config → Config
set_network_interface i c = record c { network_interface = i }

abbrev pub set_network_filters : List NetworkFilter → Config → Config
set_network_filters f c = record c { network_filters = f }

-- NetworkFilter's initialisers: PORT_UNSET at both ends of the range.
abbrev pub default_filter : NetworkFilter
default_filter = record { protocol = []; ports = []; range_first = 0; range_second = 0; ip = [] }

module _ {J : Type 0} (json : Nlohmann J) where
  -- `field = j[key].get<T>();` on a state, which keeps what was assigned before an exception.
  unfoldable pub assign :
      {A C : Type 0} → J → String → (J → Option A) → (A → C → C) → Run C (Unit {0})
  assign j key get set = do
    v ← need_or_throw (json.at_key j (codes key))
    a ← need_or_throw (get v)
    effect (set a)

  -- `if (j.contains(key)) ...`
  unfoldable pub if_contains : {C : Type 0} → J → String → Run C (Unit {0}) → Run C (Unit {0})
  if_contains j key body = if json.contains j (codes key) then body else pure tt

  unfoldable pub assign_if :
      {A C : Type 0} → J → String → (J → Option A) → (A → C → C) → Run C (Unit {0})
  unfolding assign if_contains
  assign_if j key get set = if_contains j key (assign j key get set)

  -- `if (j.contains(key)) { auto& part = j[key]; ... }`
  unfoldable pub within : {C : Type 0} → J → String → (J → Run C (Unit {0})) → Run C (Unit {0})
  unfolding if_contains
  within j key body = if_contains j key (need_or_throw (json.at_key j (codes key)) >>= body)

  -- `f["port_range"][index].get<int>()`
  range_end : J → ℕ → Option ℤ
  range_end range index = elim (json.at_index range index) [ none ↦ none | some v ↦ json.get_int v ]

  -- `if (f.contains("port_range") && f["port_range"].is_array())`, and the two assignments.
  unfoldable pub load_range : J → Run NetworkFilter (Unit {0})
  unfolding range_end if_contains
  load_range f = if_contains f "port_range" do
    range ← need_or_throw (json.at_key f (codes "port_range"))
    if json.is_array range
        then (do
          first ← need_or_throw (range_end range 0)
          effect (λ nf. record nf { range_first = to_u16 first })
          second ← need_or_throw (range_end range 1)
          effect (λ nf. record nf { range_second = to_u16 second }))
        else pure tt

  -- One element of "Filters".
  unfoldable pub load_filter : J → Run NetworkFilter (Unit {0})
  unfolding assign_if
  load_filter f = do
    protocol ← need_or_throw (json.value_string f (codes "protocol") [])
    effect (λ nf. record nf { protocol = protocol })
    assign_if f "ports" json.get_ints (λ v nf. record nf { ports = v })
    load_range f
    ip ← need_or_throw (json.value_string f (codes "ip") [])
    effect (λ nf. record nf { ip = ip })

  -- The filter that is built is pushed unless an exception was met on the way.
  unfoldable pub load_filters : List J → Run Config (Unit {0})
  load_filters [] = pure tt
  load_filters (f ∷ rest) =
      let (r, nf) = load_filter f default_filter in
      do
        lift r
        effect (λ c. record c { network_filters = c.network_filters ++ nf ∷ [] })
        load_filters rest

  unfoldable pub load_general : J → Run Config (Unit {0})
  unfolding assign_if
  load_general g =
      assign_if g "Update_Interval" json.get_int (λ v c. record c { update_interval = v })

  unfoldable pub load_monitoring : J → Run Config (Unit {0})
  unfolding assign_if
  load_monitoring m = do
    assign_if m "Monitor_Processes" json.get_bool (λ v c. record c { monitor_processes = v })
    assign_if m "Process_Interval" json.get_int (λ v c. record c { process_interval = v })
    assign_if m "Monitor_Files" json.get_bool (λ v c. record c { monitor_files = v })
    assign_if m "Files2Watch" json.get_strings (λ v c. record c { files2watch = v })
    assign_if m "Hash_Path" json.get_string (λ v c. record c { hash_path = v })
    assign_if m "Guest_File_Path" json.get_string (λ v c. record c { guest_file_path = v })

  unfoldable pub load_network : J → Run Config (Unit {0})
  unfolding assign_if
  load_network n = do
    assign_if n "Interface" json.get_string (λ v c. record c { network_interface = v })
    if_contains n "Filters" do
      filters ← need_or_throw (json.at_key n (codes "Filters"))
      if json.is_array filters
          then (do
            effect (λ c. record c { network_filters = [] })
            load_filters (json.elements filters))
          else pure tt

  unfoldable pub load_document : J → Run Config (Unit {0})
  unfolding within
  load_document j = do
    within j "General" load_general
    within j "Monitoring" load_monitoring
    within j "Network" load_network

  -- `contents` is what the stream delivers, or `none` where the file does not open.
  unfoldable pub load_from_file : Option Text → Run Config Bool
  load_from_file none = pure false
  load_from_file (some contents) = do
    j ← need_or_throw (json.read_stream contents)
    load_document j
    pure true
