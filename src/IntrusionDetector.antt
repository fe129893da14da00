-- ===== src/IntrusionDetector.antt =====
-- src/detection/intrusionDetector.h and intrusionDetector.cpp: the comparison of two lists of processes. The
-- list of `getProcesses` is an argument: the call in it names a variable `TODO` that is declared nowhere.
use idsproject.Base.{
  Text, ◌++◌, codes, ℤ, pos, leb_ℤ, eqb_ℤ, int_text, is_empty, text_eq, any, Bool, ◌||◌, List, [],
  ◌∷◌, ◌≡◌, refl, ap, if◌then◌else◌,
}

-- `std::unordered_map<int, std::string>`, in the order in which it is visited.
abbrev pub Processes : Type 0
Processes = List (ℤ × Text)

-- It is not implemented, and gives an empty map.
abbrev pub get_guest_processes : Processes
get_guest_processes = []

unfoldable pub is_listed : ℤ → Processes → Bool
is_listed pid processes = any (λ p. eqb_ℤ p.0 pid) processes

-- The reports of the loop: the processes that the guest does not list.
unfoldable pub hidden : Processes → Processes → Processes
unfolding is_listed
hidden [] guest = []
hidden (p ∷ rest) guest =
    let later = hidden rest guest in if is_listed p.0 guest then later else p ∷ later

unfoldable pub is_anomalous : ℤ × Text → Bool
is_anomalous (pid, name) = is_empty name || (text_eq name (codes "unknown") || leb_ℤ pid (pos 1))

unfoldable pub anomaly_message : ℤ × Text → Text
anomaly_message (pid, name) =
    codes "Proceso an"
    ++ 195 ∷ 179 ∷ (codes "malo detectado: PID " ++ (int_text pid ++ (codes ", Nombre: " ++ name)))

unfoldable pub anomalies : Processes → List Text
unfolding is_anomalous anomaly_message
anomalies [] = []
anomalies (p ∷ rest) =
    let later = anomalies rest in if is_anomalous p then anomaly_message p ∷ later else later

unfoldable pub detect_hidden_processes : Processes → Processes
detect_hidden_processes memory = hidden memory get_guest_processes

unfoldable pub detect_process_anomalies : Processes → List Text
detect_process_anomalies memory = anomalies memory

-- Every process is reported as hidden.
detect_hidden_processes_lem : (memory : Processes) → detect_hidden_processes memory ≡ memory
unfolding detect_hidden_processes hidden is_listed
detect_hidden_processes_lem [] = refl
detect_hidden_processes_lem (p ∷ rest) = ap (◌∷◌ p) (detect_hidden_processes_lem rest)
