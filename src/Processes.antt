-- ===== src/Processes.antt =====
-- src/monitor/processMonitor/processMonitor.cpp: the list of a guest's processes, by commands that its
-- agent runs.
pub mod Waiting
pub mod Sorting
use idsproject.Base.{
  Text, ℕ, zero, suc, ◌++◌, codes, String, ℤ, pos, negsuc, ltb_ℤ, int_text, is_empty, lines,
  read_int, read_word, insert, ◌==◌, Bool, true, false, not, Option, none, some, List, [], ◌∷◌,
  if◌then◌else◌, Run, Result, ok, spent, lift, pure, fail, call, need, need_or_throw, effect,
  ensure, or_value, attempt, ◌>>=◌, ◌>>◌,
}
use idsproject.Host.{Libvirt, Nlohmann, Crypto, Doubles}
use idsproject.ProcessMonitor.{with_domain}

-- ProcInfo and GuestProcessInfo; `F` is `double`.
pub record ProcInfo (F : Type 0) : Type 0 where
  pub pid : ℤ
  pub name : Text
  pub cpu : F

pub record GuestProcessInfo (F : Type 0) : Type 0 where
  pub pid : ℤ
  pub name : Text
  pub cpu : F
  pub binary_path : Text

abbrev pub ps_cmd : Text
ps_cmd =
    codes
      "{\n        \"execute\":\"guest-exec\",\n        \"arguments\":{\n            \"path\":\"/bin/ps\",\n            \"arg\":[\"-eo\",\"pid=,pcpu=,comm=\"],\n            \"capture-output\":true\n        }\n    }"

unfoldable pub readlink_cmd : ℤ → Text
readlink_cmd pid =
    codes
      "{\n            \"execute\": \"guest-exec\",\n            \"arguments\": {\n                \"path\": \"/bin/readlink\",\n                \"arg\": [\"/proc/"
    ++ (int_text pid
        ++ codes "/exe\"],\n                \"capture-output\": true\n            }\n        }")

unfoldable pub poll_cmd : ℤ → Text
poll_cmd pid =
    codes "{\"execute\":\"guest-exec-status\",\"arguments\":{\"pid\":"
    ++ (int_text pid ++ codes "}}")

-- `std::remove` of the line ends, and `erase`.
unfoldable pub without_newlines : Text → Text
without_newlines [] = []
without_newlines (c ∷ s) = let rest = without_newlines s in if c == b'\n' then rest else c ∷ rest

-- `parseProcessList`: `snapshot[pid] = name` for the lines with both, the keys by their decimals.
unfoldable pub parse_snapshot : List Text → List (Text × Text) → List (Text × Text)
parse_snapshot [] snapshot = snapshot
parse_snapshot (line ∷ rest) snapshot = elim (read_int line) [
  | none ↦ parse_snapshot rest snapshot
  | some (pid, behind) ↦ elim (read_word behind) [
    | none ↦ parse_snapshot rest snapshot
    | some (name, _) ↦ parse_snapshot rest (insert (int_text pid) name snapshot)
  ]
]

module _ {F : Type 0} (doubles : Doubles F) where
  -- `ls >> pi.pid >> pi.cpu >> pi.name`
  unfoldable pub parse_proc : Text → Option (ProcInfo F)
  parse_proc line = elim (read_int line) [
    | none ↦ none
    | some (pid, behind_pid) ↦ elim (doubles.read behind_pid) [
      | none ↦ none
      | some (cpu, behind_cpu) ↦ elim (read_word behind_cpu) [
        | none ↦ none
        | some (name, _) ↦ some (record { pid = pid; name = name; cpu = cpu })
      ]
    ]
  ]

  -- The lines that parse, in order.
  unfoldable pub parse_procs : List Text → List (ProcInfo F)
  parse_procs [] = []
  parse_procs (line ∷ rest) =
      let later = parse_procs rest in elim (parse_proc line) [ none ↦ later | some p ↦ p ∷ later ]

  -- `std::sort` with `a.cpu > b.cpu`; it leaves open how equals are ordered, and here they stand in
  -- the order in which they are inserted.
  unfoldable pub insert_by_cpu :
      GuestProcessInfo F → List (GuestProcessInfo F) → List (GuestProcessInfo F)
  insert_by_cpu x [] = x ∷ []
  insert_by_cpu x (y ∷ ys) =
      let later = insert_by_cpu x ys in if doubles.gt y.cpu x.cpu then y ∷ later else x ∷ y ∷ ys

  unfoldable pub sort_by_cpu : List (GuestProcessInfo F) → List (GuestProcessInfo F)
  sort_by_cpu [] = []
  sort_by_cpu (x ∷ xs) = insert_by_cpu x (sort_by_cpu xs)

module _ {S Dom J : Type 0} (virt : Libvirt S Dom) (json : Nlohmann J) (crypto : Crypto)
    (sleep_ms : ℕ → S → S) where
  -- The object under "return" of an answer; parsing is not guarded.
  returned : Text → Run S J
  returned text = do
    root ← need_or_throw (json.parse text)
    need_or_throw (json.at_key root (codes "return"))

  -- The number of the guest's process that a command started; a negative one is a failure.
  unfoldable pub start_command : Dom → Text → Run S ℤ
  unfolding returned
  start_command dom cmd = do
    reply ← call (virt.agent_command dom cmd (pos 10)) >>= need
    j ← returned reply
    guest_pid ← need_or_throw (json.value_int j (codes "pid") (negsuc 0))
    ensure (not (ltb_ℤ guest_pid (pos 0)))
    pure guest_pid

  -- One stream of the output: `none` where there is no text, or where the exception of the decoding
  -- is caught.
  decoded_part : J → Text → Run S (Option Text)
  decoded_part status key = if not (json.contains status key) then pure none else do
    value ← need_or_throw (json.at_key status key)
    if not (json.is_string value)
        then pure none
        else do b64 ← need_or_throw (json.get_string value); pure (crypto.decode b64)

  text_or_empty : Option Text → Text
  text_or_empty none = []
  text_or_empty (some t) = t

  stderr_or_empty : Option Text → Text
  stderr_or_empty none = []
  stderr_or_empty (some t) = codes "\n[STDERR]: " ++ t

  unfoldable pub collect : J → Run S Text
  unfolding decoded_part text_or_empty stderr_or_empty
  collect status = do
    out ← decoded_part status (codes "out-data")
    err ← decoded_part status (codes "err-data")
    let output = text_or_empty out ++ stderr_or_empty err
    ensure (not (is_empty output))
    pure output

  -- The status of the guest's process, and whether it has exited.
  unfoldable pub poll : Dom → ℤ → Run S (J × Bool)
  unfolding returned
  poll dom pid = do
    reply ← call (virt.agent_command dom (poll_cmd pid) (pos 10)) >>= need
    status ← returned reply
    flag ← need_or_throw (json.at_key status (codes "exited"))
    exited ← need_or_throw (json.get_bool flag)
    pure (status, exited)

  -- The loop has no bound in the program.
  unfoldable pub wait_for_execution : ℕ → Dom → ℤ → Run S Text
  wait_for_execution zero dom pid = lift spent
  wait_for_execution (suc fuel) dom pid = do
    (status, exited) ← poll dom pid
    elim exited [
      | true ↦ collect status
      | false ↦ do effect (sleep_ms 100); wait_for_execution fuel dom pid
    ]

  module _ {F : Type 0} (doubles : Doubles F) where
    -- `fail` is the answer false.
    unfoldable pub fetch_process_list : ℕ → Text → Run S (List (ProcInfo F))
    fetch_process_list fuel vm_name = with_domain virt vm_name λ dom. do
      guest_pid ← start_command dom ps_cmd
      output ← wait_for_execution fuel dom guest_pid
      pure (parse_procs doubles (lines output))

    -- The path of one process's file.
    unfoldable pub binary_of : ℕ → Dom → ProcInfo F → Run S (GuestProcessInfo F)
    binary_of fuel dom proc = do
      guest_pid ← start_command dom (readlink_cmd proc.pid)
      output ← wait_for_execution fuel dom guest_pid
      pure (record {
        pid = proc.pid;
        name = proc.name;
        cpu = proc.cpu;
        binary_path = without_newlines output;
      })

    unfoldable pub consed :
        Option (GuestProcessInfo F) → List (GuestProcessInfo F) → List (GuestProcessInfo F)
    consed none later = later
    consed (some p) later = p ∷ later

    -- The loop over the processes; one whose path cannot be read is passed over.
    unfoldable pub with_binaries : ℕ → Dom → List (ProcInfo F) → Run S (List (GuestProcessInfo F))
    unfolding consed
    with_binaries fuel dom [] = pure []
    with_binaries fuel dom (proc ∷ rest) = do
      found ← attempt (binary_of fuel dom proc)
      later ← with_binaries fuel dom rest
      pure (consed found later)

    -- The steps behind which the list is there: the processes, the domain once more, and the paths.
    unfoldable pub sorted_processes : ℕ → Text → Run S (List (GuestProcessInfo F))
    sorted_processes fuel vm_name = do
      procs ← fetch_process_list fuel vm_name
      listed ← with_domain virt vm_name λ dom. with_binaries fuel dom procs
      pure (sort_by_cpu doubles listed)

    -- Sorted by the use of the CPU, the highest first; empty where the list or the domain is not there.
    unfoldable pub list_guest_processes : ℕ → Text → Run S (List (GuestProcessInfo F))
    list_guest_processes fuel vm_name = or_value [] (sorted_processes fuel vm_name)
