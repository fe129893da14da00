-- ===== src/Tests/ProcessLists.antt =====
-- The list of a guest's processes, where every command of the guest gives the same output.
use mathlib.Core.List.{Perm}
use idsproject.Base.{
  Text, ℕ, zero, suc, codes, ℤ, pos, negsuc, text_eq, ltb, read_int, read_word, trim_left, span,
  digits_value, lines, int_text, decimal, Bool, true, false, Option, none, some, List, [], ◌∷◌, ◌≡◌,
  refl, arith, ok, ◌⊎◌, if◌then◌else◌,
}
use idsproject.Host.{Libvirt, Nlohmann, Crypto, Doubles}
use idsproject.ProcessMonitor.{with_domain}
use idsproject.Processes.{
  ProcInfo, GuestProcessInfo, fetch_process_list, start_command, wait_for_execution, poll, collect,
  binary_of, with_binaries, sorted_processes, list_guest_processes, parse_procs, parse_proc,
  sort_by_cpu, insert_by_cpu, without_newlines, readlink_cmd, poll_cmd,
}
use idsproject.Processes.Waiting.{exits, runs_on, wait_for_execution-ExitsAfter}
use idsproject.Processes.Sorting.{IsOrder, IsDescending, Picked, list_guest_processes-Descending}
use idsproject.Tests.Documents.{Doc, num, bool, text, obj, end, field, toy_nlohmann}

abbrev status : Bool → Doc
status exited = obj (
    field (codes "pid") (num (pos 7)) (
      field (codes "exited") (bool exited)
        (field (codes "out-data") (text (codes "1 5 init\n9 8 sshd\n")) end)))

abbrev exit_answer : Bool → Doc
exit_answer exited = obj (field (codes "return") (status exited) end)

-- The text "on" is the answer of a process that still runs.
abbrev json : Nlohmann Doc
json = record (toy_nlohmann [] (exit_answer true)) {
  parse = λ t. some (exit_answer (if text_eq t (codes "on") then false else true));
}

abbrev crypto : Crypto
crypto = record { sha256 = λ t. t; decode = λ t. some t }

-- The process runs on for as many polls as the state says.
abbrev reply : ℕ → Option Text × ℕ
reply zero = (some (codes "off"), zero)
reply (suc n) = (some (codes "on"), n)

abbrev virt : Libvirt ℕ Unit
virt = record {
  lookup_by_name = λ n s. (some tt, s);
  domain_free = λ d s. s;
  agent_command = λ d c t s. reply s;
}

abbrev natural : Option (ℤ × Text) → Option (ℕ × Text)
natural (some (pos n, rest)) = some (n, rest)
natural (some (negsuc n, rest)) = none
natural none = none

abbrev doubles : Doubles ℕ
doubles = record { read = λ t. natural (read_int t); gt = λ a b. ltb b a }

doubles-IsOrder : IsOrder doubles
doubles-IsOrder = record { asym = λ a b h. ground arith; trans = λ a b c h k. ground arith }

wait_for_execution-ExitsAfter_example :
    wait_for_execution virt json crypto (λ n s. s) 4 tt (pos 7) 2
    ≡ collect virt json crypto (λ n s. s) (status true) 0
unfolding poll poll_cmd text_eq int_text decimal
wait_for_execution-ExitsAfter_example =
    wait_for_execution-ExitsAfter virt json crypto (λ n s. s) tt (pos 7) 2 3 {s = 2}
      (runs_on refl (runs_on refl (exits refl))) (omega arith)

abbrev sorted : List (GuestProcessInfo ℕ)
sorted =
    record { pid = pos 9; name = codes "sshd"; cpu = 8; binary_path = codes "1 5 init9 8 sshd" }
    ∷ record { pid = pos 1; name = codes "init"; cpu = 5; binary_path = codes "1 5 init9 8 sshd" }
    ∷ []

listed : (list_guest_processes virt json crypto (λ n s. s) doubles 1 (codes "vm") 0).0 ≡ ok sorted
unfolding list_guest_processes sorted_processes fetch_process_list with_domain start_command
    wait_for_execution poll collect lines parse_procs parse_proc read_int read_word trim_left span
    digits_value with_binaries binary_of without_newlines sort_by_cpu insert_by_cpu text_eq
    readlink_cmd poll_cmd int_text decimal
listed = refl

list_guest_processes-Descending_example :
    (sorted ≡ [])
    ⊎ ((procs : List (ProcInfo ℕ)) × (all : List (GuestProcessInfo ℕ)) × ((fetch_process_list virt
            json crypto
            (λ n s. s)
            doubles
            1
            (codes "vm")
            0).0
          ≡ ok procs)
        × Picked all procs
        × Perm sorted all
        × IsDescending doubles sorted)
list_guest_processes-Descending_example =
    list_guest_processes-Descending virt json crypto (λ n s. s) doubles 1 (codes "vm") 0
      doubles-IsOrder listed
