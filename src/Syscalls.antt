-- ===== src/Syscalls.antt =====
-- `NetworkMonitor::monitorSyscalls` of src/monitor/networkMonitor/networkMonitor.cpp, and `decodeBase64` of
-- src/core/utils.cpp.
pub mod Output
use idsproject.Base.{
  Text, ℕ, zero, suc, ◌++◌, codes, String, ℤ, pos, int_text, has_sub, lines, Bool, true, false, not,
  ◌&&◌, Option, none, some, List, [], ◌∷◌, if◌then◌else◌, Run, lift, spent, pure, fail, call, need,
  need_or_throw, effect, or_value, ◌>>=◌, ◌>>◌,
}
use idsproject.Host.{Libvirt, Nlohmann, BlockDecoder}

-- The empty text where nothing was decoded.
unfoldable pub decode_base64 : BlockDecoder → Text → Text
decode_base64 decoder b64 = elim (decoder.decode_block b64) [ none ↦ [] | some bytes ↦ bytes ]

abbrev pub strace_cmd : Text
strace_cmd =
    codes
      "{\n        \"execute\": \"guest-exec\",\n        \"arguments\": {\n            \"path\": \"/usr/bin/strace\",\n            \"arg\": [\"-f\", \"-tt\", \"-e\", \"trace=openat,execve,connect\", \"timeout\", \"5\", \"ls\", \"/\"],\n            \"capture-output\": true\n        }\n    }"

unfoldable pub status_cmd : ℤ → Text
status_cmd pid =
    codes "{\"execute\":\"guest-exec-status\",\"arguments\":{\"pid\":"
    ++ (int_text pid ++ codes "}}")

unfoldable pub is_suspicious : Text → Bool
is_suspicious line = has_sub (codes "openat") line && has_sub (codes "/etc/shadow") line

-- The lines that are reported.
unfoldable pub suspicious : List Text → List Text
suspicious [] = []
suspicious (line ∷ rest) =
    let later = suspicious rest in if is_suspicious line then line ∷ later else later

module _ {S Dom J : Type 0} (virt : Libvirt S Dom) (json : Nlohmann J) (decoder : BlockDecoder)
    (sleep_ms : ℕ → S → S) (should_continue : S → Bool × S) where
  unfoldable pub report_output : J → Run S (List Text)
  report_output status = do
    value ← need_or_throw (json.at_key status (codes "out-data"))
    b64 ← need_or_throw (json.get_string value)
    pure (suspicious (lines (decode_base64 decoder b64)))

  -- What is reported of a process that has exited: its standard output alone is read.
  unfoldable pub report : J → Run S (List Text)
  report status =
      if not (json.contains status (codes "out-data")) then pure [] else report_output status

  -- The status in an answer, and whether the process has exited; nothing catches an exception.
  unfoldable pub read_status : Text → Run S (J × Bool)
  read_status reply = do
    root ← need_or_throw (json.parse reply)
    status ← need_or_throw (json.at_key root (codes "return"))
    flag ← need_or_throw (json.at_key status (codes "exited"))
    exited ← need_or_throw (json.get_bool flag)
    pure (status, exited)

  -- Behind a status: the report, or a sleep and the next round.
  unfoldable pub report_or : Run S (List Text) → J × Bool → Run S (List Text)
  report_or again (status, true) = report status
  report_or again (status, false) = do effect (sleep_ms 2000); again

  -- Behind an answer, of which none ends the loop.
  unfoldable pub status_or : Run S (List Text) → Option Text → Run S (List Text)
  status_or again none = pure []
  status_or again (some text) = read_status text >>= report_or again

  unfoldable pub ask_or : Run S (List Text) → Dom → ℤ → Bool → Run S (List Text)
  ask_or again dom pid false = pure []
  ask_or again dom pid true =
      call (virt.agent_command dom (status_cmd pid) (pos 10)) >>= status_or again

  -- The loop that asks for the exit while the flag is up.
  unfoldable pub await_exit : ℕ → Dom → ℤ → Run S (List Text)
  await_exit zero dom pid = lift spent
  await_exit (suc fuel) dom pid = call should_continue >>= ask_or (await_exit fuel dom pid) dom pid

  unfoldable pub free_and_fail : {A : Type 0} → Dom → Run S A
  free_and_fail dom = do effect (virt.domain_free dom); fail

  unfoldable pub need_or_free : {A : Type 0} → Dom → Option A → Run S A
  need_or_free dom none = free_and_fail dom
  need_or_free dom (some a) = pure a

  -- The number of the process under "return", where both keys are there.
  unfoldable pub guest_pid : Dom → J → Run S ℤ
  guest_pid dom j = if not (json.contains j (codes "return")) then free_and_fail dom else do
    returned ← need_or_throw (json.at_key j (codes "return"))
    if not (json.contains returned (codes "pid")) then free_and_fail dom else do
      pid ← need_or_throw (json.at_key returned (codes "pid"))
      need_or_throw (json.get_int pid)

  -- The command and its exit, on a domain that was found.
  unfoldable pub trace : ℕ → Dom → Run S (List Text)
  unfolding need_or_free guest_pid free_and_fail
  trace fuel dom = do
    result ← call (virt.agent_command dom strace_cmd (pos 30)) >>= need_or_free dom
    j ← need_or_throw (json.parse result)
    pid ← guest_pid dom j
    alerts ← await_exit fuel dom pid
    effect (virt.domain_free dom)
    pure alerts

  unfoldable pub found_domain : Text → Run S Dom
  found_domain vm_name = call (virt.lookup_by_name vm_name) >>= need

  -- The lines that are reported; an exception leaves the domain's handle taken.
  unfoldable pub monitor_syscalls : ℕ → Text → Run S (List Text)
  unfolding found_domain
  monitor_syscalls fuel vm_name = or_value [] (found_domain vm_name >>= trace fuel)
