-- ===== src/Monitor.antt =====
-- src/monitor/monitor.h and monitor.cpp: the test that a machine's agent answers, by its kernel's name.
use idsproject.Base.{
  Text, ℕ, ◌++◌, codes, ℤ, negsuc, eqb_ℤ, int_text, is_empty, trim_right, ◌==◌, Bool, false, not,
  ◌||◌, none, some, [], Run, pure, call, need, effect, ensure, or_value, ◌>>=◌, ◌>>◌,
}
use idsproject.Host.{Libvirt, JsonC, Crypto}
use idsproject.FileMonitor.Guest.{ask, answer}

abbrev pub uname_cmd : Text
uname_cmd =
    codes
      "{\n        \"execute\": \"guest-exec\",\n        \"arguments\": {\n            \"path\": \"/bin/uname\",\n            \"arg\": [\"-r\"],\n            \"capture-output\": true\n        }\n    }"

unfoldable pub status_cmd : ℤ → Text
status_cmd pid =
    codes
      "{\n        \"execute\": \"guest-exec-status\",\n        \"arguments\": {\n            \"pid\": "
    ++ (int_text pid ++ codes "\n        }\n    }")

unfoldable pub is_white : ℕ → Bool
is_white c = c == b' ' || (c == b'\n' || (c == b'\r' || c == b'\t'))

module _ {S Dom J : Type 0} (virt : Libvirt S Dom) (json : JsonC J) (crypto : Crypto)
    (sleep_ms : ℕ → S → S) where
  -- The number of the guest's process, or -1 where the answer has none.
  unfoldable pub pid_of : J → ℤ
  pid_of returned = elim (json.object_get returned (codes "pid")) [
    | none ↦ negsuc 0
    | some field ↦ json.get_int field
  ]

  -- The object under "return" of the answer to a command.
  unfoldable pub ask_object : Dom → Text → Run S J
  ask_object dom cmd = do
    returned ← ask virt json dom cmd >>= answer virt json
    ensure (json.is_object returned)
    pure returned

  unfoldable pub kernel_output : Dom → Run S Text
  unfolding pid_of ask_object
  kernel_output dom = do
    started ← ask_object dom uname_cmd
    let pid = pid_of started
    ensure (not (eqb_ℤ pid (negsuc 0)))
    effect (sleep_ms 500)
    status ← ask_object dom (status_cmd pid)
    content ← need (json.object_get status (codes "out-data"))
    ensure (json.is_string content)
    decoded ← need (crypto.decode (json.get_string content))
    ensure (not (is_empty decoded))
    pure decoded

  -- Without the white space at its end; the empty text where a step failed. The handle is not null:
  -- the only caller has tested it.
  unfoldable pub get_kernel_name : Dom → Run S Text
  unfolding kernel_output is_white
  get_kernel_name dom =
      or_value [] do decoded ← kernel_output dom; pure (trim_right is_white decoded)

  -- `fail` is the answer false. The domain's handle is not given back. The test of `conn` is a part of the
  -- lookup, which finds nothing over a null connection.
  unfoldable pub initialize_monitor : Text → Run S Bool
  initialize_monitor vm_name = or_value false do
    dom ← call (virt.lookup_by_name vm_name) >>= need
    kernel_name ← get_kernel_name dom
    pure (not (is_empty kernel_name))
