-- ===== src/FileMonitor/Guest.antt =====
-- `FileMonitor::readFileFromVM` of src/monitor/fileMonitor/fileMonitor.cpp: three commands to the guest
-- agent, and the base64 text of the file as its answer.
use idsproject.Base.{
  Text, ◌++◌, codes, int_text, ℤ, negsuc, Run, pure, call, need, ensure, or_value, ◌>>=◌, ◌>>◌, [],
}
use idsproject.Host.{Libvirt, JsonC}

-- The path is put into the command's text as it is.
unfoldable pub open_cmd : Text → Text
open_cmd path =
    codes
      "{\n        \"execute\": \"guest-file-open\",\n        \"arguments\": {\n            \"path\": \""
    ++ path
    ++ codes "\",\n            \"mode\": \"r\"\n        }\n    }"

unfoldable pub read_cmd : ℤ → Text
read_cmd handle =
    codes
      "{\n        \"execute\": \"guest-file-read\",\n        \"arguments\": {\n            \"handle\": "
    ++ int_text handle
    ++ codes "\n        }\n    }"

unfoldable pub close_cmd : ℤ → Text
close_cmd handle =
    codes
      "{\n        \"execute\": \"guest-file-close\",\n        \"arguments\": {\n            \"handle\": "
    ++ int_text handle
    ++ codes "\n        }\n    }"

module _ {S Dom J : Type 0} (virt : Libvirt S Dom) (json : JsonC J) where
  -- A command with the timeout -2; a null answer is a failure.
  unfoldable pub ask : Dom → Text → Run S Text
  ask dom cmd = call (virt.agent_command dom cmd (negsuc 1)) >>= need

  -- The value under "return" of an answer.
  unfoldable pub answer : Text → Run S J
  answer text = do
    root ← need (json.tokener_parse text)
    need (json.object_get root (codes "return"))

  unfoldable pub read_file : Dom → Text → Run S Text
  read_file dom path = do
    opened ← ask dom (open_cmd path) >>= answer
    ensure (json.is_int opened)
    let handle = json.get_int opened
    reply ← ask dom (read_cmd handle) >>= answer
    ensure (json.is_object reply)
    content ← need (json.object_get reply (codes "buf-b64"))
    ensure (json.is_string content)
    call (virt.agent_command dom (close_cmd handle) (negsuc 1))
    pure (json.get_string content)

  -- The empty text where a step failed.
  unfoldable pub read_file_from_vm : Dom → Text → Run S Text
  unfolding read_file
  read_file_from_vm dom path = or_value [] (read_file dom path)
