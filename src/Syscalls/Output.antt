-- ===== src/Syscalls/Output.antt =====
-- Where the reports of `monitorSyscalls` come from.
use idsproject.Base.{
  Text, ℕ, codes, ℤ, pos, lines, Bool, true, false, none, some, List, [], ◌∷◌, ◌≡◌, ◌⊎◌, Run, ok,
  has_sub,
}
use idsproject.Host.{Libvirt, Nlohmann, BlockDecoder}
use idsproject.Syscalls.{status_cmd}

-- The second list has the lines of the first, in their order, that name both `openat` and `/etc/shadow`.
pub data Picks : List Text → List Text → Type 0 where
  no_lines : Picks [] []
  takes :
      {line : Text} {ls picked : List Text}
      → has_sub (codes "openat") line ≡ true
      → has_sub (codes "/etc/shadow") line ≡ true
      → Picks ls picked
      → Picks (line ∷ ls) (line ∷ picked)
  skips :
      {line : Text} {ls picked : List Text}
      → (has_sub (codes "openat") line ≡ false) ⊎ (has_sub (codes "/etc/shadow") line ≡ false)
      → Picks ls picked
      → Picks (line ∷ ls) picked

module _ {S Dom J : Type 0} (virt : Libvirt S Dom) (json : Nlohmann J) (decoder : BlockDecoder)
    (sleep_ms : ℕ → S → S) (should_continue : S → Bool × S) where
  -- The status of a process that has exited, in an answer of the agent.
  pub record IsExit (status : J) : Type 0 where
    pub dom : Dom
    pub pid : ℤ
    pub asked : S
    pub text : Text
    pub root : J
    pub flag : J
    pub answered : (virt.agent_command dom (status_cmd pid) (pos 10) asked).0 ≡ some text
    pub parsed : json.parse text ≡ some root
    pub returned : json.at_key root (codes "return") ≡ some status
    pub exited : json.at_key status (codes "exited") ≡ some flag
    pub true_flag : json.get_bool flag ≡ some true

  -- There are no lines; or they are those of the text under "out-data" of such a status.
  abbrev pub IsReport : List Text → Type 0
  IsReport alerts =
      (alerts ≡ [])
      ⊎ ((status : J) × (value : J) × (b64 : Text) × (bytes : Text) × IsExit status
          × (json.at_key status (codes "out-data") ≡ some value)
          × (json.get_string value ≡ some b64)
          × ((decoder.decode_block b64 ≡ some bytes)
              ⊎ ((decoder.decode_block b64 ≡ none) × (bytes ≡ [])))
          × Picks (lines bytes) alerts)

  -- Whatever the code returns is a report.
  abbrev Reports : Run S (List Text) → Type 0
  Reports m = (s : S) (alerts : List Text) → (m s).0 ≡ ok alerts → IsReport alerts
