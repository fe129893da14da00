-- ===== src/Network.antt =====
-- src/monitor/networkMonitor/networkMonitor.h and networkMonitor.cpp: the lines of `tcpdump` against the
-- filters of the configuration.
pub mod Pattern
pub mod Rules
pub mod Limits
pub mod Runs
pub mod Parsing
use idsproject.Base.{
  Text, ℕ, ◌++◌, codes, String, ℤ, pos, is_empty, text_eq, starts_with, has_sub, find, ltb, Bool,
  true, false, ◌&&◌, ◌||◌, not, any, eqb_ℤ, Option, none, some, List, [], ◌∷◌, if◌then◌else◌,
}
use idsproject.Config.{NetworkFilter, Config}
use idsproject.Network.Pattern.{Packet, parse_line, stoi}

-- The command whose output is read.
unfoldable pub tcpdump_cmd : Text → Text
tcpdump_cmd iface = codes "sudo tcpdump -i " ++ (iface ++ codes " -nn -l -q")

-- The five tests of the loop over the filters: false where the code continues with the next filter.
unfoldable pub protocol_passes : NetworkFilter → Text → Bool
protocol_passes f line =
    if is_empty f.protocol
    then true
    else if text_eq f.protocol (codes "tcp") && not (has_sub (codes "Flags [") line)
    then false
    else not (text_eq f.protocol (codes "udp") && not (has_sub (codes ": UDP,") line))

unfoldable pub is_port : ℕ → ℤ → Bool
is_port dst p = eqb_ℤ (pos dst) p

unfoldable pub list_passes : List ℤ → ℕ → Bool
unfolding is_port
list_passes [] dst = true
list_passes (p ∷ ports) dst = any (is_port dst) (p ∷ ports)

unfoldable pub ports_pass : NetworkFilter → ℕ → Bool
unfolding list_passes
ports_pass f dst = list_passes f.ports dst

-- `port_range.first >= 0` always holds of a `uint16_t`.
unfoldable pub range_passes : NetworkFilter → ℕ → Bool
range_passes f dst =
    if ltb f.range_first f.range_second
    then not (ltb dst f.range_first || ltb f.range_second dst)
    else true

-- The address up to the first slash.
unfoldable pub net_part : Text → Text
net_part ip = elim (find (codes "/") ip) [ none ↦ ip | some (net, _) ↦ net ]

unfoldable pub ip_passes : NetworkFilter → Text → Text → Bool
unfolding net_part
ip_passes f src dst =
    if is_empty f.ip
    then true
    else starts_with (net_part f.ip) src || starts_with (net_part f.ip) dst

unfoldable pub passes : NetworkFilter → Text → Packet → Bool
passes f line p =
    protocol_passes f line
    && (ports_pass f p.dst_port && (range_passes f p.dst_port && ip_passes f p.src_ip p.dst_ip))

-- An alert names the rule and the packet.
pub record Alert : Type 0 where
  pub rule : NetworkFilter
  pub packet : Packet

-- The loop over the filters: an alert for the first that passes, and `break`.
unfoldable pub match_filters : List NetworkFilter → Text → Packet → Option Alert
match_filters [] line p = none
match_filters (f ∷ rest) line p =
    if passes f line p then some (record { rule = f; packet = p }) else match_filters rest line p

-- What one line of output leads to.
pub data LineResult : Type 0 where
  -- no match of the pattern, or of a filter
  quiet : LineResult
  alert : Alert → LineResult
  -- `std::stoi` threw
  out_of_range : LineResult

unfoldable pub of_option : Option Alert → LineResult
of_option none = quiet
of_option (some a) = alert a

unfoldable pub handle_line : List NetworkFilter → Text → LineResult
unfolding of_option
handle_line filters line = elim (parse_line line) [
  | none ↦ quiet
  | some raw ↦ elim (stoi raw) [
    | none ↦ out_of_range
    | some p ↦ of_option (match_filters filters line p)
  ]
]

-- The loop over the lines that the pipe delivers while the monitor should continue: the alerts in
-- order, and whether it ended by an exception.
unfoldable pub run_lines : List NetworkFilter → List Text → List Alert × Bool
run_lines filters [] = ([], false)
run_lines filters (line ∷ rest) =
    let later = run_lines filters rest in
    elim (handle_line filters line) [
      | quiet ↦ later
      | alert a ↦ (a ∷ later.0, later.1)
      | out_of_range ↦ ([], true)
    ]

-- `NetworkMonitor::run`: `pipe` is the output of the command while `shouldContinue` holds, or `none`
-- where `popen` fails.
unfoldable pub run : Config → (Text → Option (List Text)) → List Alert × Bool
unfolding tcpdump_cmd
run config pipe = elim (pipe (tcpdump_cmd config.network_interface)) [
  | none ↦ ([], false)
  | some output ↦ run_lines config.network_filters output
]
