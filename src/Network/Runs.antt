-- ===== src/Network/Runs.antt =====
-- A whole run over the lines of the pipe.
use idsproject.Base.{
  Text, ◌++◌, Bool, true, false, Option, none, some, Option-cases, List, [], ◌∷◌, ◌≡◌, ◌⊎◌, inl,
  inr, refl, ap,
}
use idsproject.Config.{NetworkFilter, Config}
use idsproject.Network.{
  Alert, of_option, handle_line, LineResult, quiet, alert, out_of_range, run_lines, run,
  tcpdump_cmd,
}
use idsproject.Network.Pattern.{RawPacket, Packet, parse_line, stoi}
use idsproject.Network.Rules.{Matches, NoneMatch, match_filters-first}

-- The line is that of a packet, with both ports in range.
abbrev pub IsPacket : Text → Packet → Type 0
IsPacket line p = (raw : RawPacket) × (parse_line line ≡ some raw) × (stoi raw ≡ some p)

-- No pattern in the line, or a packet that no filter matches.
abbrev pub HasNoAlert : List NetworkFilter → Text → Type 0
HasNoAlert fs line =
    (parse_line line ≡ none) ⊎ ((p : Packet) × IsPacket line p × NoneMatch fs line p)

-- The alert names the line's packet and the first filter that matches it.
abbrev pub IsAlertOf : List NetworkFilter → Text → Alert → Type 0
IsAlertOf fs line a =
    (before : List NetworkFilter) × (after : List NetworkFilter) × (fs ≡ before ++ a.rule ∷ after)
    × IsPacket line a.packet
    × NoneMatch before line a.packet
    × Matches a.rule line a.packet

-- A port of the line's packet is no `int`.
abbrev pub IsOutOfRange : Text → Type 0
IsOutOfRange line = (raw : RawPacket) × (parse_line line ≡ some raw) × (stoi raw ≡ none)

-- These alerts, in order, for these lines.
pub data Reports (fs : List NetworkFilter) : List Text → List Alert → Type 0 where
  done : Reports fs [] []
  passed_over :
      {line : Text} {rest : List Text} {alerts : List Alert}
      → HasNoAlert fs line
      → Reports fs rest alerts
      → Reports fs (line ∷ rest) alerts
  reported :
      {line : Text} {a : Alert} {rest : List Text} {alerts : List Alert}
      → IsAlertOf fs line a
      → Reports fs rest alerts
      → Reports fs (line ∷ rest) (a ∷ alerts)

-- What one line leads to.
abbrev Leads : List NetworkFilter → Text → LineResult → Type 0
Leads fs line quiet = HasNoAlert fs line
Leads fs line (alert a) = IsAlertOf fs line a
Leads fs line out_of_range = IsOutOfRange line

handle_line-Leads : (fs : List NetworkFilter) (line : Text) → Leads fs line (handle_line fs line)
unfolding handle_line of_option
handle_line-Leads fs line = elim (Option-cases (parse_line line)) [
  | inl e ↦ rw (handle_line, e) (inl e)
  | inr (raw, e) ↦ elim (Option-cases (stoi raw)) [
    | inl bad ↦ rw (handle_line, e, bad) (raw, e, bad)
    | inr (p, e') ↦ elim (match_filters-first fs line p) [
      | inl (without, n) ↦ rw (handle_line, e, e', without) (inr (p, (raw, e, e'), n))
      | inr (before, rule, after, splits, n, m, found) ↦
          rw (handle_line, e, e', found) (before, after, splits, (raw, e, e'), n, m)
    ]
  ]
]

-- The alerts and the flag of a run over these lines.
abbrev pub IsRunOver : List NetworkFilter → List Text → List Alert × Bool → Type 0
IsRunOver fs output r =
    ((r.1 ≡ false) × Reports fs output r.0)
    ⊎ ((before : List Text) × (line : Text) × (after : List Text) × (r.1 ≡ true)
        × (output ≡ before ++ line ∷ after)
        × IsOutOfRange line
        × Reports fs before r.0)

over-passed :
    (fs : List NetworkFilter) (line : Text) (rest : List Text) (r : List Alert × Bool)
    → HasNoAlert fs line
    → IsRunOver fs rest r
    → IsRunOver fs (line ∷ rest) r
over-passed fs line rest r h (inl (e, reports)) = inl (e, passed_over h reports)
over-passed fs line rest r h (inr (before, bad, after, e, splits, out, reports)) =
    inr (line ∷ before, bad, after, e, ap (◌∷◌ line) splits, out, passed_over h reports)

over-reported :
    (fs : List NetworkFilter) (line : Text) (a : Alert) (rest : List Text) (r : List Alert × Bool)
    → IsAlertOf fs line a
    → IsRunOver fs rest r
    → IsRunOver fs (line ∷ rest) (a ∷ r.0, r.1)
over-reported fs line a rest r h (inl (e, reports)) = inl (e, reported h reports)
over-reported fs line a rest r h (inr (before, bad, after, e, splits, out, reports)) =
    inr (line ∷ before, bad, after, e, ap (◌∷◌ line) splits, out, reported h reports)

run_lines-IsRunOver :
    (fs : List NetworkFilter) (output : List Text) → IsRunOver fs output (run_lines fs output)
unfolding run_lines
run_lines-IsRunOver fs [] = inl (refl, done)
run_lines-IsRunOver fs (line ∷ rest) =
    by_line (handle_line fs line) refl (handle_line-Leads fs line) (run_lines-IsRunOver fs rest)
  where
    by_line :
        (r : LineResult)
        → handle_line fs line ≡ r
        → Leads fs line r
        → IsRunOver fs rest (run_lines fs rest)
        → IsRunOver fs (line ∷ rest) (run_lines fs (line ∷ rest))
    by_line quiet e h later =
        rw (run_lines, e) (over-passed fs line rest (run_lines fs rest) h later)
    by_line (alert a) e h later =
        rw (run_lines, e) (over-reported fs line a rest (run_lines fs rest) h later)
    by_line out_of_range e h later = rw (run_lines, e) (inr ([], line, rest, refl, refl, h, done))

-- A run on the lines of the pipe gives, in their order, one alert for each line of a packet that some
-- filter matches, with the packet and the first such filter, and nothing for any other line; it ends
-- without an exception, or at the first line with a port that is no `int`, with the alerts of the lines
-- before it.
pub run-IsRunOver :
    (config : Config) (pipe : Text → Option (List Text)) (output : List Text)
    → pipe (tcpdump_cmd config.network_interface) ≡ some output
    → IsRunOver config.network_filters output (run config pipe)
unfolding run
run-IsRunOver config pipe output e = rw (run, e) (run_lines-IsRunOver config.network_filters output)
