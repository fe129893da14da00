-- ===== src/Network/Limits.antt =====
-- Traffic that the filters of a configuration do not see, or see too much of.
use idsproject.Base.{
  Text, ◌≤◌, ◌++◌, codes, text_eq, has_sub, find-byte, true, false, Option, none, some, List, [],
  ◌∷◌, ◌≡◌, ◌⊎◌, inl, inr, refl, arith, All, Option-cases,
}
use idsproject.Config.{NetworkFilter, Config}
use idsproject.Network.{
  protocol_passes, ports_pass, range_passes, net_part, ip_passes, passes, match_filters,
  handle_line, run_lines, run, tcpdump_cmd,
}
use idsproject.Network.Pattern.{Packet, parse_line, stoi}

net_part-slash :
    (net mask : Text) → has_sub (codes "/") net ≡ false → net_part (net ++ b'/' ∷ mask) ≡ net
unfolding net_part
net_part-slash net mask h = rw (net_part, find-byte b'/' net mask h)

ip_passes-mask :
    (f : NetworkFilter) (net mask mask' src dst : Text)
    → has_sub (codes "/") net ≡ false
    → ip_passes (record f { ip = net ++ b'/' ∷ mask }) src dst
      ≡ ip_passes (record f { ip = net ++ b'/' ∷ mask' }) src dst
unfolding ip_passes
ip_passes-mask f [] mask mask' src dst h = rw (net_part-slash [] mask h, net_part-slash [] mask' h)
ip_passes-mask f (c ∷ net) mask mask' src dst h =
    rw (net_part-slash (c ∷ net) mask h, net_part-slash (c ∷ net) mask' h)

-- The mask of a filter's address makes no difference: with any two masks behind the slash, the same
-- packets pass.
pub mask-ignored :
    (f : NetworkFilter) (net mask mask' line : Text) (p : Packet)
    → has_sub (codes "/") net ≡ false
    → passes (record f { ip = net ++ b'/' ∷ mask }) line p
      ≡ passes (record f { ip = net ++ b'/' ∷ mask' }) line p
unfolding passes protocol_passes ports_pass range_passes
mask-ignored f net mask mask' line p h = rw (ip_passes-mask f net mask mask' p.src_ip p.dst_ip h)

-- A range of one port, or with its ends the wrong way round, is no condition at all: the filter
-- passes what it passes with no range.
pub empty_range-ignored :
    (f : NetworkFilter) (line : Text) (p : Packet)
    → f.range_second ≤ f.range_first
    → passes f line p ≡ passes (record f { range_first = 0; range_second = 0 }) line p
unfolding passes protocol_passes ports_pass range_passes ip_passes
empty_range-ignored f line p h = rw range_open
  where
    range_open : range_passes f p.dst_port ≡ true
    range_open = ground arith

-- The line has neither of the marks by which the code tells the protocols.
abbrev pub IsUnmarked : Text → Type 0
IsUnmarked line = (has_sub (codes "Flags [") line ≡ false) × (has_sub (codes ": UDP,") line ≡ false)

abbrev pub NamesProtocol : NetworkFilter → Type 0
NamesProtocol f = (f.protocol ≡ codes "tcp") ⊎ (f.protocol ≡ codes "udp")

tcp_eq_udp : text_eq (codes "udp") (codes "tcp") ≡ false
unfolding text_eq
tcp_eq_udp = refl

passes-IsUnmarked :
    (f : NetworkFilter) (line : Text) (p : Packet)
    → NamesProtocol f
    → IsUnmarked line
    → passes f line p ≡ false
unfolding passes protocol_passes text_eq
passes-IsUnmarked f line p (inl e) (t, u) = rw (e, t)
passes-IsUnmarked f line p (inr e) (t, u) = rw (e, u)

match_filters-IsUnmarked :
    (fs : List NetworkFilter) (line : Text) (p : Packet)
    → All NamesProtocol fs
    → IsUnmarked line
    → match_filters fs line p ≡ none
unfolding match_filters
match_filters-IsUnmarked [] line p a u = refl
match_filters-IsUnmarked (f ∷ fs) line p a u =
    rw (passes-IsUnmarked f line p a.0 u) (match_filters-IsUnmarked fs line p a.1 u)

run_lines-IsUnmarked :
    (fs : List NetworkFilter) (output : List Text)
    → All NamesProtocol fs
    → All IsUnmarked output
    → (run_lines fs output).0 ≡ []
unfolding run_lines handle_line
run_lines-IsUnmarked fs [] a u = refl
run_lines-IsUnmarked fs (line ∷ output) a u =
    let later = run_lines-IsUnmarked fs output a u.1 in
    elim (Option-cases (parse_line line)) [
      | inl e ↦ rw (run_lines, handle_line, e) later
      | inr (raw, e) ↦ elim (Option-cases (stoi raw)) [
        | inl e' ↦ rw (run_lines, handle_line, e, e')
        | inr (p, e') ↦
            rw (run_lines, handle_line, e, e', match_filters-IsUnmarked fs line p a u.0) later
      ]
    ]

-- Where every filter names TCP or UDP and the output has neither `Flags [` nor `: UDP,` in any line,
-- the run gives no alert.
pub run-silent :
    (config : Config) (pipe : Text → Option (List Text)) (output : List Text)
    → pipe (tcpdump_cmd config.network_interface) ≡ some output
    → All NamesProtocol config.network_filters
    → All IsUnmarked output
    → (run config pipe).0 ≡ []
unfolding run
run-silent config pipe output e a u =
    rw (run, e) (run_lines-IsUnmarked config.network_filters output a u)
