-- ===== src/Tests/NetworkRuns.antt =====
-- Lines of `tcpdump` against small filters.
use idsproject.Base.{
  Text, pos, codes, ◌++◌, text_eq, starts_with, has_sub, find, true, some, [], ◌∷◌, ◌≡◌, refl, inl,
  ◌↔◌,
}
use idsproject.Config.{Config, NetworkFilter, default_config, default_filter}
use idsproject.Network.{
  protocol_passes, ports_pass, range_passes, ip_passes, passes, match_filters, handle_line, run,
  alert,
}
use idsproject.Network.Pattern.{RawPacket, Packet, match_here, parse_line, stoi}
use idsproject.Network.Rules.{Matches, passes_iff}
use idsproject.Network.Runs.{IsRunOver, run-IsRunOver}
use idsproject.Network.Limits.{mask-ignored, run-silent}
use idsproject.Network.Parsing.{Reads, parse_line_sound}

abbrev line : Text
line = codes "12:00:01.5 IP 10.0.0.5.51234 > 10.0.0.9.443: tcp 0"

abbrev raw : RawPacket
raw = record {
  src_ip = codes "10.0.0.5";
  src_port = codes "51234";
  dst_ip = codes "10.0.0.9";
  dst_port = codes "443";
}

abbrev packet : Packet
packet = record {
  src_ip = codes "10.0.0.5";
  src_port = 51234;
  dst_ip = codes "10.0.0.9";
  dst_port = 443;
}

abbrev https : NetworkFilter
https = record default_filter { ports = pos 80 ∷ pos 443 ∷ []; ip = codes "10.0.0.0/8" }

abbrev web : NetworkFilter
web = record default_filter { ports = pos 80 ∷ pos 443 ∷ []; ip = codes "10.0.0.9" }

sample_packet : parse_line line ≡ some raw
unfolding parse_line match_here
sample_packet = refl

sample_numbers : stoi raw ≡ some packet
unfolding stoi
sample_numbers = refl

-- 10.0.0.5 lies in 10.0.0.0/8, and yet only the second filter matches.
sample_alert : handle_line (https ∷ web ∷ []) line ≡ alert (record { rule = web; packet = packet })
unfolding handle_line parse_line match_here stoi match_filters passes protocol_passes ports_pass
    range_passes ip_passes find starts_with text_eq has_sub
sample_alert = refl

passes_iff_example : (passes web line packet ≡ true) ↔ Matches web line packet
passes_iff_example = passes_iff web line packet

parse_line_sound_example :
    (before : Text) × (rest : Text) × (line ≡ before ++ rest) × Reads raw rest
parse_line_sound_example = parse_line_sound line sample_packet

mask-ignored_example :
    passes (record web { ip = codes "10.0.0.0/8" }) line packet
    ≡ passes (record web { ip = codes "10.0.0.0/32" }) line packet
unfolding has_sub
mask-ignored_example = mask-ignored web (codes "10.0.0.0") (codes "8") (codes "32") line packet refl

abbrev tcp_only : Config
tcp_only = record default_config { network_filters = record web { protocol = codes "tcp" } ∷ [] }

run-silent_example : (run tcp_only (λ c. some (line ∷ []))).0 ≡ []
unfolding has_sub
run-silent_example =
    run-silent tcp_only (λ c. some (line ∷ [])) (line ∷ []) refl (inl refl, tt) ((refl, refl), tt)

run-IsRunOver_example :
    IsRunOver tcp_only.network_filters
      (line ∷ line ∷ [])
      (run tcp_only (λ c. some (line ∷ line ∷ [])))
run-IsRunOver_example =
    run-IsRunOver tcp_only (λ c. some (line ∷ line ∷ [])) (line ∷ line ∷ []) refl
