-- ===== src/Tests/ConfigRuns.antt =====
-- Loading a small configuration.
use idsproject.Base.{pos, codes, text_eq, to_u16, true, some, [], ◌∷◌, ◌≡◌, refl, ok}
use idsproject.Config.{
  Config, default_config, assign_if, within, load_range, load_filter, load_filters, load_general,
  load_monitoring, load_network, load_document, load_from_file,
}
use idsproject.Config.Loading.{section}
use idsproject.Config.Settings.{settings, load_from_file-settings}
use idsproject.Tests.Documents.{Doc, num, text, arr, obj, nil, cons, end, field, toy_nlohmann}
use idsproject.Host.{Nlohmann}

-- `{"General": {"Update_Interval": 60}, "Network": {"Filters": [{"protocol": "udp",
-- "port_range": [1000, 70000]}]}}`
abbrev document : Doc
document = obj (
    field (codes "General") (obj (field (codes "Update_Interval") (num (pos 60)) end)) (
      field (codes "Network")
        (obj (
          field (codes "Filters")
            (arr (
              cons
                (obj (
                  field (codes "protocol") (text (codes "udp")) (
                    field (codes "port_range")
                      (arr (cons (num (pos 1000)) (cons (num (pos 70000)) nil))) end)))
                nil))
            end))
        end))

abbrev json : Nlohmann Doc
json = toy_nlohmann (codes "{}") document

abbrev loaded : Config
loaded = record default_config {
  update_interval = pos 60;
  network_filters =
      record {
        protocol = codes "udp";
        ports = [];
        range_first = 1000;
        range_second = 4464;
        ip = [];
      }
      ∷ [];
}

-- 70000 does not fit in 16 bits.
load_small : load_from_file json (some (codes "{}")) default_config ≡ (ok true, loaded)
unfolding load_from_file load_document within load_general load_monitoring load_network load_filters
    load_filter load_range assign_if text_eq to_u16
load_small = refl

load_from_file-settings_example :
    (j : Doc) × (json.read_stream (codes "{}") ≡ some j)
    × (loaded
        ≡ settings json
            (section json j "General")
            (section json j "Monitoring")
            (section json j "Network")
            default_config)
load_from_file-settings_example =
    load_from_file-settings json (codes "{}") default_config loaded load_small
