-- ===== src/Config/Settings.antt =====
-- `Config::loadFromFile` as a whole: each field against the document, and the errors.
use idsproject.Base.{
  Text, ℤ, true, Option, none, some, List, ◌≡◌, ◌∙◌, ap, arith, ok, pure, bind-eq-ok, Option-cases,
  inl, inr, ◌⊎◌, ◌≢◌,
}
use idsproject.Host.{Nlohmann}
use idsproject.Config.{
  Config, NetworkFilter, load_general, load_monitoring, load_network, load_document, load_from_file,
}
use idsproject.Config.Loading.{
  chosen, over, value, setting, section, InSection, filters_of, assign_if-ok, seq-within,
  load_monitoring-ok, load_network-ok,
}

over_interval :
    (o : Option ℤ) (c : Config)
    → over o (λ v c. record c { update_interval = v }) c
      ≡ record c { update_interval = chosen o c.update_interval }
over_interval o c = ground arith

module _ {J : Type 0} (json : Nlohmann J) where
  abbrev pub filter_setting : Option J → List NetworkFilter → List NetworkFilter
  filter_setting none old = old
  filter_setting (some n) old = filters_of json n old

  -- What each field is after a document with these sections was loaded over `c`.
  abbrev pub settings : Option J → Option J → Option J → Config → Config
  settings general monitoring network c = record {
    update_interval =
        chosen (setting json general "Update_Interval" json.get_int) c.update_interval;
    monitoring_interval = c.monitoring_interval;
    process_interval =
        chosen (setting json monitoring "Process_Interval" json.get_int) c.process_interval;
    monitor_files = chosen (setting json monitoring "Monitor_Files" json.get_bool) c.monitor_files;
    monitor_processes =
        chosen (setting json monitoring "Monitor_Processes" json.get_bool) c.monitor_processes;
    files2watch = chosen (setting json monitoring "Files2Watch" json.get_strings) c.files2watch;
    hash_path = chosen (setting json monitoring "Hash_Path" json.get_string) c.hash_path;
    guest_file_path =
        chosen (setting json monitoring "Guest_File_Path" json.get_string) c.guest_file_path;
    network_interface =
        chosen (setting json network "Interface" json.get_string) c.network_interface;
    network_filters = filter_setting network c.network_filters;
  }

  general-settings :
      (o : Option J) (c d : Config)
      → InSection json o (load_general json) c d
      → d ≡ settings o none none c
  unfolding load_general
  general-settings none c d h = h
  general-settings (some g) c d h =
      let e = assign_if-ok json g "Update_Interval" json.get_int _ c d h in
      e ∙ over_interval (value json g "Update_Interval" json.get_int) c

  monitoring-settings :
      (o : Option J) (c d : Config)
      → InSection json o (load_monitoring json) c d
      → d ≡ settings none o none c
  monitoring-settings none c d h = h
  monitoring-settings (some m) c d h = load_monitoring-ok json m c d h

  network-settings :
      (o : Option J) (c d : Config)
      → InSection json o (load_network json) c d
      → d ≡ settings none none o c
  network-settings none c d h = h
  network-settings (some n) c d h = load_network-ok json n c d h

  load_document-settings :
      (j : J) (c d : Config)
      → load_document json j c ≡ (ok tt, d)
      → d
        ≡ settings
            (section json j "General")
            (section json j "Monitoring")
            (section json j "Network")
            c
  unfolding load_document
  load_document-settings j c d e =
      let general = section json j "General" in
      let monitoring = section json j "Monitoring" in
      let network = section json j "Network" in
      let (c1, a, e1) = seq-within json j "General" (load_general json) _ c d tt e in
      let (c2, b, e2) = seq-within json j "Monitoring" (load_monitoring json) _ c1 d tt e1 in
      let (c3, n, e3) = seq-within json j "Network" (load_network json) (pure tt) c2 d tt (rw e2) in
      let same : d ≡ c3 = cc e3 in
      same
      ∙ network-settings network c2 c3 n
      ∙ ap (settings none none network) (
          monitoring-settings monitoring c1 c2 b
          ∙ ap (settings none monitoring none) (general-settings general c c1 a))

  -- A load that returns true read a document, and every field is the one that the document sets in
  -- its section, converted, or else the one of before; the filters are those of the document's array,
  -- not appended to the old ones, and the monitoring interval is never set.
  pub load_from_file-settings :
      (contents : Text) (c d : Config)
      → load_from_file json (some contents) c ≡ (ok true, d)
      → (j : J) × (json.read_stream contents ≡ some j)
        × (d
            ≡ settings
                (section json j "General")
                (section json j "Monitoring")
                (section json j "Network")
                c)
  unfolding load_from_file
  load_from_file-settings contents c d e = elim (Option-cases (json.read_stream contents)) [
    | inl bad ↦ absurd (ground arith)
    | inr (j, parsed) ↦
        let (u, a, b) =
          bind-eq-ok (load_document json j) (λ _. pure true) c {b = true} {s' = d} (ground arith) in
        let same : (load_document json j c).1 ≡ d = cc b in
        let whole : load_document json j c ≡ (ok tt, d) =
          ap (λ r. (r, (load_document json j c).1)) a ∙ ap (λ t. (ok tt, t)) same in
        (j, parsed, load_document-settings j c d whole)
  ]

  -- A file that does not open leaves the configuration alone and the answer is false; a text that is
  -- no JSON leaves it alone by an exception.
  pub load_from_file-unreadable :
      (contents : Option Text) (c : Config)
      → (contents ≡ none) ⊎ ((t : Text) × (contents ≡ some t) × (json.read_stream t ≡ none))
      → ((load_from_file json contents c).1 ≡ c) × ((load_from_file json contents c).0 ≢ ok true)
  unfolding load_from_file
  load_from_file-unreadable contents c (inl e) = ground arith
  load_from_file-unreadable contents c (inr (t, e, bad)) = ground arith
