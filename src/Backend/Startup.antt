-- ===== src/Backend/Startup.antt =====
-- The configuration with which the service starts.
use idsproject.Base.{
  Text, codes, Bool, true, false, not, some, ◌≡◌, refl, sym, ◌∙◌, ap, ok, effect, fail,
  if◌then◌else◌, bind-eq-ok,
}
use idsproject.Host.{Nlohmann}
use idsproject.Config.{Config, load_from_file, set_hash_path}
use idsproject.Config.Loading.{section}
use idsproject.Config.Settings.{settings, load_from_file-settings}
use idsproject.ProcessMonitor.{join}
use idsproject.MonitorThread.{parent_path}
use idsproject.Backend.{configure}

set_behind :
    (folder : Text) (loaded : Bool) (c : Config) {d : Config}
    → (if not loaded then fail else effect (set_hash_path folder)) c ≡ (ok tt, d)
    → (loaded ≡ true) × (set_hash_path folder c ≡ d)
set_behind folder true c e = (refl, ap (λ r. r.1) e)
set_behind folder false c e = absurd (cc)

module _ {J : Type 0} (json : Nlohmann J) where
  -- A service that starts has the settings of the document but for one: the folder of the hashes is
  -- `hashStore` beside the current folder, whatever the document says of it.
  pub configure-settings :
      (contents current_path : Text) (c d : Config)
      → configure json (some contents) current_path c ≡ (ok tt, d)
      → (j : J) × (json.read_stream contents ≡ some j)
        × (d
            ≡ record (settings json
                (section json j "General")
                (section json j "Monitoring")
                (section json j "Network")
                c) { hash_path = join (parent_path current_path) (codes "hashStore") })
  unfolding configure
  configure-settings contents current_path c d e =
      let c1 = (load_from_file json (some contents) c).1 in
      let (loaded, a, b) = bind-eq-ok (load_from_file json (some contents)) _ c e in
      let (accepted, same) =
        set_behind (join (parent_path current_path) (codes "hashStore")) loaded c1 b in
      let whole : load_from_file json (some contents) c ≡ (ok true, c1) =
        ap (λ r. (r, c1)) (a ∙ ap ok accepted) in
      let (j, parsed, set) = load_from_file-settings json contents c c1 whole in
      (
        j,
        parsed,
        sym same ∙ ap (set_hash_path (join (parent_path current_path) (codes "hashStore"))) set,
      )
