-- ===== src/Tests/ChangeRuns.antt =====
-- The first round on a guest whose files have changed since the start.
use idsproject.Base.{
  ℤ, not, Text, codes, text_eq, has_sub, find, int_text, Bool, true, false, Option, none, some,
  List, [], ◌∷◌, ◌≡◌, ◌↔◌, refl, ok, sym, ap, ◌∙◌, lines, insert, drop,
}
use idsproject.Config.{Config, default_config}
use idsproject.MonitorThread.{file_thread}
use idsproject.MonitorThread.History.{looks, session_refines}
use idsproject.FileMonitor.Views.{view, empty_view, noted, Watches}
use idsproject.Host.{Libvirt, Evp, Disk}
use idsproject.FileMonitor.{
  FileMonitor, new_monitor, hash_file, hash_content, file_hash, initialize_vm_hashes,
  has_file_changed, store_file_hash, store_files, hash_line, load_stored_hashes, load_lines,
  load_line,
}
use idsproject.FileMonitor.Guest.{ask, answer, open_cmd, read_cmd, read_file_from_vm}
use idsproject.FileMonitor.Hex.{hex_text, hex_digit}
use idsproject.FileMonitor.HostFile.{IsDisk, LeavesFile}
use idsproject.FileMonitor.Steady.{IsSteady, shown}
use idsproject.FileMonitor.Detection.{ChangedSince, first_round-exact}
use idsproject.Tests.Guests.{toy_json, append_text}

-- The hash file, which of two contents the files have, and what the digest has been given.
abbrev World : Type 0
World = Option Text × (Bool × Text)

abbrev contents : Bool → Text
contents false = codes "QQ=="
contents true = codes "Qg=="

abbrev virt : Libvirt World Unit
virt = record {
  lookup_by_name = λ n s. (some tt, s);
  domain_free = λ d s. s;
  agent_command = λ d cmd t s. (some (contents s.1.0), s);
}

abbrev evp : Evp World Unit
evp = record {
  ctx_new = λ s. (some tt, s);
  ctx_free = λ c s. s;
  digest_init = λ c s. (true, s);
  digest_update = λ c t s. (true, (s.0, (s.1.0, t)));
  digest_final = λ c s. (some s.1.1, s);
}

abbrev disk : Disk World
disk = record {
  read = λ f s. s.0;
  open_write = λ f s. (true, (some [], s.1));
  write = λ f t s. (append_text t s.0, s.1);
}

disk-IsDisk : IsDisk disk
disk-IsDisk = record {
  read-open_write = λ f s h. refl;
  read-write = λ f t u s h. rw (h, append_text);
}

disk-LeavesFile : (f : Text) → LeavesFile disk virt evp f
disk-LeavesFile f = record {
  lookup_by_name = λ n. record { at = λ s. refl };
  domain_free = λ d. record { at = λ s. refl };
  agent_command = λ d c. record { at = λ s. refl };
  ctx_new = record { at = λ s. refl };
  ctx_free = λ c. record { at = λ s. refl };
  digest_init = λ c. record { at = λ s. refl };
  digest_update = λ c t. record { at = λ s. refl };
  digest_final = λ c. record { at = λ s. refl };
}

-- The hash depends on the contents alone, and looking leaves these as they are.
abbrev digest : Bool → Text
digest false = codes "51513d3d"
digest true = codes "51673d3d"

file_hash-digest :
    (path : Text) (s : World) → (file_hash virt toy_json evp tt path s).0 ≡ ok (digest s.1.0)
unfolding file_hash hash_content read_file_from_vm ask answer open_cmd has_sub find hex_text
    hex_digit read_cmd int_text
file_hash-digest path (u, (true, k)) = refl
file_hash-digest path (u, (false, k)) = refl

file_hash-contents :
    (path : Text) (s : World) → (file_hash virt toy_json evp tt path s).1.1.0 ≡ s.1.0
unfolding file_hash hash_content read_file_from_vm ask answer open_cmd has_sub find hex_text
    hex_digit read_cmd int_text
file_hash-contents path (u, (true, k)) = refl
file_hash-contents path (u, (false, k)) = refl

steady : IsSteady virt toy_json evp disk tt
steady = record {
  open_write =
      λ f path s. file_hash-digest path (disk.open_write f s).1 ∙ sym (file_hash-digest path s);
  write =
      λ f text path s. file_hash-digest path (disk.write f text s) ∙ sym (file_hash-digest path s);
  look = λ other path s.
      file_hash-digest path (file_hash virt toy_json evp tt other s).1
      ∙ ap (λ b. ok (digest b)) (file_hash-contents other s)
      ∙ sym (file_hash-digest path s);
}

abbrev files : List Text
files = codes "/etc/passwd" ∷ codes "/etc/hosts" ∷ []

abbrev watching : Config
watching = record default_config { monitor_files = true; files2watch = files }

abbrev before : World
before = (none, (false, []))

abbrev after : World
after = (none, (true, []))

abbrev settled : FileMonitor
settled = record (new_monitor files (codes "h") (codes "vm")) {
  file_hashes =
      (codes "/etc/passwd", codes "51513d3d") ∷ (codes "/etc/hosts", codes "51513d3d") ∷ [];
}

session_begun :
    (initialize_vm_hashes virt toy_json evp disk
      (new_monitor files (codes "h") (codes "vm"))
      before).0
    ≡ ok settled
unfolding initialize_vm_hashes store_file_hash store_files file_hash hash_content read_file_from_vm
    ask answer open_cmd has_sub find hex_text hex_digit read_cmd int_text hash_line
    load_stored_hashes load_lines load_line lines insert drop text_eq
session_begun = refl

first_round-exact_example :
    (changed : Bool) × (m' : FileMonitor) × ((has_file_changed virt toy_json evp settled after).0
      ≡ ok (changed, m'))
    × ((changed ≡ true)
        ↔ ChangedSince
            (shown virt toy_json evp disk tt files before)
            (shown virt toy_json evp disk tt files after))
unfolding text_eq has_sub
first_round-exact_example =
    first_round-exact virt toy_json evp disk files (codes "h") (codes "vm") before after disk-IsDisk
      (disk-LeavesFile (hash_file (new_monitor files (codes "h") (codes "vm")))) steady steady
      ((refl, tt), (tt, tt)) ((refl, refl), ((refl, refl), tt)) refl refl session_begun refl

-- While the thread sleeps the files change, and change back.
abbrev sleep : ℤ → World → World
sleep n (u, (b, k)) = (u, (not b, k))

session_refines_example :
    (m : FileMonitor) × (s2 : World) × (alarms : List Bool) × (m' : FileMonitor)
    × (initialize_vm_hashes virt toy_json evp disk
          (new_monitor files (codes "h") (codes "vm"))
          before
        ≡ (ok m, s2))
    × ((file_thread virt toy_json evp disk sleep 3 watching m s2).0 ≡ ok (alarms, m'))
    × Watches
        (noted (shown virt toy_json evp disk tt files before) empty_view)
        (looks virt toy_json evp disk sleep 3 watching m s2)
        alarms
        (view m'.file_hashes)
unfolding text_eq has_sub
session_refines_example =
    session_refines virt toy_json evp disk sleep 3 watching files (codes "h") (codes "vm") before
      disk-IsDisk (disk-LeavesFile (hash_file (new_monitor files (codes "h") (codes "vm"))))
      (λ d. steady) ((refl, tt), (tt, tt)) ((refl, refl), ((refl, refl), tt)) refl refl refl
