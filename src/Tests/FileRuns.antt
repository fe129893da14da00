-- ===== src/Tests/FileRuns.antt =====
-- The file monitor on the small host.
use idsproject.Base.{
  Text, codes, has_sub, find, lookup, insert, int_text, lines, true, false, none, some, List, [],
  ◌∷◌, ◌≡◌, refl, ok,
}
use idsproject.FileMonitor.{
  FileMonitor, Hashes, new_monitor, hash_file, hash_content, file_hash, has_file_changed,
  initialize_vm_hashes, requires_initialization, load_lines, check_files, note_hash, is_change,
}
use idsproject.FileMonitor.Guest.{ask, answer, open_cmd, read_cmd, read_file_from_vm}
use idsproject.FileMonitor.Hex.{hex_text, hex_digit}
use idsproject.FileMonitor.Observe.{Seen, observe}
use idsproject.FileMonitor.Alarms.{has_file_changed-Unreadable}
use idsproject.FileMonitor.Loading.{print, assign, load_lines-print}
use idsproject.FileMonitor.Startup.{Looked, readable, paths_of}
use idsproject.FileMonitor.Baseline.{startup_forgets}
use idsproject.Tests.Guests.{toy_virt, toy_json, toy_evp, toy_disk, toy_disk-IsDisk, toy_LeavesFile}

abbrev pub files : List Text
files = codes "/etc/passwd" ∷ codes "/missing" ∷ []

abbrev pub seen : Seen
seen = (codes "/etc/passwd", some (codes "4b")) ∷ (codes "/missing", none) ∷ []

abbrev pub fresh : FileMonitor
fresh = new_monitor files (codes "h") (codes "vm")

pub observed : (observe toy_virt toy_json toy_evp tt files none).0 ≡ ok seen
unfolding observe file_hash hash_content read_file_from_vm ask answer open_cmd has_sub find hex_text
    hex_digit read_cmd int_text
observed = refl

abbrev settled : FileMonitor
settled = record fresh { file_hashes = (codes "/etc/passwd", codes "4b") ∷ [] }

first_round : (has_file_changed toy_virt toy_json toy_evp fresh none).0 ≡ ok (true, settled)
unfolding has_file_changed check_files note_hash is_change lookup insert file_hash hash_content
    read_file_from_vm ask answer open_cmd has_sub find hex_text hex_digit read_cmd int_text
first_round = refl

abbrev lost : FileMonitor
lost = record settled { files2watch = codes "/missing" ∷ [] }

all_lost :
    (observe toy_virt toy_json toy_evp tt (codes "/missing" ∷ []) none).0
    ≡ ok ((codes "/missing", none) ∷ [])
unfolding observe file_hash hash_content read_file_from_vm ask answer open_cmd has_sub find
all_lost = refl

has_file_changed-Unreadable_example :
    (has_file_changed toy_virt toy_json toy_evp lost none).0 ≡ ok (false, lost)
has_file_changed-Unreadable_example =
    has_file_changed-Unreadable toy_virt toy_json toy_evp lost none refl all_lost (refl, tt)

abbrev entries : Hashes
entries = (codes "/etc/passwd", codes "4b") ∷ (codes "/etc/hosts", codes "00ff") ∷ []

load_lines-print_example : load_lines (lines (print entries)) [] ≡ assign entries []
unfolding has_sub
load_lines-print_example =
    load_lines-print entries [] ((refl, refl, refl), ((refl, refl, refl), tt))

startup_forgets_example :
    (requires_initialization fresh ≡ true)
    × ((seen' : Seen) × (paths_of seen' ≡ files)
        × ((initialize_vm_hashes toy_virt toy_json toy_evp toy_disk fresh
              (some (codes "/etc/passwd: 00\n"))).0
            ≡ ok (record fresh { file_hashes = assign (readable seen') [] }))
        × Looked toy_virt toy_json toy_evp toy_disk tt (hash_file fresh) files (some []) seen')
unfolding has_sub
startup_forgets_example =
    startup_forgets toy_virt toy_json toy_evp toy_disk (codes "/etc/passwd") (codes "/missing" ∷ [])
      (codes "h") (codes "vm") (some (codes "/etc/passwd: 00\n")) toy_disk-IsDisk
      (toy_LeavesFile (hash_file fresh)) refl refl ((refl, refl), ((refl, refl), tt))
