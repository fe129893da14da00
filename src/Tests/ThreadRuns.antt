-- ===== src/Tests/ThreadRuns.antt =====
-- The threads of one machine on small hosts.
use idsproject.Base.{codes, text_eq, lookup, true, false, none, some, ◌≡◌, refl, ok, inl, []}
use idsproject.Config.{Config, default_config}
use idsproject.FileMonitor.{FileMonitor, hash_file}
use idsproject.FileMonitor.Observe.{Seen}
use idsproject.FileMonitor.Startup.{Looked, readable, paths_of}
use idsproject.FileMonitor.Loading.{print}
use idsproject.MonitorThread.{file_round}
use idsproject.MonitorThread.Files.{file_round-stores}
use idsproject.MonitorThread.Life.{
  file, process, network, Life, ended, returned, started, enters, leaves, breaks_off, closes, wakes,
  joins_file, joins_process, joins_network, moves, stop, Reach, start, later, returned-ended,
}
use idsproject.Tests.Guests.{toy_virt, toy_json, toy_evp, toy_disk, toy_disk-IsDisk, toy_LeavesFile}
use idsproject.Tests.FileRuns.{files, fresh, observed}

abbrev config : Config
config = record default_config { monitor_files = true; monitor_processes = true }

file_round-stores_example :
    (m' : FileMonitor) × (stored : Seen) × ((file_round toy_virt toy_json toy_evp toy_disk config
        fresh none).0
      ≡ ok (true, m'))
    × (paths_of stored ≡ files)
    × (toy_disk.read
          (hash_file fresh)
          (file_round toy_virt toy_json toy_evp toy_disk config fresh none).1
        ≡ some (print (readable stored)))
    × Looked toy_virt toy_json toy_evp toy_disk tt (hash_file fresh) files (some []) stored
unfolding text_eq lookup
file_round-stores_example =
    file_round-stores toy_virt toy_json toy_evp toy_disk config fresh none toy_disk-IsDisk
      (toy_LeavesFile (hash_file fresh)) refl refl observed ((refl, tt), (tt, tt))
      (codes "/etc/passwd", codes "4b", inl (refl, refl), λ e. cc) refl refl

-- The run in which the threads end one behind the other, once the flag is down.
abbrev stopped : Life
stopped = record started { should_continue = false }

abbrev done : Life
done = record {
  should_continue = false;
  file_place = ended;
  process_place = ended;
  network_place = ended;
  main = returned;
}

abbrev all_ended : Reach done
all_ended =
    later
      (later
        (later
          (later
            (later
              (later
                (later
                  (later (later (later start (moves (enters network refl refl))) stop)
                    (moves (breaks_off refl)))
                  (moves (closes refl)))
                (moves (leaves file refl refl)))
              (moves (wakes refl refl)))
            (moves (leaves process refl refl)))
          (moves (joins_file refl refl)))
        (moves (joins_process refl refl)))
      (moves (joins_network refl refl))

returned-ended_example :
    (done.should_continue ≡ false)
    × (done.file_place ≡ ended)
    × (done.process_place ≡ ended)
    × (done.network_place ≡ ended)
returned-ended_example = returned-ended all_ended refl
