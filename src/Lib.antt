-- ===== src/Lib.antt =====
-- IDSProject: an intrusion detection system for the virtual machines of a libvirt host. A service
-- keeps one set of monitors per running machine; the monitors ask the guest through the QEMU agent, read
-- files and digests, list processes and watch the bridge's traffic, and raise alerts.
--
-- Parts and files:
-- - Base (and Base/): the words of the other modules. A text is the list of its bytes. `Run S A` is a
--   call on an environment `S`: it returns a value (`ok`), takes an error exit (`failed`), ends in an
--   exception (`thrown`), or has used up its fuel (`spent`), and it leaves an environment behind. An
--   `int` is a ℤ and a `uint16_t` is a ℕ taken modulo 2^16.
-- - Host: the interfaces of libvirt, json-c, nlohmann::json, OpenSSL, SQLite, libcurl, tinyxml2, Qt and the
--   host's files. No library is implemented here: the functions below take these records as parameters, and a theorem
--   that relies on a library's behaviour names it as a hypothesis.
-- - FileMonitor: src/monitor/fileMonitor/. `FileMonitor` is the object with its map of hashes;
--   Guest is readFileFromVM, Hex the digest's text, FileMonitor the other functions (loadStoredHashes,
--   calculateFileHash, storeFileHash, initializeVMHashes, hasFileChanged, isHashStored,
--   requiresInitialization). The loops over the watched files recurse on the list, so there is no fuel.
--   Views has an ideal monitor, which knows the last state that it was shown of each file.
-- - Config: src/core/config.h and config.cpp: the record, its defaults, the constructor, the setters, and
--   loadFromFile, whose assignments stay behind when a later one throws. A getter is the record's field.
-- - Network: src/monitor/networkMonitor/: NetworkMonitor::run, the regular expression in Network.Pattern
--   by an explicit list of matches in the order of backtracking, and the filters. A run is over the
--   lines that the pipe delivers while the monitor should continue.
-- - Syscalls: monitorSyscalls of the same class, and decodeBase64 of src/core/utils.cpp. The loop of
--   polls takes fuel.
-- - VmUtils: src/initializeTest/vm_utils.cpp: the bridge of the host and the devices of a new machine's
--   XML. The loop that waits for the power-off has no bound in the code and takes fuel here, one more than
--   the looks at which the machine is still on.
-- - VmManager: src/initializeTest/initialize.*: the connection and the names of the machines that run.
-- - HashDb: src/backend/SqliteHashDB.*: the table of checked hashes; in Rows the table is a map, as far as
--   SQLite's documentation goes.
-- - Signatures: src/detection/signatures.cpp: the key and the request to MalwareBazaar, which Requests
--   counts.
-- - ProcessMonitor: src/monitor/processMonitor/: dumpGuestFile, whose loop over blocks takes fuel since
--   the guest decides on their number, and checkGuestFileWithBazaarAPI, with the cache in `judge`. Verdicts
--   and Memo are about many checks in a row, Dump, LocalCopy and Verdict about a file on its way from the
--   guest to the verdict.
-- - Processes: the list of a guest's processes in processMonitor.cpp (fetchProcessList,
--   waitForExecutionCompletion, parseProcessList, listGuestProcesses). The wait for a command's exit has
--   no bound in the code and takes fuel: one more than the polls that say it still runs is enough.
-- - Monitor: src/monitor/monitor.*: the test that a machine's agent answers, by its kernel's name.
-- - MonitorThread: src/monitor/MonitorThread.*: what is done before the threads of a machine start
--   (`prepare`), a round of the file thread and of the process thread, with the number of rounds as the
--   fuel (History has the whole life of a file thread), the network thread, and in Life the flag, the
--   three threads and the joins as a step relation over all their interleavings. There a round is one step
--   at its begin and one at its end; a wait that never comes back is a step that is never made.
-- - Backend: src/backend/ids_backend_service.*: the configuration at the start, the rounds that start one
--   thread per machine, in Backend.Machine what such a thread does, and in Backend.Lifetime the threads
--   from `start` to the destructor as a step relation over all their interleavings.
-- - MonitorUi: src/monitorui.*: the environment file and the key, the configuration, and the machines that
--   the window watches; of the widgets their texts.
-- - AlertServer: src/response/AlertServer.*: the port that alerts arrive at; Qt's sockets are a parameter.
-- - IntrusionDetector: src/detection/intrusionDetector.cpp: the comparison of two lists of processes.
--
-- The parts meet where the code calls across: MonitorThread calls Monitor, VmUtils, FileMonitor, Processes
-- and ProcessMonitor, which calls HashDb and Signatures; Backend calls Config, Monitor and FileMonitor;
-- MonitorUi shares its folder of hashes with Backend. The two databases of text keys, the hashes of files
-- and the environment, are association lists, since the code's maps are only read by key.
--
-- - Tests: small hosts and documents that instantiate the interfaces, and runs on them.
--
-- Not modelled: the widgets of Qt, the destructor of the window, src/main.cpp and src/mainwindow.cpp; the
-- generated files and the built copy of libvmi under cmake-build-debug, which are not the program's own;
-- and the empty files src/core/logger.*, src/response/mitigation.*, src/monitor/syscalls.* and vmi.*. The
-- threads of one machine share no state in the model but the flag: what two of them do to the same files
-- is not interleaved.
-- A call of the agent that blocks for ever, as the ones with a time limit of -2 may, is a call that
-- does not return: what is said of a function's return is said where its calls of the environment return.
-- An exception that nothing catches ends the program, and nothing is said of the state behind it.
pub mod Base
pub mod Host
pub mod FileMonitor
pub mod Config
pub mod Network
pub mod VmUtils
pub mod HashDb
pub mod Signatures
pub mod ProcessMonitor
pub mod Backend
pub mod Monitor
pub mod Processes
pub mod VmManager
pub mod MonitorThread
pub mod MonitorUi
pub mod Syscalls
pub mod IntrusionDetector
pub mod AlertServer
pub mod Tests
