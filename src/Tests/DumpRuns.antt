-- ===== src/Tests/DumpRuns.antt =====
-- A file that only the guest has, from its two blocks to the verdict on it, on a small host.
use idsproject.Base.{
  Text, ℕ, zero, suc, ◌++◌, pos, codes, text_eq, text_eq_refl, lookup, insert, lookup-insert, Bool,
  true, false, Option, none, some, List, [], ◌∷◌, ◌≡◌, refl, ◌∙◌, ap, arith, ok, if◌then◌else◌,
  lines, trim_left, trim_right, starts_with, drop, decimal,
}
use idsproject.Host.{Libvirt, Nlohmann, JsonBuild, Crypto, Disk, Shell, Folders, Sqlite, Curl}
use idsproject.FileMonitor.HostFile.{IsDisk}
use idsproject.HashDb.{close_hash_db, open_hash_db, initialize, get_record, set_record}
use idsproject.Signatures.{env_path, find_key, trim, query_malware_bazaar}
use idsproject.ProcessMonitor.{
  agent, with_domain, free_behind, open_guest_file, read_answer, ask_chunk, read_chunks, save_dump,
  dump_guest_file, filename, judge, ask_api, compute_sha256, check_guest_file, join,
}
use idsproject.ProcessMonitor.Chunks.{joined, Delivers, goes_on, breaks_off}
use idsproject.ProcessMonitor.Dump.{IsDump, dump_guest_file-writes}
use idsproject.ProcessMonitor.LocalCopy.{LeavesDumps, IsOutside}
use idsproject.ProcessMonitor.Verdict.{cache_of, check_guest_file-judge}
use idsproject.Tests.Documents.{Doc, num, text, obj, end, field, toy_nlohmann}

-- The files by name, and the answers that the agent still gives.
record Machine : Type 0 where
  files : List (Text × Text)
  answers : ℕ

abbrev get_answer : ℕ → Option Text
get_answer zero = none
get_answer (suc zero) = some (codes "block")
get_answer (suc (suc zero)) = some (codes "block")
get_answer (suc (suc (suc n))) = some (codes "opened")

abbrev less : ℕ → ℕ
less zero = zero
less (suc n) = n

abbrev virt : Libvirt Machine Unit
virt = record {
  lookup_by_name = λ n s. (some tt, s);
  domain_free = λ d s. s;
  agent_command = λ d c t s. (get_answer s.answers, record s { answers = less s.answers });
}

abbrev block : Doc
block = obj (field (codes "return") (obj (field (codes "buf-b64") (text (codes "ab")) end)) end)

abbrev opened_reply : Doc
opened_reply = obj (field (codes "return") (num (pos 7)) end)

abbrev verdict : Doc
verdict = obj (field (codes "query_status") (text (codes "ok")) end)

abbrev document : Text → Option Doc
document t =
    if text_eq t (codes "block")
    then some block
    else if text_eq t (codes "opened")
    then some opened_reply
    else some verdict

abbrev json : Nlohmann Doc
json = record (toy_nlohmann [] verdict) { parse = document }

abbrev build : JsonBuild Doc
build = record { object = λ fs. obj end; text = text; int = num; dump = λ d. some (codes "cmd") }

abbrev crypto : Crypto
crypto = record { sha256 = λ t. t; decode = λ t. some t }

-- What is written stands behind what the file holds.
abbrev behind : Option Text → Text → Option Text
behind none t = none
behind (some u) t = some (u ++ t)

abbrev put : Text → Option Text → List (Text × Text) → List (Text × Text)
put f none fs = fs
put f (some u) fs = insert f u fs

abbrev disk : Disk Machine
disk = record {
  read = λ f s. lookup f s.files;
  open_write = λ f s. (true, record s { files = insert f [] s.files });
  write = λ f t s. record s { files = put f (behind (lookup f s.files) t) s.files };
}

lookup-insert_same : (f t : Text) (fs : List (Text × Text)) → lookup f (insert f t fs) ≡ some t
lookup-insert_same f t fs = rw (lookup-insert f f t fs, text_eq_refl f) refl

disk-IsDisk : IsDisk disk
disk-IsDisk = record {
  read-open_write = λ f s e. lookup-insert_same f [] s.files;
  read-write = λ f t u s held.
      ap (λ o. lookup f (put f (behind o t) s.files)) held ∙ lookup-insert_same f (u ++ t) s.files;
}

abbrev is_there : Option Text → Bool
is_there none = false
is_there (some t) = true

abbrev shell : Shell Machine
shell = record {
  system = λ c s. (pos 0, s);
  exists = λ p s. is_there (lookup p s.files);
  is_directory = λ p s. false;
  create_directories = λ p s. (some true, s);
  now = λ s. (3, s);
}

abbrev folders : Folders Machine
folders = record { current_path = λ s. codes "/ids"; remove = λ p s. (some true, s) }

-- A database that opens and prepares no statement.
abbrev sqlite : Sqlite Machine Unit Unit
sqlite = record {
  open_db = λ p s. ((true, tt), s);
  close = λ d s. s;
  exec = λ d t s. (true, s);
  prepare = λ d t s. (none, s);
  bind_text = λ st i t s. s;
  bind_int64 = λ st i n s. s;
  step = λ st s. (pos 101, s);
  column_text = λ st i s. [];
  column_int64 = λ st i s. pos 0;
  finalize = λ st s. s;
}

abbrev curl : Curl Machine Unit
curl = record {
  easy_init = λ s. (some tt, s);
  easy_escape = λ h t s. (some t, s);
  easy_perform = λ h r s. ((true, codes "known" ∷ []), s);
  easy_cleanup = λ h s. s;
}

abbrev at : ℕ → Machine
at n = record { files = (env_path, codes "AUTH_KEY=k\n") ∷ []; answers = n }

abbrev bin : Text
bin = codes "/bin/x"

abbrev blocks : List Text
blocks = codes "ab" ∷ codes "ab" ∷ []

guest_opens : open_guest_file virt json build crypto tt bin (at 3) ≡ (ok (pos 7), at 2)
unfolding open_guest_file agent text_eq
guest_opens = refl

guest_Delivers : Delivers virt json build crypto tt (pos 7) (at 2) blocks (at 0)
unfolding ask_chunk agent read_answer text_eq
guest_Delivers = goes_on refl refl (goes_on refl refl (breaks_off refl))

abbrev dump_path : Text
dump_path = codes "/tmp/IDS-TFG/snapshots/vm_x_3.bin"

abbrev dumped : Machine
dumped = record {
  files = (env_path, codes "AUTH_KEY=k\n") ∷ (dump_path, codes "abab") ∷ [];
  answers = 0;
}

guest_dumped :
    dump_guest_file virt json build crypto disk shell folders 3 (codes "vm") bin (at 3)
    ≡ (ok dump_path, dumped)
unfolding dump_guest_file with_domain free_behind open_guest_file read_chunks ask_chunk read_answer
    agent save_dump filename decimal text_eq lookup insert
guest_dumped = refl

dump_guest_file-writes_example :
    IsDump dump_path × (lookup dump_path dumped.files ≡ some (joined blocks))
dump_guest_file-writes_example =
    dump_guest_file-writes virt json build crypto disk shell folders disk-IsDisk 2 (codes "vm") bin
      (at 3) (λ f t. refl) refl guest_opens guest_Delivers (omega arith) guest_dumped

files_kept : LeavesDumps virt json build crypto disk shell folders disk-IsDisk sqlite curl
files_kept = record {
  create_directories = λ p f t. refl;
  open_db = λ p f t outside dump. refl;
  close = λ p f t u outside dump. refl;
  exec = λ p sql f t u outside dump. refl;
}

cache_IsOutside : IsOutside (cache_of (codes "/ids") (codes "vm"))
unfolding join starts_with
cache_IsOutside = refl

bin_absent : shell.exists bin (at 3) ≡ false
unfolding lookup text_eq
bin_absent = refl

path_open :
    open_hash_db sqlite (cache_of (codes "/ids") (codes "vm")) dumped ≡ (ok (some tt), dumped)
unfolding open_hash_db
path_open = refl

path_ready : initialize sqlite (some tt) dumped ≡ (ok true, dumped)
unfolding initialize
path_ready = refl

bin_judged :
    judge json disk sqlite curl (some tt) (compute_sha256 crypto (joined blocks)) bin 3 dumped
    ≡ (ok true, dumped)
unfolding lookup judge ask_api query_malware_bazaar find_key trim lines trim_left trim_right
    starts_with drop get_record set_record text_eq compute_sha256
bin_judged = refl

check_guest_file-judge_example :
    check_guest_file virt json build crypto disk shell folders sqlite curl 3 (codes "vm") bin (at 3)
    ≡ (ok true, (close_hash_db sqlite (some tt) dumped).1)
check_guest_file-judge_example =
    check_guest_file-judge virt json build crypto disk shell folders disk-IsDisk sqlite curl 2
      (codes "vm") bin (at 3) files_kept cache_IsOutside (λ f t. refl) bin_absent refl guest_opens
      guest_Delivers (omega arith) guest_dumped refl path_open path_ready refl bin_judged refl refl
