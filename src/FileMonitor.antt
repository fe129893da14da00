-- ===== src/FileMonitor.antt =====
-- src/monitor/fileMonitor/fileMonitor.h and fileMonitor.cpp: the baseline of file hashes of one machine,
-- its file on the host, and the comparison of the guest's files with it.
pub mod Guest
pub mod Hex
mod Total
pub mod Observe
pub mod Changes
pub mod Alarms
pub mod Loading
pub mod HostFile
pub mod Startup
pub mod Baseline
pub mod Steady
pub mod Detection
pub mod Views
pub mod Storing
use idsproject.Base.{
  Text, ◌++◌, codes, is_empty, text_eq, lookup, insert, find, lines, drop, Bool, true, false, ◌||◌,
  not, Option, none, some, List, [], ◌∷◌, String, if◌then◌else◌, Run, ok, pure, fail, call, need,
  effect, ensure, or_value, attempt, ◌>>=◌, ◌>>◌,
}
use idsproject.Host.{Libvirt, JsonC, Evp, Disk}
use idsproject.FileMonitor.Guest.{read_file_from_vm}
use idsproject.FileMonitor.Hex.{hex_text}

abbrev pub Hashes : Type 0
Hashes = List (Text × Text)

-- The object's fields, with the two paths that it reads from its copy of the configuration.
pub record FileMonitor : Type 0 where
  pub files2watch : List Text
  pub hash_path : Text
  pub vm_name : Text
  pub file_hashes : Hashes

-- The constructor: no hash is known.
abbrev pub new_monitor : List Text → Text → Text → FileMonitor
new_monitor files hash_path vm_name = record {
  files2watch = files;
  hash_path = hash_path;
  vm_name = vm_name;
  file_hashes = [];
}

unfoldable pub hash_file : FileMonitor → Text
hash_file m = m.hash_path ++ codes "/" ++ m.vm_name ++ codes ".hash"

-- One line of the hash file.
unfoldable pub hash_line : Text → Text → Text
hash_line path hash = path ++ (codes ": " ++ (hash ++ codes "\n"))

-- Such a line, split at the first `": "`; others are skipped.
unfoldable pub load_line : Text → Hashes → Hashes
load_line line hashes = elim (find (codes ": ") line) [
  | none ↦ hashes
  | some (path, rest) ↦ insert path (drop 2 rest) hashes
]

unfoldable pub load_lines : List Text → Hashes → Hashes
load_lines [] hashes = hashes
load_lines (line ∷ rest) hashes = load_lines rest (load_line line hashes)

unfoldable pub is_hash_stored : FileMonitor → Text → Bool
is_hash_stored m path = elim (lookup path m.file_hashes) [ none ↦ false | some _ ↦ true ]

unfoldable pub some_missing : List Text → Hashes → Bool
some_missing [] hashes = false
some_missing (path ∷ rest) hashes = elim (lookup path hashes) [
  | none ↦ true
  | some _ ↦ some_missing rest hashes
]

unfoldable pub requires_initialization : FileMonitor → Bool
unfolding some_missing
requires_initialization m = some_missing m.files2watch m.file_hashes

-- Whether the hash just computed counts as a change: none was known, or another.
unfoldable pub is_change : Option Text → Text → Bool
is_change none new_hash = true
is_change (some old_hash) new_hash = not (text_eq old_hash new_hash)

-- One round of the loop of `hasFileChanged`, once its hash is there: `none` where the code continues.
unfoldable pub note_hash : Text → Option Text → Hashes × Bool → Hashes × Bool
unfolding is_change
note_hash path none (hashes, changed) = (hashes, changed)
note_hash path (some new_hash) (hashes, changed) =
    (insert path new_hash hashes, changed || is_change (lookup path hashes) new_hash)

module _ {S Dom J Ctx : Type 0} (virt : Libvirt S Dom) (json : JsonC J) (evp : Evp S Ctx) where
  -- The exit of a failed digest call: the context is freed.
  free_unless : Ctx → Bool → Run S (Unit {0})
  free_unless ctx true = pure tt
  free_unless ctx false = do effect (evp.ctx_free ctx); fail

  free_if_null : Ctx → Option Text → Run S Text
  free_if_null ctx none = do effect (evp.ctx_free ctx); fail
  free_if_null ctx (some digest) = pure digest

  -- The digest of one file's contents as the loops of `storeFileHash` and `hasFileChanged` compute
  -- it; a failure stands for their `continue`.
  unfoldable pub hash_content : Text → Run S Text
  unfolding free_unless free_if_null
  hash_content content = do
    ctx ← call evp.ctx_new >>= need
    started ← call (evp.digest_init ctx)
    free_unless ctx started
    updated ← call (evp.digest_update ctx content)
    free_unless ctx updated
    digest ← call (evp.digest_final ctx) >>= free_if_null ctx
    effect (evp.ctx_free ctx)
    pure (hex_text digest)

  -- The part that both loops share: read the file, give up where it is empty, and hash it.
  unfoldable pub file_hash : Dom → Text → Run S Text
  file_hash dom path = do
    content ← read_file_from_vm virt json dom path
    ensure (not (is_empty content))
    hash_content content

  add_files : Dom → Ctx → List Text → Run S (Unit {0})
  add_files dom ctx [] = pure tt
  add_files dom ctx (path ∷ rest) = do
    content ← read_file_from_vm virt json dom path
    let later = add_files dom ctx rest
    if is_empty content
        then later
        else do updated ← call (evp.digest_update ctx content); free_unless ctx updated; later

  -- `calculateFileHash` after the domain was found: one digest over all watched files.
  combined_hash : FileMonitor → Dom → Run S Text
  unfolding add_files free_unless free_if_null
  combined_hash m dom = do
    ctx ← call evp.ctx_new >>= need
    started ← call (evp.digest_init ctx)
    free_unless ctx started
    add_files dom ctx m.files2watch
    digest ← call (evp.digest_final ctx) >>= free_if_null ctx
    effect (evp.ctx_free ctx)
    pure (hex_text digest)

  -- The domain is freed on every exit, and a failure is the empty text.
  unfoldable pub calculate_file_hash : FileMonitor → Run S Text
  unfolding combined_hash
  calculate_file_hash m = or_value [] do
    dom ← call (virt.lookup_by_name m.vm_name) >>= need
    hash ← or_value [] (combined_hash m dom)
    effect (virt.domain_free dom)
    pure hash

  unfoldable pub check_files : Dom → List Text → Hashes × Bool → Run S (Hashes × Bool)
  check_files dom [] seen = pure seen
  check_files dom (path ∷ rest) seen = do
    new_hash ← attempt (file_hash dom path)
    check_files dom rest (note_hash path new_hash seen)

  -- Returns whether a change was seen, and the object with the hashes in memory brought up to date.
  unfoldable pub has_file_changed : FileMonitor → Run S (Bool × FileMonitor)
  unfolding check_files
  has_file_changed m =
      or_value (false, m)
        do
          dom ← call (virt.lookup_by_name m.vm_name) >>= need
          seen ← check_files dom m.files2watch (m.file_hashes, false)
          effect (virt.domain_free dom)
          pure (seen.1, record m { file_hashes = seen.0 })

  module _ (disk : Disk S) where
    unfoldable pub load_stored_hashes : FileMonitor → Run S FileMonitor
    load_stored_hashes m s = elim (disk.read (hash_file m) s) [
      | none ↦ (ok m, s)
      | some text ↦ (ok (record m { file_hashes = load_lines (lines text) m.file_hashes }), s)
    ]

    unfoldable pub store_files : Dom → Text → List Text → Run S (Unit {0})
    store_files dom out [] = pure tt
    store_files dom out (path ∷ rest) = do
      or_value tt do hash ← file_hash dom path; effect (disk.write out (hash_line path hash))
      store_files dom out rest

    unfoldable pub free_unless_open : Dom → Bool → Run S (Unit {0})
    free_unless_open dom true = pure tt
    free_unless_open dom false = do effect (virt.domain_free dom); fail

    unfoldable pub store_file_hash : FileMonitor → Run S (Unit {0})
    unfolding store_files free_unless_open
    store_file_hash m = or_value tt do
      dom ← call (virt.lookup_by_name m.vm_name) >>= need
      is_open ← call (disk.open_write (hash_file m))
      free_unless_open dom is_open
      store_files dom (hash_file m) m.files2watch
      effect (virt.domain_free dom)

    unfoldable pub initialize_vm_hashes : FileMonitor → Run S FileMonitor
    initialize_vm_hashes m = do store_file_hash m; load_stored_hashes m
