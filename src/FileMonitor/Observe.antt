-- ===== src/FileMonitor/Observe.antt =====
-- What `hasFileChanged` sees: the watched files' hashes in turn, and the comparison with the hashes
-- in memory, with no effects left in it.
use idsproject.Base.{
  Text, text_eq, lookup, Bool, false, Option, some, List, [], ◌∷◌, ◌≡◌, ◌≢◌, ◌⊎◌, refl, arith, All,
  Run, ok, pure, attempt, ◌>>=◌, attempt_total,
}
use idsproject.Host.{Libvirt, JsonC, Evp}
use idsproject.FileMonitor.{Hashes, file_hash, check_files, note_hash}
use idsproject.FileMonitor.Total.{file_hash-Returns}

-- A watched path, and its hash unless it could not be had.
abbrev pub Seen : Type 0
Seen = List (Text × Option Text)

abbrev pub note_all : Seen → Hashes × Bool → Hashes × Bool
note_all [] state = state
note_all ((path, hash) ∷ rest) state = note_all rest (note_hash path hash state)

-- The path was seen with this hash.
abbrev pub SeenAs : Text → Text → Seen → Type 0
SeenAs path hash [] = ⊥
SeenAs path hash ((q, o) ∷ rest) = ((q ≡ path) × (o ≡ some hash)) ⊎ SeenAs path hash rest

abbrev pub Fresh : Text → Seen → Type 0
Fresh path = All (λ e. text_eq path e.0 ≡ false)

-- No path is listed twice.
abbrev pub Distinct : Seen → Type 0
Distinct [] = Unit
Distinct ((path, _) ∷ rest) = Fresh path rest × Distinct rest

-- Some path was seen with a hash that is not the known one.
abbrev pub Differs : Seen → Hashes → Type 0
Differs seen known =
    (path : Text) × (hash : Text) × SeenAs path hash seen × (lookup path known ≢ some hash)

module _ {S Dom J Ctx : Type 0} (virt : Libvirt S Dom) (json : JsonC J) (evp : Evp S Ctx) where
  unfoldable pub observe : Dom → List Text → Run S Seen
  observe dom [] = pure []
  observe dom (path ∷ rest) = do
    hash ← attempt (file_hash virt json evp dom path)
    later ← observe dom rest
    pure ((path, hash) ∷ later)

  -- The loop is the observation followed by the pure comparison, and it always ends with a value.
  pub check_files-observe :
      (dom : Dom) (paths : List Text) (state : Hashes × Bool) (s : S)
      → (seen : Seen) × ((observe dom paths s).0 ≡ ok seen)
        × ((check_files virt json evp dom paths state s)
            ≡ (ok (note_all seen state), (observe dom paths s).1))
  unfolding check_files observe
  check_files-observe dom [] state s = ([], refl, refl)
  check_files-observe dom (path ∷ rest) state s =
      let (o, e) =
        attempt_total (file_hash virt json evp dom path) s
          (file_hash-Returns virt json evp dom path) in
      let s' = (file_hash virt json evp dom path s).1 in
      let (seen, p, q) = check_files-observe dom rest (note_hash path o state) s' in
      ((path, o) ∷ seen, ground arith, ground arith)
