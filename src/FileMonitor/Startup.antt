-- ===== src/FileMonitor/Startup.antt =====
-- The first hashes of a machine: `initializeVMHashes` empties the hash file, writes it anew and loads
-- it, so that what an earlier run had stored is gone.
use mathlib.Core.List.{append_assoc, append-nil}
use idsproject.Base.{
  Text, codes, has_sub, false, none, some, List, [], ◌∷◌, ◌++◌, ◌≡◌, ◌⊎◌, inl, inr, refl, ◌∙◌, ap,
  arith, All, map, ok, failed, thrown, spent, Result, IsReturn, pure, Ensures, Ensures-bind,
}
use idsproject.Host.{Libvirt, JsonC, Evp, Disk}
use idsproject.FileMonitor.{Hashes, hash_content, file_hash, store_files, hash_line}
use idsproject.FileMonitor.Hex.{hex_text, hex_digit}
use idsproject.FileMonitor.Total.{file_hash-Returns}
use idsproject.FileMonitor.Observe.{Seen}
use idsproject.FileMonitor.Loading.{print}
use idsproject.FileMonitor.HostFile.{IsDisk, LeavesFile, file_hash-Keeps}

-- The paths that were read, with their hashes.
abbrev pub readable : Seen → Hashes
readable [] = []
readable ((path, none) ∷ seen) = readable seen
readable ((path, some hash) ∷ seen) = (path, hash) ∷ readable seen

abbrev pub paths_of : Seen → List Text
paths_of = map (λ e. e.0)

abbrev pub IsCleanPath : Text → Type 0
IsCleanPath path = (has_sub (codes ": ") path ≡ false) × (has_sub (codes "\n") path ≡ false)

has_sub-newline-hex_text : (bytes : Text) → has_sub (codes "\n") (hex_text bytes) ≡ false
unfolding has_sub hex_text hex_digit
has_sub-newline-hex_text [] = refl
has_sub-newline-hex_text (b ∷ bytes) = ground (arith, has_sub-newline-hex_text bytes)

abbrev pub IsOneLine : Text → Type 0
IsOneLine text = has_sub (codes "\n") text ≡ false

-- Each hash is on one line.
abbrev pub HexSeen : Seen → Type 0
HexSeen = All (λ e. (hash : Text) → e.1 ≡ some hash → IsOneLine hash)

pub return_cases : {A : Type 0} (r : Result A) → IsReturn r → ((a : A) × (r ≡ ok a)) ⊎ (r ≡ failed)
return_cases (ok a) h = inl (a, refl)
return_cases failed h = inr refl
return_cases thrown h = elim h [ ]
return_cases spent h = elim h [ ]

module _ {S Dom J Ctx : Type 0} (virt : Libvirt S Dom) (json : JsonC J) (evp : Evp S Ctx)
    (disk : Disk S) where
  -- A hash is printed in hexadecimal, on one line.
  hex_text-OneLine : (digest : Text) → Ensures {S = S} IsOneLine (pure (hex_text digest))
  hex_text-OneLine digest = record {
    at = λ s hash e. ground (arith, has_sub-newline-hex_text digest);
  }

  hash_content-OneLine : (content : Text) → Ensures IsOneLine (hash_content virt json evp content)
  unfolding hash_content
  hash_content-OneLine content = search (Ensures-bind, hex_text-OneLine) depth 20

  pub file_hash-OneLine :
      (dom : Dom) (path : Text) → Ensures IsOneLine (file_hash virt json evp dom path)
  unfolding file_hash
  file_hash-OneLine dom path = search (Ensures-bind, hash_content-OneLine)

  -- What the guest's files were read to hold, one look behind the other; behind a file that was read its
  -- line is written.
  pub data Looked (dom : Dom) (f : Text) : List Text → S → Seen → Type 0 where
    all_done : {s : S} → Looked dom f [] s []
    reads :
        {path h : Text} {rest : List Text} {s : S} {seen : Seen}
        → (file_hash virt json evp dom path s).0 ≡ ok h
        → Looked dom f rest
            (disk.write f (hash_line path h) (file_hash virt json evp dom path s).1)
            seen
        → Looked dom f (path ∷ rest) s ((path, some h) ∷ seen)
    passes_over :
        {path : Text} {rest : List Text} {s : S} {seen : Seen}
        → (file_hash virt json evp dom path s).0 ≡ failed
        → Looked dom f rest (file_hash virt json evp dom path s).1 seen
        → Looked dom f (path ∷ rest) s ((path, none) ∷ seen)

  -- The loop ends, and it has appended a line for each file that was read.
  pub store_files-print :
      (D : IsDisk disk) (f : Text) (L : LeavesFile disk virt evp f) (dom : Dom) (paths : List Text)
      (u : Text) (s : S)
      → disk.read f s ≡ some u
      → (seen : Seen) × (paths_of seen ≡ paths)
        × ((store_files virt json evp disk dom f paths s).0 ≡ ok tt)
        × (disk.read f (store_files virt json evp disk dom f paths s).1
            ≡ some (u ++ print (readable seen)))
        × HexSeen seen
        × Looked dom f paths s seen
  unfolding store_files
  store_files-print D f L dom [] u s e = ([], refl, refl, rw append-nil e, tt, all_done)
  store_files-print D f L dom (path ∷ rest) u s e =
      let s' = (file_hash virt json evp dom path s).1 in
      let kept = (file_hash-Keeps virt json evp disk f L dom path).at s in
      elim (return_cases (file_hash virt json evp dom path s).0
        ((file_hash-Returns virt json evp dom path).at s)) [
          | inl (h, got) ↦
              let t = disk.write f (hash_line path h) s' in
              let (seen, p, q, r, x, looked) =
                store_files-print D f L dom rest (u ++ hash_line path h) t
                  (ground (arith, D.read-write f (hash_line path h) u s')) in
              (
                (path, some h) ∷ seen,
                ap (◌∷◌ path) p,
                rw got q,
                rw got (r ∙ ap some (append_assoc u (hash_line path h) (print (readable seen)))),
                (λ hash k. (file_hash-OneLine dom path).at s hash (got ∙ cc), x),
                reads got looked,
              )
          | inr lost ↦
              let (seen, p, q, r, x, looked) = store_files-print D f L dom rest u s' (kept ∙ e) in
              (
                (path, none) ∷ seen,
                ap (◌∷◌ path) p,
                rw lost q,
                rw lost r,
                (λ hash k. cc, x),
                passes_over lost looked,
              )
        ]
