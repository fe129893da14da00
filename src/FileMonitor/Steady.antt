-- ===== src/FileMonitor/Steady.antt =====
-- A guest whose files stay as they are while they are looked at, and what the loops over the watched files
-- see of it.
use mathlib.Core.List.{append_assoc, append-nil}
use idsproject.Base.{
  Text, Option, none, some, List, [], ◌∷◌, ◌++◌, ◌≡◌, inl, inr, refl, arith, ◌∙◌, ap, ok, failed,
  thrown, spent, Result,
}
use idsproject.Host.{Libvirt, JsonC, Evp, Disk}
use idsproject.FileMonitor.{hash_line, file_hash, store_files}
use idsproject.FileMonitor.Total.{file_hash-Returns}
use idsproject.FileMonitor.Observe.{Seen, observe}
use idsproject.FileMonitor.Loading.{print}
use idsproject.FileMonitor.HostFile.{IsDisk, LeavesFile, file_hash-Keeps}
use idsproject.FileMonitor.Startup.{readable, paths_of, return_cases}

-- The hash, where there is one.
abbrev pub hash_of : Result Text → Option Text
hash_of (ok hash) = some hash
hash_of failed = none
hash_of thrown = none
hash_of spent = none

pub hash_of-ok : (r : Result Text) {hash : Text} → hash_of r ≡ some hash → r ≡ ok hash
hash_of-ok (ok h) e = cc
hash_of-ok failed e = absurd (cc)
hash_of-ok thrown e = absurd (cc)
hash_of-ok spent e = absurd (cc)

module _ {S Dom J Ctx : Type 0} (virt : Libvirt S Dom) (json : JsonC J) (evp : Evp S Ctx)
    (disk : Disk S) where
  -- Neither a file of the host nor the reading of another file changes what a file of the guest hashes to.
  pub record IsSteady (dom : Dom) : Type 0 where
    pub open_write :
        (f path : Text) (s : S)
        → (file_hash virt json evp dom path (disk.open_write f s).1).0
          ≡ (file_hash virt json evp dom path s).0
    pub write :
        (f text path : Text) (s : S)
        → (file_hash virt json evp dom path (disk.write f text s)).0
          ≡ (file_hash virt json evp dom path s).0
    pub look :
        (other path : Text) (s : S)
        → (file_hash virt json evp dom path (file_hash virt json evp dom other s).1).0
          ≡ (file_hash virt json evp dom path s).0

  -- What the files of the guest hash to, all at one time.
  abbrev pub shown : Dom → List Text → S → Seen
  shown dom [] s = []
  shown dom (path ∷ rest) s =
      (path, hash_of (file_hash virt json evp dom path s).0) ∷ shown dom rest s

  pub shown-same :
      (dom : Dom) (paths : List Text) (s t : S)
      → ((path : Text)
          → (file_hash virt json evp dom path t).0 ≡ (file_hash virt json evp dom path s).0)
      → shown dom paths t ≡ shown dom paths s
  shown-same dom [] s t h = refl
  shown-same dom (path ∷ rest) s t h = rw (h path, shown-same dom rest s t h) refl

  pub paths_of-shown :
      (dom : Dom) (paths : List Text) (s : S) → paths_of (shown dom paths s) ≡ paths
  paths_of-shown dom [] s = refl
  paths_of-shown dom (path ∷ rest) s = ap (◌∷◌ path) (paths_of-shown dom rest s)

  module _ (dom : Dom) (steady : IsSteady dom) where
    -- The loop of a round sees what the files hash to at its begin.
    pub observe-shown :
        (paths : List Text) (s : S) → (observe virt json evp dom paths s).0 ≡ ok (shown dom paths s)
    unfolding observe
    observe-shown [] s = refl
    observe-shown (path ∷ rest) s =
        let s' = (file_hash virt json evp dom path s).1 in
        let later = observe-shown rest s' in
        let same = shown-same dom rest s s' (λ q. steady.look path q s) in
        elim (return_cases (file_hash virt json evp dom path s).0
          ((file_hash-Returns virt json evp dom path).at s)) [
            | inl (h, got) ↦ rw (got, later, same) refl
            | inr lost ↦ rw (lost, later, same) refl
          ]

    -- The loop of `storeFileHash` prints what the files hash to at its begin.
    pub store_files-shown :
        (D : IsDisk disk) (f : Text) (L : LeavesFile disk virt evp f) (paths : List Text) (u : Text)
        (s : S)
        → disk.read f s ≡ some u
        → disk.read f (store_files virt json evp disk dom f paths s).1
          ≡ some (u ++ print (readable (shown dom paths s)))
    unfolding store_files
    store_files-shown D f L [] u s e = rw append-nil e
    store_files-shown D f L (path ∷ rest) u s e =
        let s' = (file_hash virt json evp dom path s).1 in
        let kept = (file_hash-Keeps virt json evp disk f L dom path).at s in
        let same = shown-same dom rest s s' (λ q. steady.look path q s) in
        elim (return_cases (file_hash virt json evp dom path s).0
          ((file_hash-Returns virt json evp dom path).at s)) [
            | inl (h, got) ↦
                let t = disk.write f (hash_line path h) s' in
                let more = shown-same dom rest s' t (λ q. steady.write f (hash_line path h) q s') in
                let r =
                  store_files-shown D f L rest (u ++ hash_line path h) t
                    (ground (arith, D.read-write f (hash_line path h) u s')) in
                rw got (
                  r
                  ∙ ap some
                      (append_assoc u (hash_line path h) (print (readable (shown dom rest t))))
                  ∙ ap (λ x. some (u ++ (hash_line path h ++ print (readable x)))) (more ∙ same))
            | inr lost ↦ rw lost (
                store_files-shown D f L rest u s' (kept ∙ e)
                ∙ ap (λ x. some (u ++ print (readable x))) same)
          ]
