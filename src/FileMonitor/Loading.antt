-- ===== src/FileMonitor/Loading.antt =====
-- The hash file: what `storeFileHash` prints is what `loadStoredHashes` reads.
use mathlib.Core.List.{append_assoc}
use idsproject.Base.{
  Text, codes, insert, find, has_sub, has_sub-newline-append, lines, lines-append, drop, false,
  some, [], ◌∷◌, ◌++◌, ◌≡◌, refl, arith, All,
}
use idsproject.FileMonitor.{Hashes, load_line, load_lines, hash_line}

-- The file's text for these paths and hashes.
abbrev pub print : Hashes → Text
print [] = []
print ((path, hash) ∷ rest) = hash_line path hash ++ print rest

-- The map after these assignments in turn.
abbrev pub assign : Hashes → Hashes → Hashes
assign [] known = known
assign ((path, hash) ∷ rest) known = assign rest (insert path hash known)

-- A path without `": "` and without a newline, and a hash without a newline.
abbrev pub IsClean : Text × Text → Type 0
IsClean (path, hash) =
    (has_sub (codes ": ") path ≡ false)
    × (has_sub (codes "\n") path ≡ false)
    × (has_sub (codes "\n") hash ≡ false)

-- The first `": "` of a line is the separator, if the path has none.
find-separator :
    (path rest : Text)
    → has_sub (codes ": ") path ≡ false
    → find (codes ": ") (path ++ (codes ": " ++ rest)) ≡ some (path, codes ": " ++ rest)
unfolding has_sub find
find-separator [] rest h = refl
find-separator (c ∷ []) rest h = ground arith
find-separator (c ∷ d ∷ path) rest h = ground (arith, find-separator (d ∷ path) rest)

load_line-hash_line :
    (path hash : Text) (known : Hashes)
    → has_sub (codes ": ") path ≡ false
    → load_line (path ++ (codes ": " ++ hash)) known ≡ insert path hash known
unfolding load_line drop
load_line-hash_line path hash known h = rw (load_line, find-separator path hash h)

hash_line-append :
    (path hash rest : Text)
    → hash_line path hash ++ rest ≡ (path ++ (codes ": " ++ hash)) ++ b'\n' ∷ rest
unfolding hash_line
hash_line-append path hash rest = simp append_assoc

one_line :
    (path hash : Text)
    → has_sub (codes "\n") path ≡ false
    → has_sub (codes "\n") hash ≡ false
    → has_sub (codes "\n") (path ++ (codes ": " ++ hash)) ≡ false
one_line path hash hp hh =
    has_sub-newline-append path (codes ": " ++ hash) hp (unfold has_sub in ground arith)

-- Every list of clean entries is read back as the assignments that it stands for, in order.
pub load_lines-print :
    (entries known : Hashes)
    → All IsClean entries
    → load_lines (lines (print entries)) known ≡ assign entries known
unfolding load_lines
load_lines-print [] known c = unfold lines in refl
load_lines-print ((path, hash) ∷ rest) known ((a, b, d), c) =
    rw
      (
        hash_line-append path hash (print rest),
        lines-append (path ++ (codes ": " ++ hash)) (print rest) (one_line path hash b d),
      )
      (rw (load_lines, load_line-hash_line path hash known a)
        (load_lines-print rest (insert path hash known) c))
