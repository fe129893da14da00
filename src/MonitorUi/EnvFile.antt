-- ===== src/MonitorUi/EnvFile.antt =====
-- The environment file as it is written by hand: one `KEY=value` for each line.
use idsproject.Base.{
  Text, codes, find-byte, has_sub, has_sub-newline-append, starts_with, drop, insert, lines,
  lines-append, false, some, [], ◌∷◌, ◌++◌, ◌≡◌, refl, arith, All, ◌==◌,
}
use idsproject.MonitorUi.{Env, assign_value, load_env_line, load_env_lines, load_env_file}
use mathlib.Core.List.{append_assoc}

abbrev pub print : Env → Text
print [] = []
print ((key, value) ∷ rest) = key ++ (codes "=" ++ (value ++ (codes "\n" ++ print rest)))

abbrev pub assign : Env → Env → Env
assign [] env = env
assign ((key, value) ∷ rest) env = assign rest (insert key value env)

-- A key that is not empty and has no `=`, no line end and no `#` at its head, and a value that is not
-- empty and has no line end.
abbrev pub IsPlain : Text × Text → Type 0
IsPlain ([], value) = ⊥
IsPlain (c ∷ key, []) = ⊥
IsPlain (c ∷ key, d ∷ value) =
    ((c == b'#') ≡ false)
    × (has_sub (codes "=") (c ∷ key) ≡ false)
    × (has_sub (codes "\n") (c ∷ key) ≡ false)
    × (has_sub (codes "\n") (d ∷ value) ≡ false)

load_env_line-entry :
    (key value : Text) (env : Env)
    → IsPlain (key, value)
    → load_env_line (key ++ (codes "=" ++ value)) env ≡ insert key value env
unfolding starts_with assign_value drop load_env_line
load_env_line-entry [] value env h = elim h [ ]
load_env_line-entry (c ∷ key) [] env h = elim h [ ]
load_env_line-entry (c ∷ key) (d ∷ value) env (comment, plain, _, _) =
    let differs : (b'#' == c) ≡ false = ground arith in
    rw (load_env_line, differs, find-byte b'=' (c ∷ key) (d ∷ value) plain)

entry-HasNoEnd :
    (key value : Text)
    → IsPlain (key, value)
    → has_sub (codes "\n") (key ++ (codes "=" ++ value)) ≡ false
entry-HasNoEnd [] value h = elim h [ ]
entry-HasNoEnd (c ∷ key) [] h = elim h [ ]
entry-HasNoEnd (c ∷ key) (d ∷ value) (_, _, a, b) =
    has_sub-newline-append (c ∷ key) (codes "=" ++ d ∷ value) a (unfold has_sub in ground arith)

entry-append :
    (key value rest : Text)
    → key ++ (codes "=" ++ (value ++ (codes "\n" ++ rest)))
      ≡ (key ++ (codes "=" ++ value)) ++ b'\n' ∷ rest
entry-append key value rest = simp append_assoc

load_env_lines-print :
    (entries env : Env)
    → All IsPlain entries
    → load_env_lines (lines (print entries)) env ≡ assign entries env
unfolding load_env_lines
load_env_lines-print [] env h = unfold lines in refl
load_env_lines-print ((key, value) ∷ rest) env (p, h) =
    rw
      (
        entry-append key value (print rest),
        lines-append (key ++ (codes "=" ++ value)) (print rest) (entry-HasNoEnd key value p),
      )
      (rw (load_env_lines, load_env_line-entry key value env p)
        (load_env_lines-print rest (insert key value env) h))

-- A file of plain entries, one on each line, is read as their assignments in order, the last of a key
-- standing.
pub load_env_file-print :
    (entries : Env) → All IsPlain entries → load_env_file (some (print entries)) ≡ assign entries []
unfolding load_env_file
load_env_file-print entries h = load_env_lines-print entries [] h
