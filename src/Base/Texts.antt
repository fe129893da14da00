-- ===== src/Base/Texts.antt =====
-- `std::string` as its list of bytes, with the members and stream operations that the program uses.
use Prim.Native.Nat.{ℕ, zero, suc, ◌+◌, ◌/◌, ◌%◌}
use Prim.Native.Char.{code}
use Prim.Native.String.{String}
use mathlib.Core.Path.{◌≡◌, refl}
use mathlib.Core.Logic.{◌↔◌}
use mathlib.Core.Bool.{Bool, true, false, ◌&&◌}
use mathlib.Core.Option.{Option, none, some}
use mathlib.Core.List.{List, [], ◌∷◌, ◌++◌}
use native.Mathlib.Omega.{arith}
use idsproject.Base.Logic.{leb, ◌==◌, if◌then◌else◌}
use idsproject.Base.Ints.{ℤ, pos, negsuc}

abbrev pub Text : Type 0
Text = List ℕ

-- The bytes of an ASCII literal.
abbrev pub codes : String → Text
codes String.[] = []
codes (String.◌∷◌ c s) = code c ∷ codes s

-- `s.empty()`
abbrev pub is_empty : Text → Bool
is_empty [] = true
is_empty (_ ∷ _) = false

-- `operator==`
unfoldable pub text_eq : Text → Text → Bool
text_eq [] [] = true
text_eq [] (_ ∷ _) = false
text_eq (_ ∷ _) [] = false
text_eq (a ∷ s) (b ∷ t) = (a == b) && text_eq s t

pub text_eq_iff : (s t : Text) → (text_eq s t ≡ true) ↔ (s ≡ t)
unfolding text_eq
text_eq_iff [] [] = (λ _. refl, λ _. refl)
text_eq_iff [] (_ ∷ _) = (λ h. cc, λ h. cc)
text_eq_iff (_ ∷ _) [] = (λ h. cc, λ h. cc)
text_eq_iff (a ∷ s) (b ∷ t) = ground (arith, text_eq_iff s t)

pub text_eq_refl : (s : Text) → text_eq s s ≡ true
text_eq_refl s = (text_eq_iff s s).1 refl

-- `s.rfind(pre, 0) == 0`
unfoldable pub starts_with : Text → Text → Bool
starts_with [] s = true
starts_with (_ ∷ _) [] = false
starts_with (a ∷ pre) (b ∷ s) = (a == b) && starts_with pre s

pub starts_with-append : (pre s : Text) → starts_with pre (pre ++ s) ≡ true
unfolding starts_with
starts_with-append [] s = refl
starts_with-append (a ∷ pre) s = ground (arith, starts_with-append pre s)

-- `s.substr(n)`
unfoldable pub drop : ℕ → Text → Text
drop zero s = s
drop (suc n) [] = []
drop (suc n) (_ ∷ s) = drop n s

-- `s.find(needle)`: the text before the first occurrence, and the text from it on.
unfoldable pub find : Text → Text → Option (Text × Text)
unfolding starts_with
find needle [] = elim needle [ [] ↦ some ([], []) | _ ∷ _ ↦ none ]
find needle (c ∷ s) =
    let later = find needle s in
    if starts_with needle (c ∷ s)
    then some ([], c ∷ s)
    else elim later [ none ↦ none | some (before, rest) ↦ some (c ∷ before, rest) ]

-- `s.find(needle) != npos`
unfoldable pub has_sub : Text → Text → Bool
unfolding find
has_sub needle s = elim (find needle s) [ none ↦ false | some _ ↦ true ]

cons_line : ℕ → List Text → List Text
cons_line c [] = (c ∷ []) ∷ []
cons_line c (l ∷ ls) = (c ∷ l) ∷ ls

-- The lines that `std::getline` delivers until the end of the stream.
unfoldable pub lines : Text → List Text
unfolding cons_line
lines [] = []
lines (c ∷ s) = let rest = lines s in if c == b'\n' then [] ∷ rest else cons_line c rest

-- A line with its newline, before more text, is delivered first.
pub lines-append :
    (l rest : Text) → has_sub (b'\n' ∷ []) l ≡ false → lines (l ++ b'\n' ∷ rest) ≡ l ∷ lines rest
unfolding lines has_sub
lines-append [] rest h = refl
lines-append (c ∷ l) rest h = ground (arith, lines-append l rest)

abbrev drop_while : (ℕ → Bool) → Text → Text
drop_while p [] = []
drop_while p (c ∷ s) = let rest = drop_while p s in if p c then rest else c ∷ s

-- The text from its first byte outside the set (`find_first_not_of`), and up to its last byte
-- outside the set (`find_last_not_of`).
unfoldable pub trim_left : (ℕ → Bool) → Text → Text
trim_left p s = drop_while p s

unfoldable pub trim_right : (ℕ → Bool) → Text → Text
trim_right p [] = []
trim_right p (c ∷ s) =
    let rest = trim_right p s in elim rest [ [] ↦ if p c then [] else c ∷ [] | d ∷ r ↦ c ∷ d ∷ r ]

digits : ℕ → ℕ → Text → Text
digits zero n acc = acc
digits (suc f) n acc =
    let acc' = (b'0' + n % 10) ∷ acc in
    let more = digits f (n / 10) acc' in if leb 10 n then more else acc'

-- `std::to_string`; `suc n` digits are enough for `n`.
unfoldable pub decimal : ℕ → Text
unfolding digits
decimal n = digits (suc n) n []

unfoldable pub int_text : ℤ → Text
unfolding decimal
int_text (pos n) = decimal n
int_text (negsuc n) = b'-' ∷ decimal (suc n)

-- `rfind(pre, 0) == 0` says that the text is the prefix and some rest.
pub starts_with_iff :
    (pre s : Text) → (starts_with pre s ≡ true) ↔ ((rest : Text) × (s ≡ pre ++ rest))
unfolding starts_with
starts_with_iff [] s = (λ _. (s, refl), λ _. refl)
starts_with_iff (a ∷ pre) [] = (λ h. absurd (cc), λ (rest, e). cc)
starts_with_iff (a ∷ pre) (b ∷ s) = (
  λ h. let (rest, e) = (starts_with_iff pre s).0 (ground arith) in (rest, ground arith),
  λ (rest, e). ground (arith, (starts_with_iff pre s).1 (rest, cc)),
)

-- The first occurrence of a byte is where the text without it ends.
pub find-byte :
    (b : ℕ) (s rest : Text)
    → has_sub (b ∷ []) s ≡ false
    → find (b ∷ []) (s ++ b ∷ rest) ≡ some (s, b ∷ rest)
unfolding has_sub
find-byte b [] rest h = ground arith
find-byte b (c ∷ s) rest h = ground (arith, find-byte b s rest)

pub has_sub-newline-append :
    (s t : Text)
    → has_sub (codes "\n") s ≡ false
    → has_sub (codes "\n") t ≡ false
    → has_sub (codes "\n") (s ++ t) ≡ false
unfolding has_sub
has_sub-newline-append [] t hs ht = ht
has_sub-newline-append (c ∷ s) t hs ht = ground (arith, has_sub-newline-append s t)
