-- ===== src/Base/Streams.antt =====
-- What `istream >> x` reads from a text in the classic locale: the value and what is left, or `none`
-- where the stream fails.
use Prim.Native.Nat.{ℕ, ◌+◌, ◌-◌, ◌*◌}
use mathlib.Core.Bool.{Bool, true, false, ◌&&◌, ◌||◌, not}
use mathlib.Core.Option.{Option, none, some}
use mathlib.Core.List.{[], ◌∷◌}
use idsproject.Base.Logic.{if◌then◌else◌, ltb, leb, ◌==◌}
use idsproject.Base.Ints.{ℤ, pos, negsuc}
use idsproject.Base.Texts.{Text, trim_left}

-- `std::isspace`
unfoldable pub is_space : ℕ → Bool
is_space c = c == b' ' || (leb 9 c && leb c 13)

unfoldable pub is_digit : ℕ → Bool
is_digit c = leb b'0' c && leb c b'9'

-- The longest head of bytes of the class, and the rest.
unfoldable pub span : (ℕ → Bool) → Text → Text × Text
span p [] = ([], [])
span p (c ∷ s) = let (head, rest) = span p s in if p c then (c ∷ head, rest) else ([], c ∷ s)

-- The value of a text of digits.
unfoldable pub digits_value : ℕ → Text → ℕ
digits_value acc [] = acc
digits_value acc (c ∷ s) = digits_value (acc * 10 + (c - b'0')) s

-- Whether there is a minus, and what stands behind a sign.
sign_of : Text → Bool × Text
sign_of [] = (false, [])
sign_of (c ∷ s) = if c == b'-' then (true, s) else if c == b'+' then (false, s) else (false, c ∷ s)

-- The number of a sign and a value in the range of `int`.
signed : Bool → ℕ → Option ℤ
signed true v =
    if v == 0 then some (pos 0) else if ltb 2147483648 v then none else some (negsuc (v - 1))
signed false v = if ltb v 2147483648 then some (pos v) else none

number : Bool → Text → Option ℤ
unfolding signed digits_value
number minus [] = none
number minus (d ∷ ds) = signed minus (digits_value 0 (d ∷ ds))

unfoldable pub read_int : Text → Option (ℤ × Text)
unfolding sign_of span number is_space is_digit
read_int s =
    let (minus, t) = sign_of (trim_left is_space s) in
    let (digits, rest) = span is_digit t in
    elim (number minus digits) [ none ↦ none | some i ↦ some (i, rest) ]

word_of : Text × Text → Option (Text × Text)
word_of ([], rest) = none
word_of (c ∷ word, rest) = some (c ∷ word, rest)

-- A `std::string`: the next bytes that are no white space.
unfoldable pub read_word : Text → Option (Text × Text)
unfolding word_of span is_space
read_word s = word_of (span (λ c. not (is_space c)) (trim_left is_space s))
