-- ===== src/Network/Pattern.antt =====
-- The regular expression of src/monitor/networkMonitor/networkMonitor.cpp,
-- `IP\s+(\S+)\.(\d+)\s+>\s+(\S+)\.(\d+)`, searched as ECMAScript prescribes: the leftmost match, and
-- among those at one place the first in the order of backtracking, the longest repeats first.

use idsproject.Base.{
  Text, ℕ, ◌++◌, ltb, ◌==◌, Bool, not, Option, none, some, List, [], ◌∷◌, map, if◌then◌else◌,
  is_digit, is_space, digits_value,
}

-- `\s` is `is_space` and `\d` is `is_digit`. The ways to match some repeats of a class at the head of a text, longest first: what was read and
-- what is left.
unfoldable pub repeats : (ℕ → Bool) → Text → List (Text × Text)
repeats p [] = ([], []) ∷ []
repeats p (c ∷ s) =
    let longer = map (λ m. (c ∷ m.0, m.1)) (repeats p s) in
    if p c then longer ++ ([], c ∷ s) ∷ [] else ([], c ∷ s) ∷ []

-- One repeat at least (`+`).
unfoldable pub plus : (ℕ → Bool) → Text → List (Text × Text)
unfolding repeats
plus p [] = []
plus p (c ∷ s) = if p c then map (λ m. (c ∷ m.0, m.1)) (repeats p s) else []

-- A literal byte.
unfoldable pub byte : ℕ → Text → List Text
byte b [] = []
byte b (c ∷ s) = if c == b then s ∷ [] else []

pub record RawPacket : Type 0 where
  pub src_ip : Text
  pub src_port : Text
  pub dst_ip : Text
  pub dst_port : Text

infixl 5 ◌>>=◌
abbrev pub ◌>>=◌ : {A B : Type 0} → List A → (A → List B) → List B
m >>= f = flatten_map f m
  where
    flatten_map : {A B : Type 0} → (A → List B) → List A → List B
    flatten_map f [] = []
    flatten_map f (x ∷ xs) = f x ++ flatten_map f xs

-- All matches that begin at the head of the text, in the order of backtracking.
unfoldable pub match_here : Text → List RawPacket
unfolding plus byte is_digit is_space
match_here s = do
  s1 ← byte b'I' s
  s2 ← byte b'P' s1
  (_, s3) ← plus is_space s2
  (src_ip, s4) ← plus (λ c. not (is_space c)) s3
  s5 ← byte b'.' s4
  (src_port, s6) ← plus is_digit s5
  (_, s7) ← plus is_space s6
  s8 ← byte b'>' s7
  (_, s9) ← plus is_space s8
  (dst_ip, s10) ← plus (λ c. not (is_space c)) s9
  s11 ← byte b'.' s10
  (dst_port, _) ← plus is_digit s11
  record { src_ip = src_ip; src_port = src_port; dst_ip = dst_ip; dst_port = dst_port } ∷ []

-- The first match at this place, or else what the places behind it give.
unfoldable pub first_match : List RawPacket → Option RawPacket → Option RawPacket
first_match [] later = later
first_match (raw ∷ _) later = some raw

-- `std::regex_search`
unfoldable pub parse_line : Text → Option RawPacket
unfolding first_match
parse_line [] = none
parse_line (c ∷ s) = let later = parse_line s in first_match (match_here (c ∷ s)) later

-- `std::stoi` of a text of digits: `none` is `std::out_of_range`.
unfoldable pub stoi_text : Text → Option ℕ
unfolding digits_value
stoi_text s = let v = digits_value 0 s in if ltb v 2147483648 then some v else none

pub record Packet : Type 0 where
  pub src_ip : Text
  pub src_port : ℕ
  pub dst_ip : Text
  pub dst_port : ℕ

-- The two conversions, the source's port first.
unfoldable pub stoi : RawPacket → Option Packet
unfolding stoi_text
stoi raw = elim (stoi_text raw.src_port) [
  | none ↦ none
  | some src ↦ elim (stoi_text raw.dst_port) [
    | none ↦ none
    | some dst ↦
        some (record { src_ip = raw.src_ip; src_port = src; dst_ip = raw.dst_ip; dst_port = dst })
  ]
]
