-- ===== src/Network/Parsing.antt =====
-- The pattern is sound: what it captures stands in the line, in order, and the ports are digits.
use idsproject.Base.{
  is_digit, is_space, Text, ℕ, ◌++◌, ◌==◌, ==_iff, Bool, true, not, Option, some, List, [], ◌∷◌,
  ◌≡◌, refl, ap, subst, All, map, Bool-cases, inl, inr, ◌⊎◌,
}
use idsproject.Network.Pattern.{
  RawPacket, repeats, plus, byte, match_here, first_match, parse_line, ◌>>=◌,
}

-- Bytes of the class, at least one.
abbrev pub IsSome : (ℕ → Bool) → Text → Type 0
IsSome p [] = ⊥
IsSome p (c ∷ s) = All (λ d. p d ≡ true) (c ∷ s)

-- The captures of the pattern at the head of a text, with what stands between them.
pub record Reads (raw : RawPacket) (s : Text) : Type 0 where
  pub gap1 : Text
  pub gap2 : Text
  pub gap3 : Text
  pub after : Text
  pub splits :
      s
      ≡ b'I'
        ∷ b'P'
        ∷ (gap1
            ++ (raw.src_ip
                ++ b'.'
                  ∷ (raw.src_port
                      ++ (gap2
                          ++ b'>' ∷ (gap3 ++ (raw.dst_ip ++ b'.' ∷ (raw.dst_port ++ after)))))))
  pub spaces : IsSome is_space gap1 × IsSome is_space gap2 × IsSome is_space gap3
  pub hosts : IsSome (λ c. not (is_space c)) raw.src_ip × IsSome (λ c. not (is_space c)) raw.dst_ip
  pub ports : IsSome is_digit raw.src_port × IsSome is_digit raw.dst_port

All-append : {A : Type 0} (P : A → Type 0) (xs ys : List A) → All P xs → All P ys → All P (xs ++ ys)
All-append P [] ys hx hy = hy
All-append P (x ∷ xs) ys hx hy = (hx.0, All-append P xs ys hx.1 hy)

All-map :
    {A B : Type 0} (P : A → Type 0) (Q : B → Type 0) (f : A → B) (xs : List A)
    → ((a : A) → P a → Q (f a))
    → All P xs
    → All Q (map f xs)
All-map P Q f [] h a = tt
All-map P Q f (x ∷ xs) h a = (h x a.0, All-map P Q f xs h a.1)

-- What holds of a match: it splits the text, and its part is of the class.
abbrev Splits : (ℕ → Bool) → Text → Text × Text → Type 0
Splits p s m = (s ≡ m.0 ++ m.1) × All (λ d. p d ≡ true) m.0

repeats-Splits : (p : ℕ → Bool) (s : Text) → All (Splits p s) (repeats p s)
unfolding repeats
repeats-Splits p [] = ((refl, tt), tt)
repeats-Splits p (c ∷ s) = elim (Bool-cases (p c)) [
  | inl yes_c ↦ rw yes_c (
      All-append (Splits p (c ∷ s)) _ _
        (All-map (Splits p s) (Splits p (c ∷ s)) (λ m. (c ∷ m.0, m.1)) (repeats p s)
          (λ m h. (ap (◌∷◌ c) h.0, (yes_c, h.1))) (repeats-Splits p s))
        ((refl, tt), tt))
  | inr not_c ↦ rw not_c ((refl, tt), tt)
]

plus-Splits : (p : ℕ → Bool) (s : Text) → All (λ m. (s ≡ m.0 ++ m.1) × IsSome p m.0) (plus p s)
unfolding plus
plus-Splits p [] = tt
plus-Splits p (c ∷ s) = elim (Bool-cases (p c)) [
  | inl yes_c ↦ rw yes_c (
      All-map (Splits p s) _ (λ m. (c ∷ m.0, m.1)) (repeats p s)
        (λ m h. (ap (◌∷◌ c) h.0, (yes_c, h.1))) (repeats-Splits p s))
  | inr not_c ↦ rw not_c tt
]

byte-head : (b : ℕ) (s : Text) → All (λ t. s ≡ b ∷ t) (byte b s)
unfolding byte
byte-head b [] = tt
byte-head b (c ∷ s) = elim (Bool-cases (c == b)) [
  | inl same ↦ rw same (ap (λ x. x ∷ s) ((==_iff c b).0 same), tt)
  | inr other ↦ rw other tt
]

All-bind :
    {A B : Type 0} (P : A → Type 0) (Q : B → Type 0) (m : List A) (f : A → List B)
    → All P m
    → ((a : A) → P a → All Q (f a))
    → All Q (m >>= f)
All-bind P Q [] f h k = tt
All-bind P Q (x ∷ xs) f h k = All-append Q (f x) _ (k x h.0) (All-bind P Q xs f h.1 k)

-- Every match of the pattern at a place reads what it says.
match_here-Reads : (s : Text) → All (λ raw. Reads raw s) (match_here s)
unfolding match_here
match_here-Reads s = All-bind _ _ (byte b'I' s) _ (byte-head b'I' s) λ s1 e1.
    All-bind _ _ (byte b'P' s1) _ (byte-head b'P' s1) λ s2 e2.
      All-bind _ _ (plus is_space s2) _ (plus-Splits is_space s2) λ m3 h3.
        All-bind _ _ (plus (λ c. not (is_space c)) m3.1) _
          (plus-Splits (λ c. not (is_space c)) m3.1)
          λ m4 h4. All-bind _ _ (byte b'.' m4.1) _ (byte-head b'.' m4.1) λ s5 e5.
            All-bind _ _ (plus is_digit s5) _ (plus-Splits is_digit s5) λ m6 h6.
              All-bind _ _ (plus is_space m6.1) _ (plus-Splits is_space m6.1) λ m7 h7.
                All-bind _ _ (byte b'>' m7.1) _ (byte-head b'>' m7.1) λ s8 e8.
                  All-bind _ _ (plus is_space s8) _ (plus-Splits is_space s8) λ m9 h9.
                    All-bind _ _ (plus (λ c. not (is_space c)) m9.1) _
                      (plus-Splits (λ c. not (is_space c)) m9.1)
                      λ m10 h10. All-bind _ _ (byte b'.' m10.1) _ (byte-head b'.' m10.1) λ s11 e11.
                        All-bind _ (λ raw. Reads raw s) (plus is_digit s11)
                          (λ m.
                            record {
                              src_ip = m4.0;
                              src_port = m6.0;
                              dst_ip = m10.0;
                              dst_port = m.0;
                            }
                            ∷ [])
                          (plus-Splits is_digit s11)
                          λ m12 h12. (
                            record {
                              gap1 = m3.0;
                              gap2 = m7.0;
                              gap3 = m9.0;
                              after = m12.1;
                              splits =
                                  cc (
                                    e1, e2, h3.0, h4.0, e5, h6.0, h7.0, e8, h9.0, h10.0, e11, h12.0,
                                  );
                              spaces = (h3.1, h7.1, h9.1);
                              hosts = (h4.1, h10.1);
                              ports = (h6.1, h12.1);
                            },
                            tt,
                          )

first_of_all : {A : Type 0} (P : A → Type 0) (x : A) (xs ys : List A) → All P ys → ys ≡ x ∷ xs → P x
first_of_all P x xs [] h e = absurd (cc)
first_of_all P x xs (y ∷ ys) h e = subst P (cc) h.0

first_match_cases :
    (ms : List RawPacket) (later : Option RawPacket) (raw : RawPacket)
    → first_match ms later ≡ some raw
    → ((rest : List RawPacket) × (ms ≡ raw ∷ rest)) ⊎ (later ≡ some raw)
unfolding first_match
first_match_cases [] later raw e = inr e
first_match_cases (m ∷ ms) later raw e = inl (ms, cc)

-- What the search finds stands in the line: some text, then `IP`, spaces, the source's address, a
-- dot and a port, spaces, `>`, spaces, the destination's address, a dot and a port, then the rest.
-- Both ports are digits.
pub parse_line_sound :
    (line : Text) {raw : RawPacket}
    → parse_line line ≡ some raw
    → (before : Text) × (rest : Text) × (line ≡ before ++ rest) × Reads raw rest
unfolding parse_line
parse_line_sound [] e = absurd (cc)
parse_line_sound (c ∷ s) {raw} e =
    elim (first_match_cases (match_here (c ∷ s)) (parse_line s) raw e) [
      | inl here ↦ (
        [],
        c ∷ s,
        refl,
        first_of_all (λ r. Reads r (c ∷ s)) raw here.0 _ (match_here-Reads (c ∷ s)) here.1,
      )
      | inr later ↦
          let (before, rest, splits, reads) = parse_line_sound s later in
          (c ∷ before, rest, ap (◌∷◌ c) splits, reads)
    ]
