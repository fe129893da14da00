-- ===== src/FileMonitor/Hex.antt =====
-- The lower-case hexadecimal text of a digest, as the stream manipulators print it
-- (`std::hex << std::setw(2) << std::setfill('0')`), byte by byte.
use idsproject.Base.{
  Text, ℕ, ◌+◌, ◌-◌, ◌*◌, ◌/◌, ◌%◌, ◌<◌, ltb, if◌then◌else◌, [], ◌∷◌, ◌≡◌, refl, arith, length, All,
}

unfoldable pub hex_digit : ℕ → ℕ
hex_digit n = if ltb n 10 then b'0' + n else (b'a' - 10) + n

unfoldable pub hex_text : Text → Text
hex_text [] = []
hex_text (b ∷ bytes) = hex_digit (b / 16) ∷ hex_digit (b % 16) ∷ hex_text bytes

abbrev pub AreBytes : Text → Type 0
AreBytes = All (λ b. b < 256)

hex_digit_injective : (m n : ℕ) → m < 16 → n < 16 → hex_digit m ≡ hex_digit n → m ≡ n
unfolding hex_digit
hex_digit_injective m n hm hn e = ground arith

length-hex_text : (bytes : Text) → length (hex_text bytes) ≡ 2 * length bytes
unfolding hex_text
length-hex_text [] = refl
length-hex_text (b ∷ bytes) = omega (arith, length-hex_text bytes)
