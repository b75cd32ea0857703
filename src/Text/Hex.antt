-- ===== src/Text/Hex.antt =====
-- Characters as two hexadecimal digits: CharToHex and HexToChar of QuaServer/TypeTransform.h.
use modern_flux.Base.{
  ℕ, ◌+◌, ◌-◌, ◌*◌, ◌/◌, ◌%◌, ◌<◌, ◌≡◌, ◌&&◌, [], ◌∷◌, arith, ltb, leb, if◌then◌else◌, take,
}
use modern_flux.Base.Bytes.{Bytes}

-- MAPX
abbrev pub hex_digit : ℕ → ℕ
hex_digit n = if ltb n 10 then 48 + n else 55 + n

unfoldable pub char_to_hex : ℕ → Bytes
char_to_hex c = hex_digit (c / 16 % 16) ∷ hex_digit (c % 16) ∷ []

-- `toupper` of a byte, in the C locale.
abbrev pub to_upper : ℕ → ℕ
to_upper c = if leb 97 c && leb c 122 then c - 32 else c

-- The value of a digit, in an unsigned char.
unfoldable pub hex_value : ℕ → ℕ
hex_value c = let c1 = to_upper c in if leb 65 c1 then c1 - 55 else (c1 + 208) % 256

unfoldable pub hex_loop : Bytes → ℕ → ℕ
unfolding hex_value
hex_loop [] c = c
hex_loop (x ∷ s) c = hex_loop s ((c * 16 % 256 + hex_value x) % 256)

-- HexToChar: of at most two digits, as an unsigned char.
unfoldable pub hex_to_char : Bytes → ℕ
unfolding hex_loop
hex_to_char s = hex_loop (take 2 s) 0

hex_value-hex_digit : (n : ℕ) → n < 16 → hex_value (hex_digit n) ≡ n
unfolding hex_value
hex_value-hex_digit n h = ground arith

-- A byte is read back from its two digits.
pub hex_to_char-char_to_hex : (c : ℕ) → c < 256 → hex_to_char (char_to_hex c) ≡ c
unfolding hex_to_char char_to_hex
hex_to_char-char_to_hex c h =
    rw (hex_value-hex_digit (c / 16 % 16) (omega arith), hex_value-hex_digit (c % 16) (omega arith))
      (omega arith)
