-- ===== src/Text/Number.antt =====
-- Numbers as text: the conversions of QuaServer/StringProcess.cpp and QuaServer/TypeTransform.h, on the
-- system's `strtoll`, `strtoull`, `strtoul` and `atoi` in base 10, and on `snprintf` and `<<` for integers.
pub mod Decimal
use modern_flux.Base.{
  ℕ, zero, suc, ◌+◌, ◌-◌, ◌*◌, ◌^◌, Bool, true, false, ◌&&◌, ◌||◌, List, [], ◌∷◌, ltb, leb, ◌==◌,
  if◌then◌else◌,
}
use modern_flux.Base.Int.{ℤ, pos, negsuc}
use modern_flux.Base.Word.{mod32, mod64, i32, u32, u64}
use modern_flux.Base.Bytes.{Bytes}
use modern_flux.Text.{digits}

abbrev pub is_digit : ℕ → Bool
is_digit c = leb 48 c && leb c 57

-- `isspace` in the C locale.
abbrev pub is_space : ℕ → Bool
is_space c = (c == 32) || (leb 9 c && leb c 13)

-- The digits at the start of a text, behind a number `n`.
unfoldable pub decimal : ℕ → Bytes → ℕ
decimal n [] = n
decimal n (c ∷ s) = elim (is_digit c) [ true ↦ decimal (n * 10 + (c - 48)) s | false ↦ n ]

unfoldable pub skip_spaces : Bytes → Bytes
skip_spaces [] = []
skip_spaces (c ∷ s) = let rest = skip_spaces s in if is_space c then rest else c ∷ s

-- `-n` as an integer.
abbrev pub minus : ℕ → ℤ
minus zero = pos 0
minus (suc n) = negsuc n

-- A sign, then digits, without a limit.
unfoldable pub signed : Bytes → ℤ
unfolding decimal
signed [] = pos 0
signed (c ∷ s) =
    if c == 45
    then minus (decimal 0 s)
    else if c == 43
    then pos (decimal 0 s)
    else pos (decimal 0 (c ∷ s))

-- Saturation at the limits of a long long.
abbrev pub saturate : ℤ → ℤ
saturate (pos n) = if ltb n (2 ^ 63) then pos n else pos (2 ^ 63 - 1)
saturate (negsuc n) = if ltb n (2 ^ 63) then negsuc n else negsuc (2 ^ 63 - 1)

unfoldable pub strtoll : Bytes → ℤ
unfolding signed skip_spaces
strtoll s = saturate (signed (skip_spaces s))

-- `(int) strtol(s, NULL, 10)`: atoi, StringToInt.
unfoldable pub atoi : Bytes → ℤ
unfolding strtoll
atoi s = i32 (strtoll s)

-- A number from 2^64 on becomes 2^64 - 1, also behind a sign; else `-n` wraps.
abbrev pub unsigned : ℤ → ℕ
unsigned (pos n) = if ltb n mod64 then n else mod64 - 1
unsigned (negsuc n) = if ltb (suc n) mod64 then mod64 - suc n else mod64 - 1

unfoldable pub strtoull : Bytes → ℕ
unfolding signed skip_spaces
strtoull s = unsigned (signed (skip_spaces s))

-- TypeTransform::ToString, ToString, ULToString and the others: an integer as `<<` and `%d` print it.
unfoldable pub to_string : ℤ → Bytes
to_string (pos n) = digits 20 n
to_string (negsuc n) = 45 ∷ digits 20 (suc n)

-- ToUINT64 of StringProcess.cpp.
unfoldable pub to_uint64 : Bytes → ℕ
unfolding strtoll
to_uint64 s = u64 (strtoll s)

-- ToUINT32 of StringProcess.cpp.
unfoldable pub to_uint32 : Bytes → ℕ
unfolding strtoll
to_uint32 s = let tmp = u64 (strtoll s) in if leb 4294967295 tmp then 4294967295 else tmp

-- TypeTransform::ToUINT64 and TypeTransform::ToUINT32.
unfoldable pub transform_to_uint64 : Bytes → ℕ
unfolding strtoull
transform_to_uint64 s = strtoull s

unfoldable pub transform_to_uint32 : Bytes → ℕ
unfolding strtoull
transform_to_uint32 s = u32 (pos (strtoull s))
