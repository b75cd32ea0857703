-- ===== src/Base/Word.antt =====
-- Machine words. An unsigned word is a number below its modulus; a signed one is an integer in its
-- range. A conversion keeps the low bits, and so does an overflow of a signed type here.
use modern_flux.Base.{ℕ, ◌-◌, ◌%◌, ◌^◌, ◌≤◌, ◌<◌, ◌≡◌, arith, ltb, if◌then◌else◌}
use modern_flux.Base.Int.{ℤ, pos, negsuc, pos_part, neg_part}

abbrev pub mod32 : ℕ
mod32 = 2 ^ 32

abbrev pub mod64 : ℕ
mod64 = 2 ^ 64

-- Conversion to uint32_t and to uint64_t.
unfoldable pub u32 : ℤ → ℕ
u32 (pos n) = n % mod32
u32 (negsuc n) = mod32 - 1 - n % mod32

unfoldable pub u64 : ℤ → ℕ
u64 (pos n) = n % mod64
u64 (negsuc n) = mod64 - 1 - n % mod64

-- Conversion to int32_t and to int64_t.
unfoldable pub i32 : ℤ → ℤ
unfolding u32
i32 z = if ltb (u32 z) (2 ^ 31) then pos (u32 z) else negsuc (mod32 - 1 - u32 z)

unfoldable pub i64 : ℤ → ℤ
unfolding u64
i64 z = if ltb (u64 z) (2 ^ 63) then pos (u64 z) else negsuc (mod64 - 1 - u64 z)

abbrev pub IsI32 : ℤ → Type 0
IsI32 z = (pos_part z < 2 ^ 31) × (neg_part z ≤ 2 ^ 31)

abbrev pub IsI64 : ℤ → Type 0
IsI64 z = (pos_part z < 2 ^ 63) × (neg_part z ≤ 2 ^ 63)

-- A value that fits is kept.
pub i32_fits : (z : ℤ) → IsI32 z → i32 z ≡ z
unfolding i32
i32_fits (pos n) h = ground arith
i32_fits (negsuc n) h = ground arith

pub i64_fits : (z : ℤ) → IsI64 z → i64 z ≡ z
unfolding i64
i64_fits (pos n) h = ground arith
i64_fits (negsuc n) h = ground arith

pub i32-IsI32 : (z : ℤ) → IsI32 (i32 z)
unfolding i32
i32-IsI32 (pos n) = ground arith
i32-IsI32 (negsuc n) = ground arith

pub u32-lt : (z : ℤ) → u32 z < mod32
unfolding u32
u32-lt (pos n) = omega arith
u32-lt (negsuc n) = omega arith

pub u32_fits : (n : ℕ) → n < mod32 → u32 (pos n) ≡ n
unfolding u32
u32_fits n h = omega arith
