-- ===== src/Text/Number/Decimal.antt =====
-- Printed numbers are read back.
use modern_flux.Base.{
  ℕ, zero, suc, ◌+◌, ◌-◌, ◌*◌, ◌/◌, ◌%◌, ◌^◌, ◌<◌, ◌≤◌, ◌≡◌, refl, ap, sym, ◌∙◌, true, false, [],
  ◌∷◌, ◌++◌, arith, ltb, ◌==◌, if◌then◌else◌, Bool-cases, inl, inr,
}
use mathlib.Core.List.{append_assoc, append-nil}
use modern_flux.Base.Int.{pos, negsuc}
use modern_flux.Base.Word.{mod32, u32, u64}
use modern_flux.Base.Bytes.{Bytes}
use modern_flux.Text.{digits}
use modern_flux.Text.Number.{
  is_digit, is_space, decimal, skip_spaces, signed, strtoll, to_string, to_uint32, strtoull,
  transform_to_uint32,
}

-- One digit more.
pub decimal-digit :
    (n k : ℕ) (rest : Bytes) → k < 10 → decimal n ((k + 48) ∷ rest) ≡ decimal (n * 10 + k) rest
unfolding decimal
decimal-digit n k rest h =
    let digit : is_digit (k + 48) ≡ true = ground arith in
    rw (digit, decimal) (ap (λ (m : ℕ). decimal m rest) (omega arith))

-- The digits of `n` in front of a text are read as `n`.
pub decimal-digits :
    (fuel n : ℕ) (rest : Bytes) → n < 10 ^ fuel → decimal 0 (digits fuel n ++ rest) ≡ decimal n rest
unfolding digits
decimal-digits zero n rest h = ap (λ (m : ℕ). decimal m rest) (omega arith)
decimal-digits (suc fuel) n rest h = elim (Bool-cases (ltb n 10)) [
  | inl small ↦
      rw small
        (decimal-digit 0 n rest (ground arith) ∙ ap (λ (m : ℕ). decimal m rest) (omega arith))
  | inr large ↦
      let last = (n % 10 + 48) ∷ [] in
      let tenth : n / 10 < 10 ^ fuel = grind arith in
      rw large (
        ap (decimal 0) (append_assoc (digits fuel (n / 10)) last rest)
        ∙ decimal-digits fuel (n / 10) (last ++ rest) tenth
        ∙ decimal-digit (n / 10) (n % 10) rest (omega arith)
        ∙ ap (λ (m : ℕ). decimal m rest) (omega arith))
]

-- A digit or a dot in front, so neither a space nor a sign.
abbrev pub StartsPlain : Bytes → Type 0
StartsPlain [] = Unit {0}
StartsPlain (c ∷ s) = (46 ≤ c) × (c < 58)

pub first-append : (s t : Bytes) → StartsPlain s → StartsPlain t → StartsPlain (s ++ t)
first-append [] t p q = q
first-append (c ∷ s) t p q = p

pub digits-StartsPlain : (fuel n : ℕ) → StartsPlain (digits fuel n)
unfolding digits
digits-StartsPlain zero n = tt
digits-StartsPlain (suc fuel) n = elim (Bool-cases (ltb n 10)) [
  | inl small ↦ rw small (omega arith, ground arith)
  | inr large ↦ rw large (
      first-append (digits fuel (n / 10)) ((n % 10 + 48) ∷ []) (digits-StartsPlain fuel (n / 10))
        (omega arith, omega arith))
]

-- No space and no sign in front.
pub signed-plain : (s : Bytes) → StartsPlain s → signed (skip_spaces s) ≡ pos (decimal 0 s)
unfolding signed skip_spaces decimal
signed-plain [] h = refl
signed-plain (c ∷ s) h =
    let no_space : is_space c ≡ false = ground arith in
    let no_minus : c == 45 ≡ false = ground arith in
    let no_plus : c == 43 ≡ false = ground arith in rw (no_space, no_minus, no_plus) refl

pub decimal-all : (fuel n : ℕ) → n < 10 ^ fuel → decimal 0 (digits fuel n) ≡ n
unfolding decimal
decimal-all fuel n h =
    ap (decimal 0) (sym (append-nil (digits fuel n))) ∙ decimal-digits fuel n [] h

signed-to_string : (n : ℕ) → n < 10 ^ 20 → signed (skip_spaces (to_string (pos n))) ≡ pos n
unfolding to_string
signed-to_string n h =
    signed-plain (digits 20 n) (digits-StartsPlain 20 n) ∙ ap pos (decimal-all 20 n h)

signed-to_string_negative :
    (n : ℕ) → suc n < 10 ^ 20 → signed (skip_spaces (to_string (negsuc n))) ≡ negsuc n
unfolding to_string signed skip_spaces
signed-to_string_negative n h = rw (decimal-all 20 (suc n) h) refl

-- ToUINT32 reads a printed number below 2^32 back, larger ones up to 2^63 as 2^32 - 1, and every
-- negative number down to -2^63 as 2^32 - 1 too. The version of TypeTransform keeps the low bits of
-- either.
pub to_uint32-to_string :
    (n : ℕ)
    → n < 2 ^ 63
    → (to_uint32 (to_string (pos n)) ≡ (if ltb n mod32 then n else mod32 - 1))
      × (to_uint32 (to_string (negsuc n)) ≡ mod32 - 1)
      × (transform_to_uint32 (to_string (pos n)) ≡ n % mod32)
      × (transform_to_uint32 (to_string (negsuc n)) ≡ mod32 - 1 - n % mod32)
unfolding to_uint32 transform_to_uint32 strtoll strtoull u64 u32
to_uint32-to_string n h =
    let up = signed-to_string n (omega arith) in
    let down = signed-to_string_negative n (omega arith) in
    (rw up (ground arith), rw down (ground arith), rw up (ground arith), rw down (ground arith))
