-- ===== src/Clock/Slices.antt =====
-- GetMinTime, GetNMinTime and Get5MinTime of QuaServer/TimeAPI.cpp: times as texts that are rounded down to
-- a slice of minutes.
use modern_flux.Base.{
  ℕ, suc, ◌+◌, ◌-◌, ◌*◌, ◌/◌, ◌%◌, ◌^◌, ◌<◌, ◌≡◌, ◌≢◌, refl, ap, ◌∙◌, true, false, Option, none,
  some, List, [], ◌∷◌, ◌++◌, arith, ltb, ◌==◌, if◌then◌else◌, length, length-append, Bool-cases,
  inl, inr,
}
use mathlib.Core.Option
use native.Mathlib.Nat.{mod-add-div, mul-mod_right}
use modern_flux.Base.Int.{ℤ, pos, negsuc, pos_part, neg_part, ◌-ℤ◌}
use modern_flux.Base.Word.{i32_fits}
use modern_flux.Base.Bytes.{Bytes}
use modern_flux.Text.{split_string, pieces, digits}
use modern_flux.Clock.{Tm}
use modern_flux.Text.Join.{IsFree, IsFree-append, split_string-two, split_string-three}
use modern_flux.Text.Number.{atoi, strtoll, minus, decimal}
use modern_flux.Text.Number.Decimal.{signed-plain, decimal-digit}

-- A number modulo a slice, as `%` of two int computes it: the sign is that of the number.
abbrev remainder : ℤ → ℕ → ℤ
remainder (pos n) k = pos (n % k)
remainder (negsuc n) k = minus (suc n % k)

-- `min - min % slice`; `none` is a division by zero.
unfoldable pub round_down : ℤ → ℤ → Option ℤ
round_down min slice =
    let k = pos_part slice + neg_part slice in
    if 0 == k then none else some (min -ℤ remainder min k)

-- `%02d`
unfoldable pub two_digits : ℤ → Bytes
two_digits (pos n) = if ltb n 10 then 48 ∷ (n + 48) ∷ [] else digits 10 n
two_digits (negsuc n) = 45 ∷ digits 10 (suc n)

-- What the rounded minute makes of the text.
abbrev write_time : Bytes → Bytes → Option ℤ → Option Bytes
write_time day hour none = none
write_time day hour (some min) =
    some (day ++ (32 ∷ hour ++ (58 ∷ two_digits min ++ (58 ∷ 48 ∷ 48 ∷ []))))

abbrev by_time : Bytes → Bytes → ℤ → List Bytes → Option Bytes
by_time slice_time day slice (hour ∷ min ∷ sec ∷ []) =
    write_time day hour (round_down (atoi min) slice)
by_time slice_time day slice _ = some slice_time

abbrev by_day : Bytes → ℤ → List Bytes → Option Bytes
by_day slice_time slice (day ∷ time ∷ []) =
    by_time slice_time day slice (pieces (split_string time (58 ∷ [])))
by_day slice_time slice _ = some slice_time

-- GetMinTime: what it leaves in `sliceTime`; `none` is a division by zero.
unfoldable pub get_min_time : Bytes → Bytes → ℤ → Option Bytes
unfolding round_down two_digits
get_min_time str_time slice_time slice =
    by_day slice_time slice (pieces (split_string str_time (32 ∷ [])))

-- Get5MinTime, with the day and the hour as `strftime` writes them.
unfoldable pub get_5_min_time : Bytes → Tm → Bytes
unfolding two_digits
get_5_min_time hour t = hour ++ two_digits (pos (t.tm_min - t.tm_min % 5))

-- GetNMinTime, on what strtotime and timetodate make of the format; `none` is a division by zero.
unfoldable pub get_n_min_time : (Bytes → ℤ) → (ℤ → Bytes) → Bytes → ℤ → Option Bytes
unfolding round_down
get_n_min_time strtotime timetodate str_time slice =
    Option.map timetodate (round_down (strtotime str_time) slice)

-- A text of a day, an hour, a minute and a second.
abbrev pub time_text : Bytes → Bytes → Bytes → Bytes → Bytes
time_text day hour min sec = day ++ (32 ∷ hour ++ (58 ∷ min ++ (58 ∷ sec)))

-- A part of such a text.
pub record IsField (s : Bytes) : Type 0 where
  pub some_byte : 0 < length s
  pub no_space : IsFree 32 s
  pub no_colon : IsFree 58 s

one_digit : (fuel n : ℕ) → ltb n 10 ≡ true → digits (suc fuel) n ≡ (n + 48) ∷ []
unfolding digits
one_digit fuel n h = rw h refl

more_digits :
    (fuel n : ℕ)
    → ltb n 10 ≡ false
    → digits (suc fuel) n ≡ digits fuel (n / 10) ++ (n % 10 + 48) ∷ []
unfolding digits
more_digits fuel n h = rw h refl

two_digits-tens : (n : ℕ) → n < 100 → two_digits (pos n) ≡ (n / 10 + 48) ∷ (n % 10 + 48) ∷ []
unfolding two_digits
two_digits-tens n h = elim (Bool-cases (ltb n 10)) [
  | inl small ↦
      let zero_tens : n / 10 ≡ 0 = ground arith in
      let same : n % 10 ≡ n = ground arith in rw (small, zero_tens, same) refl
  | inr large ↦
      let tens : ltb (n / 10) 10 ≡ true = ground arith in
      rw (large, more_digits 9 n large, one_digit 8 (n / 10) tens) refl
]

two_digits-IsField : (n : ℕ) → n < 60 → IsField (two_digits (pos n))
two_digits-IsField n h = rw (two_digits-tens n (omega arith)) (record {
  some_byte = omega arith;
  no_space = ((λ e. absurd (omega (arith, e))), ((λ e. absurd (omega (arith, e))), tt));
  no_colon = ((λ e. absurd (omega (arith, e))), ((λ e. absurd (omega (arith, e))), tt));
})

atoi-two_digits : (n : ℕ) → n < 60 → atoi (two_digits (pos n)) ≡ pos n
unfolding atoi strtoll decimal
atoi-two_digits n h =
    let a : ℕ = n / 10 in
    let b : ℕ = n % 10 in
    let text = (a + 48) ∷ (b + 48) ∷ [] in
    let read = signed-plain text (omega arith, omega arith) in
    let value : decimal 0 text ≡ n =
      decimal-digit 0 a ((b + 48) ∷ []) (omega arith)
      ∙ decimal-digit (0 * 10 + a) b [] (omega arith)
      ∙ omega arith in
    rw (two_digits-tens n (omega arith), read, value)
      (let fits : ltb n (2 ^ 63) ≡ true = ground arith in
        rw fits (i32_fits (pos n) (omega arith, omega arith)))

round_down-pos : (n k : ℕ) → 0 < k → round_down (pos n) (pos k) ≡ some (pos (n - n % k))
unfolding round_down ◌-ℤ◌
round_down-pos n k h = ground arith

zeros-IsField : IsField (48 ∷ 48 ∷ [])
zeros-IsField = record {
  some_byte = omega arith;
  no_space = ((λ e. absurd (omega (arith, e))), ((λ e. absurd (omega (arith, e))), tt));
  no_colon = ((λ e. absurd (omega (arith, e))), ((λ e. absurd (omega (arith, e))), tt));
}

colon_not_space : (n : ℕ) → n ≡ 58 → n ≢ 32
colon_not_space n h e = absurd (omega (arith, e, h))

-- The parts of the text are found again.
get_min_time-text :
    (day hour sec old : Bytes) (n k : ℕ)
    → IsField day
    → IsField hour
    → IsField sec
    → n < 60
    → 0 < k
    → get_min_time (time_text day hour (two_digits (pos n)) sec) old (pos k)
      ≡ some (time_text day hour (two_digits (pos (n - n % k))) (48 ∷ 48 ∷ []))
unfolding get_min_time
get_min_time-text day hour sec old n k d h s small some_k =
    let min = two_digits (pos n) in
    let m = two_digits-IsField n small in
    let time = hour ++ (58 ∷ min ++ (58 ∷ sec)) in
    let free : IsFree 32 time = IsFree-append 32 hour _ h.no_space (
      colon_not_space 58 refl,
      IsFree-append 32 min _ m.no_space (colon_not_space 58 refl, s.no_space),
    ) in
    let some_time : 0 < length time =
      omega (arith, length-append hour (58 ∷ min ++ (58 ∷ sec)), h.some_byte) in
    let two = split_string-two 32 day time d.no_space free d.some_byte some_time in
    let three =
      split_string-three 58 hour min sec h.no_colon m.no_colon s.no_colon h.some_byte m.some_byte
        s.some_byte in
    rw (two, three, atoi-two_digits n small, round_down-pos n k some_k) refl

-- A slice that begins at `m` begins there.
slice_start : (n k : ℕ) → n - n % k - (n - n % k) % k ≡ n - n % k
slice_start n k =
    let start : n - n % k ≡ k * (n / k) = omega (arith, mod-add-div n k) in
    rw start (omega (arith, mul-mod_right k (n / k)))

-- A time of day with a minute below 60, which is written with two digits, and other parts that are
-- not empty and have neither a space nor a colon, is rounded down to the last slice before it, for
-- a slice above 0, with the seconds set to 0; rounding the result again leaves it.
pub get_min_time-slice :
    (day hour sec old : Bytes) (n k : ℕ)
    → IsField day
    → IsField hour
    → IsField sec
    → n < 60
    → 0 < k
    → let rounded = time_text day hour (two_digits (pos (n - n % k))) (48 ∷ 48 ∷ []) in
      (get_min_time (time_text day hour (two_digits (pos n)) sec) old (pos k) ≡ some rounded)
      × (get_min_time rounded old (pos k) ≡ some rounded)
get_min_time-slice day hour sec old n k d h s small some_k =
    let m : ℕ = n - n % k in
    (
      get_min_time-text day hour sec old n k d h s small some_k,
      get_min_time-text day hour (48 ∷ 48 ∷ []) old m k d h zeros-IsField (omega arith) some_k
          ∙ ap (λ (j : ℕ). some (time_text day hour (two_digits (pos j)) (48 ∷ 48 ∷ [])))
              (slice_start n k),
    )

-- The same with GetNMinTime, where strtotime reads what timetodate writes.
get_n_min_time-slice :
    (strtotime : Bytes → ℤ) (timetodate : ℤ → Bytes) (str_time : Bytes) (n k : ℕ)
    → ((t : ℤ) → strtotime (timetodate t) ≡ t)
    → strtotime str_time ≡ pos n
    → 0 < k
    → let rounded = timetodate (pos (n - n % k)) in
      (get_n_min_time strtotime timetodate str_time (pos k) ≡ some rounded)
      × (get_n_min_time strtotime timetodate rounded (pos k) ≡ some rounded)
unfolding get_n_min_time
get_n_min_time-slice strtotime timetodate str_time n k back reads some_k = (
  rw (reads, round_down-pos n k some_k) refl,
  rw (back (pos (n - n % k)), round_down-pos (n - n % k) k some_k, slice_start n k) refl,
)
