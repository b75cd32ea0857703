-- ===== src/Clock/Distance.antt =====
-- The clock in parts of a second: timeval_subtract, GetMSTime and GetCurUSecTimeString of
-- QuaServer/TimeAPI.cpp, and QuaServer/TimeDelta.h.
use modern_flux.Base.{
  ℕ, ◌+◌, ◌-◌, ◌*◌, ◌/◌, ◌%◌, ◌^◌, ◌≤◌, ◌<◌, ◌≡◌, arith, if◌then◌else◌, ◌∷◌, ◌++◌, ap, ◌∙◌,
}
use modern_flux.Base.Int.{ℤ, pos, pos_part, positive, ◌+ℤ◌, ◌-ℤ◌, ◌*ℤ◌}
use modern_flux.Base.Word.{i32, i64, i64_fits}
use modern_flux.Base.Bytes.{Bytes}
use modern_flux.Text.Number.{to_string}

pub record Timeval : Type 0 where
  pub tv_sec : ℕ
  pub tv_usec : ℕ

-- GetMSTime, in an int64_t.
unfoldable pub get_ms_time : Timeval → ℕ
get_ms_time tv = tv.tv_sec * 1000 + tv.tv_usec / 1000

-- GetMicroSecond
unfoldable pub get_micro_second : Timeval → ℕ
get_micro_second tv = tv.tv_sec * 1000 * 1000 + tv.tv_usec

-- GetCurUSecTimeString
unfoldable pub get_cur_usec_time_string : Timeval → Bytes
get_cur_usec_time_string tv = to_string (pos tv.tv_sec) ++ (32 ∷ to_string (pos tv.tv_usec))

-- An ActTimeDelta that lives from `begin` to `end`, on the number it refers to.
unfoldable pub act_time_delta : Timeval → Timeval → ℤ → ℤ
unfolding get_micro_second
act_time_delta begin end delta =
    i64 (delta +ℤ (pos (get_micro_second end) -ℤ pos (get_micro_second begin)))

-- TIME_EXPONENT
abbrev time_exponent : ℕ
time_exponent = 1000000

-- What the call returns, and what is in `result` after it. `iDelta` is an int.
unfoldable pub timeval_subtract : Timeval → Timeval → Timeval → ℤ × Timeval
timeval_subtract result x y =
    let seconds = (pos y.tv_sec -ℤ pos x.tv_sec) *ℤ pos time_exponent in
    let delta = i32 (seconds +ℤ (pos y.tv_usec -ℤ pos x.tv_usec)) in
    if positive delta
    then (
      pos 1,
      record { tv_sec = pos_part delta / time_exponent; tv_usec = pos_part delta % time_exponent },
    )
    else (pos 0, result)

abbrev micro : Timeval → ℕ
micro t = t.tv_sec * 1000000 + t.tv_usec

delta-pos :
    (x y : Timeval) (d : ℕ)
    → micro y ≡ micro x + d
    → (pos y.tv_sec -ℤ pos x.tv_sec) *ℤ pos 1000000 +ℤ (pos y.tv_usec -ℤ pos x.tv_usec) ≡ pos d
unfolding ◌-ℤ◌ ◌+ℤ◌ ◌*ℤ◌
delta-pos x y d h = ground (arith, h)

-- For a moment `y` that is `d` microseconds after `x`: the distance is found while it is below 2^31,
-- about 36 minutes; from there to 2^32 the call returns 0 and leaves `result`, as if no time had
-- passed.
timeval_subtract-distance :
    (result x y : Timeval) (d : ℕ)
    → micro y ≡ micro x + d
    → (0 < d
        → d < 2 ^ 31
        → ((timeval_subtract result x y).0 ≡ pos 1)
          × (micro (timeval_subtract result x y).1 ≡ d)
          × ((timeval_subtract result x y).1.tv_usec < 1000000))
      × (2 ^ 31 ≤ d → d < 2 ^ 32 → timeval_subtract result x y ≡ (pos 0, result))
unfolding timeval_subtract i32
timeval_subtract-distance result x y d h = let e = delta-pos x y d h in rw e (ground arith)

-- The two clocks agree, for microseconds below a million.
get_ms_time-get_micro_second : (tv : Timeval) → get_ms_time tv ≡ get_micro_second tv / 1000
unfolding get_ms_time get_micro_second
get_ms_time-get_micro_second tv = omega arith

-- A measurement that runs forwards adds its time, as long as the sum fits.
act_time_delta-adds :
    (begin end : Timeval) (delta : ℕ)
    → get_micro_second begin ≤ get_micro_second end
    → delta + get_micro_second end < 2 ^ 63
    → act_time_delta begin end (pos delta)
      ≡ pos (delta + (get_micro_second end - get_micro_second begin))
unfolding act_time_delta ◌+ℤ◌ ◌-ℤ◌
act_time_delta-adds begin end delta h fits =
    let b = get_micro_second begin in
    let e = get_micro_second end in
    let sum : pos delta +ℤ (pos e -ℤ pos b) ≡ pos (delta + (e - b)) = ground (arith, h) in
    ap i64 sum ∙ i64_fits (pos (delta + (e - b))) (omega (arith, fits), omega arith)
