-- ===== src/Clock.antt =====
-- The arithmetic on times of QuaServer/TimeAPI.cpp: In5Minutes, InOneDay, InOneHour,
-- GetExpiredSecond_5, GetExpiredSecond_1day, GetCurDayTime and GetWeekIndex, on the fields that the
-- system's calendar gives.
pub mod Slices
pub mod Distance
use modern_flux.Base.{ℕ, ◌+◌, ◌-◌, ◌*◌, ◌%◌, ◌≤◌, ◌<◌, ◌≡◌, Bool, arith, ◌==◌, if◌then◌else◌}

-- The fields of `struct tm` that are used.
pub record Tm : Type 0 where
  pub tm_sec : ℕ
  pub tm_min : ℕ
  pub tm_hour : ℕ
  pub tm_wday : ℕ

-- A calendar's fields, without leap seconds.
abbrev pub IsTm : Tm → Type 0
IsTm t = (t.tm_sec < 60) × (t.tm_min < 60) × (t.tm_hour < 24) × (t.tm_wday < 7)

abbrev same_slot : ℕ → ℕ → ℕ → Bool
same_slot n t1 t2 = (t1 - t1 % n) == (t2 - t2 % n)

unfoldable pub in_5_minutes : ℕ → ℕ → Bool
in_5_minutes t1 t2 = same_slot 300 t1 t2

unfoldable pub in_one_day : ℕ → ℕ → Bool
in_one_day t1 t2 = same_slot 86400 t1 t2

unfoldable pub in_one_hour : ℕ → ℕ → Bool
in_one_hour t1 t2 = same_slot 3600 t1 t2

unfoldable pub get_cur_day_time : Tm → ℕ
get_cur_day_time t = t.tm_hour * 3600 + t.tm_min * 60 + t.tm_sec

unfoldable pub get_expired_second_5 : Tm → ℕ
get_expired_second_5 t = (5 - t.tm_min % 5) * 60 - t.tm_sec

unfoldable pub get_expired_second_1day : Tm → ℕ
get_expired_second_1day t = 86400 - t.tm_hour * 3600 - t.tm_min * 60 - t.tm_sec

-- GetWeekIndex: Monday is 0.
unfoldable pub get_week_index : Tm → ℕ
get_week_index t = (if 0 == t.tm_wday then 7 else t.tm_wday) - 1

-- The two remaining times lie in their period, and the day's is what GetCurDayTime leaves of it.
expired_bounds :
    (t : Tm)
    → IsTm t
    → (0 < get_expired_second_5 t)
      × (get_expired_second_5 t ≤ 300)
      × (get_expired_second_1day t + get_cur_day_time t ≡ 86400)
      × (get_week_index t < 7)
unfolding get_expired_second_5 get_expired_second_1day get_cur_day_time get_week_index
expired_bounds t h = ground arith
