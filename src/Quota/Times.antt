-- ===== src/Quota/Times.antt =====
-- GetTimeKey of QuaServer/ServiceQua.cpp: a minute is cut into six slots of ten seconds.
use modern_flux.Base.{ℕ, ◌+◌, ◌-◌, ◌*◌, ◌/◌, ◌%◌, ◌≤◌, ◌<◌, ◌≡◌, ◌≢◌, ◌⊎◌, arith}

abbrev pub num_per_min : ℕ
num_per_min = 6

abbrev pub num_per_index : ℕ
num_per_index = 10

-- `timekey` and `index` for a time that is not negative.
unfoldable pub get_time_key : ℕ → ℕ × ℕ
get_time_key ttime =
    let left = ttime % 60 in
    let index = left / num_per_index in
    let base = ttime - left in (base + index * num_per_index, index)

-- The key is the start of the ten seconds that the time lies in, and the index is a slot.
pub get_time_key_bounds :
    (t : ℕ)
    → ((get_time_key t).0 ≤ t)
      × (t < (get_time_key t).0 + 10)
      × ((get_time_key t).0 % 10 ≡ 0)
      × ((get_time_key t).1 < 6)
unfolding get_time_key
get_time_key_bounds t = omega arith

-- The slot is a function of the key alone, and two keys of one slot are equal or a minute apart.
pub get_time_key_slots :
    (s t : ℕ)
    → (get_time_key s).1 ≡ (get_time_key t).1
    → (get_time_key s).0 ≢ (get_time_key t).0
    → ((get_time_key s).0 + 60 ≤ (get_time_key t).0)
      ⊎ ((get_time_key t).0 + 60 ≤ (get_time_key s).0)
unfolding get_time_key
get_time_key_slots s t e n = ground arith

-- Applied to a key again it gives the same key and slot.
pub get_time_key_idem : (t : ℕ) → get_time_key (get_time_key t).0 ≡ get_time_key t
unfolding get_time_key
get_time_key_idem t = ground arith
