-- ===== src/Host/Usage.antt =====
-- The percentages of the host, and the bounds of the array that the memory is read into.
use native.Mathlib.Nat.{div-le_of_le-mul}
use mathlib.Core.Path.{subst}
use modern_flux.Base.{
  ℕ, ◌-◌, ◌*◌, ◌==◌, ◌||◌, ◌≤◌, ◌<◌, ◌≡◌, Option, none, some, List, arith, Bool-cases, Option-cases,
  inl, inr,
}
use modern_flux.Base.Word.{mod64}
use modern_flux.Base.Bytes.{Bytes}
use modern_flux.Host.{
  Stat, CpuInfo, work_of, total_of, sub_u64, get_work_time_info, cpu_percent, get_cpu_info,
  set_memory, get_mem_info,
}

-- The share of work in the time, in per cent.
cpu_percent-le :
    (c : CpuInfo) (w t : ℕ)
    → c.worktime ≤ w
    → c.totaltime ≤ t
    → w < mod64
    → t < mod64
    → w - c.worktime ≤ t - c.totaltime
    → (w - c.worktime) * 100 < mod64
    → cpu_percent c w t ≤ 100
unfolding cpu_percent
cpu_percent-le c w t p q lt r s u =
    let work : sub_u64 w c.worktime ≡ w - c.worktime = omega arith in
    let all : sub_u64 t c.totaltime ≡ t - c.totaltime = omega arith in
    rw (work, all) (div-le_of_le-mul (t - c.totaltime) (omega arith))

-- Counters that have not gone back, and have not overflowed.
pub record IsLater (c : CpuInfo) (s : Stat) : Type 0 where
  pub work : c.worktime ≤ work_of s
  pub total : c.totaltime ≤ total_of s
  pub idle : work_of s - c.worktime ≤ total_of s - c.totaltime
  pub small : (work_of s - c.worktime) * 100 < mod64

abbrev usage_of : Option (ℕ × CpuInfo) → ℕ
usage_of none = 0
usage_of (some (ret, c)) = c.cpu_usage

set_memory-cpu_usage : (m : List ℕ) (c : CpuInfo) → (set_memory m c).cpu_usage ≡ c.cpu_usage
unfolding set_memory
set_memory-cpu_usage m c = ground arith

usage_of-get_cpu_info :
    (c : CpuInfo) (s : Stat) (lines : Option (List Bytes)) (junk : List ℕ)
    → c.cpu_usage ≤ 100
    → IsLater c s
    → usage_of (get_cpu_info c (some s) lines junk) ≤ 100
unfolding get_cpu_info get_work_time_info
usage_of-get_cpu_info c s lines junk start later =
    let percent =
      cpu_percent-le c (work_of s) (total_of s) later.work later.total (omega arith) (omega arith)
        later.idle later.small in
    elim (Bool-cases
      ((0 == sub_u64 (work_of s) c.worktime) || (0 == sub_u64 (total_of s) c.totaltime))) [
        | inl same ↦ rw (get_cpu_info, same) start
        | inr other ↦ elim (Option-cases (get_mem_info lines junk)) [
          | inl e ↦ rw (get_cpu_info, other, e) (omega arith)
          | inr (m, e) ↦ rw (get_cpu_info, other, e, set_memory-cpu_usage) percent
        ]
      ]

-- GetCpuInfo keeps the percentage of the processor at most 100, if its counters, the idle time among
-- them, have not gone back, and the work since the last reading is below 2^64 / 100.
pub get_cpu_info-le :
    (c new : CpuInfo) (s : Stat) (lines : Option (List Bytes)) (junk : List ℕ) (ret : ℕ)
    → c.cpu_usage ≤ 100
    → IsLater c s
    → get_cpu_info c (some s) lines junk ≡ some (ret, new)
    → new.cpu_usage ≤ 100
get_cpu_info-le c new s lines junk ret start later done =
    subst (λ o. usage_of o ≤ 100) done (usage_of-get_cpu_info c s lines junk start later)
