-- ===== src/Host/Overload.antt =====
-- InitSysload and SysOverload of QuaServer/ServiceQua.cpp.
use modern_flux.Base.{
  ℕ, ◌-◌, ◌%◌, Bool, ◌&&◌, ◌||◌, Option, none, some, List, ltb, leb, ◌==◌, if◌then◌else◌,
}
use modern_flux.Base.Int.{ℤ}
use modern_flux.Base.Word.{mod32}
use modern_flux.Base.Bytes.{Bytes}
use modern_flux.Params.{Flux, get_cpu_rate, get_mem_rate, get_cpu_interval}
use modern_flux.Host.{Stat, CpuInfo, init_cpu_info, get_cpu_info}
use modern_flux.Host.Entry.{MtItem, report_att}

-- `ci`, `get_cpu_info_last_time` and `s_wi`.
pub record Load : Type 0 where
  pub ci : CpuInfo
  pub last_time : ℕ
  pub wi : MtItem

-- The maxima of the minute, and the verdict.
unfoldable pub judge_load : ℤ → Option Flux → Load → Bool × Load
judge_load minute flux l =
    let cpu_thresh = get_cpu_rate flux in
    let mem_thresh = get_mem_rate flux in
    (
      (ltb 0 cpu_thresh && leb cpu_thresh l.ci.cpu_usage)
          || (ltb 0 mem_thresh && leb mem_thresh l.ci.mem_usage),
      record l { wi = report_att minute (l.ci.cpu_usage % mod32) (l.ci.mem_usage % mod32) l.wi },
    )

-- InitSysload at the time `now`; `none` is the access out of bounds of GetMEMInfo.
abbrev start_load : ℕ → Load → Option (ℕ × CpuInfo) → Option (Bool × Load)
start_load now l none = none
start_load now l (some (ret, ci)) = some (0 == ret, record l { ci = ci; last_time = now })

unfoldable pub init_sysload :
    ℕ → Option Stat → Option (List Bytes) → List ℕ → Load → Option (Bool × Load)
unfolding init_cpu_info
init_sysload now stat lines junk l = start_load now l (init_cpu_info l.ci stat lines junk)

-- SysOverload at the time `now`; `none` is the access out of bounds of GetMEMInfo.
unfoldable pub sys_overload :
    ℕ → ℤ → Option Stat → Option (List Bytes) → List ℕ → Option Flux → Load → Option (Bool × Load)
unfolding judge_load
sys_overload now minute stat lines junk flux load =
    if leb (get_cpu_interval flux) (now - load.last_time)
    then elim (get_cpu_info load.ci stat lines junk) [
      | none ↦ none
      | some (ret, ci) ↦ some (judge_load minute flux (record load { ci = ci; last_time = now }))
    ]
    else some (judge_load minute flux load)
