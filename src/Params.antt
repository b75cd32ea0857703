-- ===== src/Params.antt =====
-- The limits that an activity's `Flux` message sets, with their defaults
-- (QuaServer/ServiceQua.cpp and ServiceQua.h), and the random admission test.
pub mod Show
use modern_flux.Base.{
  ℕ, ◌-◌, ◌%◌, ◌≤◌, ◌<◌, Bool, true, false, ◌&&◌, not, Option, none, some, arith, ltb, leb, ◌==◌,
  if◌then◌else◌,
}
use modern_flux.Base.Bytes.{Bytes}

-- The L5 name-service address of a message L5cfg.
pub record L5Cfg : Type 0 where
  pub modid : Bytes
  pub cmdid : Bytes

pub record Flux : Type 0 where
  pub flowswitch : ℕ
  pub queryrate : ℕ
  pub queryquota : ℕ
  pub attendquota : ℕ
  pub winlen : ℕ
  pub errnum : ℕ
  pub errnumrate : ℕ
  pub cpurate : ℕ
  pub cpuinterval : ℕ
  pub memrate : ℕ
  pub type : ℕ
  pub normalenv : Option L5Cfg
  pub testenv : Option L5Cfg

abbrev pub s_ratio : ℕ
s_ratio = 100

-- `flux != NULL` and the field in range, or the default.
abbrev setting : Option Flux → (Flux → ℕ) → (ℕ → Bool) → ℕ → ℕ
setting none field accept default = default
setting (some flux) field accept default = if accept (field flux) then field flux else default

unfoldable pub get_win_len : Option Flux → ℕ
get_win_len flux = setting flux (λ f. f.winlen) (λ n. ltb 0 n && leb n 30) 6

unfoldable pub get_err_num : Option Flux → ℕ
get_err_num flux = setting flux (λ f. f.errnum) (λ n. ltb 0 n) 50

unfoldable pub get_err_num_rate : Option Flux → ℕ
get_err_num_rate flux = setting flux (λ f. f.errnumrate) (λ n. ltb 0 n && ltb n 100) 10

unfoldable pub get_cpu_rate : Option Flux → ℕ
get_cpu_rate flux = setting flux (λ f. f.cpurate) (λ n. ltb 0 n && ltb n 100) 0

unfoldable pub get_cpu_interval : Option Flux → ℕ
get_cpu_interval flux = setting flux (λ f. f.cpuinterval) (λ n. ltb 0 n && ltb n 10) 3

unfoldable pub get_mem_rate : Option Flux → ℕ
get_mem_rate flux = setting flux (λ f. f.memrate) (λ n. ltb 0 n && ltb n 100) 0

-- `r` is what `rand()` returns.
unfoldable pub hit_proba : ℕ → ℕ → Bool
hit_proba r target = if leb s_ratio target then true else ltb (r % s_ratio) target

unfoldable pub gen_flow_proba : ℕ → ℕ
gen_flow_proba erate = if leb erate s_ratio then s_ratio - erate else s_ratio

-- `true` refuses the query. The argument is `act.flux()` where the activity has one.
unfoldable pub manager_query_limit : ℕ → Option Flux → Bool
unfolding hit_proba
manager_query_limit r none = false
manager_query_limit r (some flux) =
    if ltb 0 flux.queryrate && ltb flux.queryrate s_ratio
    then not (hit_proba r flux.queryrate)
    else false

pub record Switch : Type 0 where
  pub on : Bool
  pub querytype : ℕ
  pub attendtype : ℕ

unfoldable pub flux_switch : Option Flux → Switch
flux_switch none = record { on = false; querytype = 0; attendtype = 0 }
flux_switch (some flux) = record {
  on = not (flux.flowswitch == 0);
  querytype = if ltb 0 flux.queryquota then type else 0;
  attendtype = if ltb 0 flux.attendquota then type else 0;
}
  where
    type : ℕ
    type = if flux.type == 2 then 2 else 1

pub record L5Route : Type 0 where
  pub modid : ℕ
  pub cmd : ℕ

-- `strtoul` is the C library's.
unfoldable pub get_quota_l5 : (Bytes → ℕ) → ℕ → Option Flux → L5Route
get_quota_l5 strtoul env flux =
    if env == 1
    then pick (record { modid = 64283201; cmd = 393216 }) (λ f. f.normalenv) flux
    else pick (record { modid = 64283201; cmd = 327680 }) (λ f. f.testenv) flux
  where
    configured : L5Route → Option L5Cfg → L5Route
    configured d none = d
    configured d (some cfg) = record { modid = strtoul cfg.modid; cmd = strtoul cfg.cmdid }

    pick : L5Route → (Flux → Option L5Cfg) → Option Flux → L5Route
    pick d env none = d
    pick d env (some f) = configured d (env f)

pub get_win_len_bounds : (flux : Option Flux) → (1 ≤ get_win_len flux) × (get_win_len flux ≤ 30)
unfolding get_win_len
get_win_len_bounds flux = ground arith

pub get_err_num_rate_bounds :
    (flux : Option Flux) → (1 ≤ get_err_num_rate flux) × (get_err_num_rate flux < 100)
unfolding get_err_num_rate
get_err_num_rate_bounds flux = ground arith
