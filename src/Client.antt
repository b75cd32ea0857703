-- ===== src/Client.antt =====
-- LOCALDATA of QuaServer/ServiceQua.h: what a client of the quota server keeps for a key, and the
-- operations on it alone. `CheckQuota` is in the modules below.
pub mod Judge
pub mod Exchange
pub mod Check
pub mod Admission
pub mod Cycle
pub mod Enforced
pub mod Restraint
pub mod Answer
use modern_flux.Base.{
  ℕ, suc, ◌+◌, ◌*◌, ◌/◌, ◌%◌, ◌≡◌, Bool, true, false, ◌&&◌, ◌||◌, List, [], ◌∷◌, ltb, leb, ◌==◌,
  if◌then◌else◌, replicate,
}
use modern_flux.Base.Int.{ℤ, pos, negsuc, ltb_ℤ, leb_ℤ, eqb_ℤ, positive, ◌+ℤ◌, ◌-ℤ◌, ◌*ℤ◌, ◌/ℤ◌}
use modern_flux.Base.Word.{i32, i64, u32}
use modern_flux.Base.Dict.{Dict, emplace}
use modern_flux.Base.Bytes.{Bytes}
use modern_flux.Params.{hit_proba}
use modern_flux.Quota.Times.{num_per_min}

pub record TimeSum : Type 0 where
  pub timekey : ℕ
  pub sum : ℤ
  pub refuse : ℤ
  pub setrefuse : ℤ

abbrev pub empty_sum : TimeSum
empty_sum = record { timekey = 0; sum = pos 0; refuse = pos 0; setrefuse = pos 0 }

pub record LocalData : Type 0 where
  pub timesum : List TimeSum
  pub totalquota : ℤ
  pub localquota : ℤ
  pub localquotamax : ℤ
  pub localquotamin : ℤ
  pub localquotavary : ℤ
  pub localquotaver : ℤ
  pub localquotamaxaver : ℤ
  pub localquotaminaver : ℤ
  pub localquotavervary : ℤ
  pub nowsum : ℤ
  pub maxper : ℤ
  pub minper : ℤ
  pub flowvary : ℤ
  pub leftminq : ℤ
  pub overmaxq : ℤ
  pub reqnum : ℤ
  pub totalreqtime : ℤ
  pub maxtime : ℤ
  pub lastreport : ℕ
  pub restrainquota : ℤ
  pub updatetime : ℕ
  pub now : ℕ
  pub index : ℕ
  pub qarray : List ℤ
  pub lock : ℕ
  pub totalworkernum : ℕ
  pub setquota : ℤ
  pub setsum : ℤ
  pub procquota : ℤ
  pub averq : ℤ

abbrev pub min_hard_code : ℤ
min_hard_code = pos (100 * 10000)

abbrev pub quota_array_num : ℕ
quota_array_num = 12

abbrev pub quota_float_percent : ℤ
quota_float_percent = pos 0

abbrev pub s_threshold_per_second : ℤ
s_threshold_per_second = pos 10

abbrev pub no_quotas : List ℤ
no_quotas = replicate quota_array_num (pos 0)

-- LOCALDATA::Init
abbrev pub init_local : LocalData
init_local = record {
  timesum = replicate num_per_min empty_sum;
  totalquota = pos 0;
  localquota = pos 0;
  localquotamax = pos 0;
  localquotamin = min_hard_code;
  localquotavary = pos 0;
  localquotaver = pos 0;
  localquotamaxaver = pos 0;
  localquotaminaver = min_hard_code;
  localquotavervary = pos 0;
  nowsum = pos 0;
  maxper = pos 0;
  minper = min_hard_code;
  flowvary = pos 0;
  leftminq = min_hard_code;
  overmaxq = pos 0;
  reqnum = pos 0;
  totalreqtime = pos 0;
  maxtime = pos 0;
  lastreport = 0;
  restrainquota = pos 0;
  updatetime = 0;
  now = 0;
  index = 0;
  qarray = no_quotas;
  lock = 0;
  totalworkernum = 0;
  setquota = pos 0;
  setsum = pos 0;
  procquota = pos 0;
  averq = pos 0;
}

unfoldable pub init_local_map : Bytes → Dict LocalData → Dict LocalData
init_local_map id local = emplace id init_local local

-- The loop of GetAverQ: `num` quotas above 0, and their sum.
unfoldable pub aver_loop : List ℤ → ℕ → ℤ → ℤ
aver_loop [] num quota = if ltb 0 num then quota /ℤ pos num else pos 0
aver_loop (q ∷ qs) num quota =
    aver_loop qs (if positive q then suc num else num)
      (if positive q then i64 (quota +ℤ q) else quota)

unfoldable pub get_aver_q : LocalData → ℤ
unfolding aver_loop
get_aver_q local = aver_loop local.qarray 0 (pos 0)

unfoldable pub clear_quota : LocalData → LocalData
clear_quota local = record local { qarray = no_quotas }

-- The first step of QSetValid: the average quota of a process where none is assigned.
unfoldable pub set_averq : LocalData → LocalData
set_averq local =
    if (positive local.setquota && positive local.setsum)
      && (eqb_ℤ (pos 0) local.procquota && ltb 0 local.totalworkernum)
    then record local { averq = i32 (pos (u32 local.setquota / local.totalworkernum)) }
    else local

unfoldable pub q_set_valid : LocalData → Bool × LocalData
unfolding set_averq
q_set_valid local =
    let l = set_averq local in
    ((positive l.setquota && positive l.setsum) && (positive l.procquota || positive l.averq), l)

-- `percent` against the limit; `r` is what `rand()` returns.
unfoldable pub over_percent : ℕ → ℤ → Bool
unfolding hit_proba
over_percent r percent =
    if leb_ℤ (pos 100 +ℤ quota_float_percent) percent
    then true
    else if leb_ℤ (pos 100) percent
    then hit_proba r (u32 (percent -ℤ pos 100))
    else false

-- QSetOverLoad on the requests of all keys in this second.
unfoldable pub q_set_overload : ℕ → ℤ → LocalData → Bool × LocalData
unfolding q_set_valid over_percent
q_set_overload r nowsum local =
    let v = q_set_valid local in
    let tmp = if positive v.1.procquota then v.1.procquota else v.1.averq in
    (if v.0 then over_percent r (i32 (i32 (nowsum *ℤ pos 100) /ℤ tmp)) else false, v.1)
