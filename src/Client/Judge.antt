-- ===== src/Client/Judge.antt =====
-- The verdict of `CheckQuota` on one request (QuaServer/ServiceQua.cpp): ProcessByRefer,
-- ProcessByAver and the test of the local quota.
use modern_flux.Base.{
  ℕ, ◌-◌, ◌*◌, Bool, true, false, ◌&&◌, ◌||◌, Option, none, some, ltb, leb, if◌then◌else◌, length,
}
use modern_flux.Base.Int.{ℤ, pos, ltb_ℤ, eqb_ℤ, positive, ◌+ℤ◌, ◌-ℤ◌, ◌*ℤ◌, ◌/ℤ◌}
use modern_flux.Base.Word.{i32, i64}
use modern_flux.Base.Dict.{Dict, insert, lookup_or}
use modern_flux.Base.Bytes.{Bytes}
use modern_flux.Client.{
  LocalData, init_local, init_local_map, clear_quota, over_percent, s_threshold_per_second,
}

-- The readings that one call takes: `time(NULL)` on entry and in ProcessByRefer, the minute of the
-- hour, the two random numbers, and the number of process groups of the server framework.
pub record Env : Type 0 where
  pub now : ℕ
  pub now_refer : ℕ
  pub minute : ℕ
  pub rand_aver : ℕ
  pub rand_set : ℕ
  pub groups : ℕ

-- What the two functions leave in `ret` and `deltaquota`, and what they return.
pub record Verdict : Type 0 where
  pub flag : Bool
  pub ret : ℤ
  pub delta : ℤ

abbrev pub undecided : Verdict
undecided = record { flag = false; ret = pos 0; delta = pos 0 }

-- The quota that the other key suggests; `none` is a division by zero.
unfoldable pub refer_quota : ℕ → LocalData → LocalData → Option ℤ
refer_quota now refer local =
    if (positive refer.restrainquota && leb refer.updatetime now)
      && (ltb (now - refer.updatetime) (60 * 5) && positive refer.localquota)
    then (if eqb_ℤ refer.totalquota (pos 0)
        then none
        else some (i32 (i64 (refer.restrainquota *ℤ local.totalquota) /ℤ refer.totalquota)))
    else some (pos 0)

unfoldable pub by_refer_quota : LocalData → ℤ → Verdict
by_refer_quota local referquota =
    if ltb_ℤ s_threshold_per_second referquota
    then record {
      flag = true;
      ret = if ltb_ℤ referquota local.nowsum then pos 2 else pos 0;
      delta = i32 (referquota -ℤ local.nowsum);
    }
    else undecided

-- ProcessByRefer. `local` is the entry of `keyid`, which may be that of `referid` too.
unfoldable pub process_by_refer :
    Env → Bytes → Bytes → Dict LocalData → Option (Verdict × Dict LocalData)
unfolding init_local_map by_refer_quota
process_by_refer e keyid referid m =
    if ltb 0 (length referid)
    then (let m' = init_local_map referid m in
        let local = lookup_or keyid init_local m' in
        elim (refer_quota e.now_refer (lookup_or referid init_local m') local) [
          | none ↦ none
          | some q ↦ some (by_refer_quota local q, m')
        ])
    else some (by_refer_quota (lookup_or keyid init_local m) (pos 0), m)

-- ProcessByAver
unfoldable pub process_by_aver : ℕ → LocalData → ℤ → Verdict
unfolding over_percent
process_by_aver r local totalquota =
    let averquota =
      if ltb 0 local.totalworkernum then i32 (totalquota /ℤ pos local.totalworkernum) else pos 0 in
    if ltb_ℤ s_threshold_per_second averquota
    then record {
      flag = true;
      ret =
          if over_percent r (i32 (i64 (local.nowsum *ℤ pos 100) /ℤ averquota))
          then pos 2
          else pos 0;
      delta = i32 (averquota -ℤ local.nowsum);
    }
    else undecided

-- No answer from the quota server for five minutes.
abbrev pub heartbeat : ℕ → LocalData → Bool
heartbeat now local = ltb local.updatetime now && ltb (60 * 5) (now - local.updatetime)

-- The server answers: the local quota decides.
unfoldable pub by_local_quota : LocalData → Verdict
by_local_quota local = record {
  flag = true;
  ret =
      if ltb_ℤ s_threshold_per_second local.restrainquota && ltb_ℤ local.restrainquota local.nowsum
      then pos 2
      else if positive local.localquotaver && ltb_ℤ local.localquotaver local.nowsum
      then pos 1
      else pos 0;
  delta = i32 (local.localquotaver -ℤ local.nowsum);
}

-- One more request in the running second.
unfoldable pub judge_next :
    Env → Bytes → Bytes → LocalData → Dict LocalData → Option (Verdict × Dict LocalData)
judge_next e keyid referid local0 m =
    let local = record local0 { nowsum = i64 (local0.nowsum +ℤ pos 1) } in
    let silent = heartbeat e.now local in
    let cleared = if silent then clear_quota local else local in
    if silent || ltb_ℤ local.localquotaver s_threshold_per_second
    then elim (process_by_refer e keyid referid (insert keyid cleared m)) [
      | none ↦ none
      | some (v, m') ↦
          let l = lookup_or keyid init_local m' in
          some (if v.flag then v else process_by_aver e.rand_aver l l.totalquota, m')
    ]
    else some (by_local_quota local, insert keyid local m)

-- The first request of a second, which passes.
unfoldable pub judge_first : ℕ → LocalData → LocalData
judge_first now local = record local {
  now = now;
  maxper = if ltb_ℤ local.maxper local.nowsum then i32 local.nowsum else local.maxper;
  minper = if ltb_ℤ local.nowsum local.minper then i32 local.nowsum else local.minper;
  nowsum = pos 1;
}
