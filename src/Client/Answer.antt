-- ===== src/Client/Answer.antt =====
-- What `CheckQuota` returns.
use modern_flux.Base.{
  ℕ, ◌≡◌, ◌⊎◌, false, Option, some, List, [], arith, if◌then◌else◌, Option-cases, inl, inr,
}
use modern_flux.Base.Int.{ℤ, pos, ltb_ℤ, ◌+ℤ◌, eq_of_parts}
use modern_flux.Base.Word.{i64}
use modern_flux.Base.Bytes.{Bytes}
use modern_flux.Base.Dict.{Dict, insert, lookup_or, lookup_or-emplace}
use modern_flux.Client.{LocalData, init_local, init_local_map, clear_quota, s_threshold_per_second}
use modern_flux.Client.Judge.{
  Env, Verdict, refer_quota, by_refer_quota, process_by_refer, process_by_aver, by_local_quota,
  judge_next, heartbeat,
}
use modern_flux.Client.Check.{
  Client, Request, Begun, judge, after_verdict, check_begin, check_finish,
}
use modern_flux.Client.Exchange.{Exchange}
use modern_flux.Client.Cycle.{Thread, Steps}
use modern_flux.Client.Restraint.{AreEnforced, AreBounded, reached}

-- Pass or refuse.
abbrev Hard : ℤ → Type 0
Hard r = (r ≡ pos 0) ⊎ (r ≡ pos 2)

by_refer_quota-Hard : (local : LocalData) (q : ℤ) → Hard (by_refer_quota local q).ret
unfolding by_refer_quota
by_refer_quota-Hard local q = ground arith

refer-Hard :
    (e : Env) (j r : Bytes) (m m' : Dict LocalData) (v : Verdict)
    → process_by_refer e j r m ≡ some (v, m')
    → Hard v.ret
unfolding process_by_refer
refer-Hard e j r m m' v h =
    let m1 = init_local_map r m in
    let refer = lookup_or r init_local m1 in
    let local = lookup_or j init_local m1 in
    elim (Option-cases (refer_quota e.now_refer refer local)) [
      | inl none_eq ↦ ground (arith, by_refer_quota-Hard (lookup_or j init_local m) (pos 0))
      | inr (quota, some_eq) ↦ ground (
        arith,
        by_refer_quota-Hard (lookup_or j init_local m) (pos 0),
        by_refer_quota-Hard local quota,
      )
    ]

aver-Hard : (r : ℕ) (local : LocalData) (t : ℤ) → Hard (process_by_aver r local t).ret
unfolding process_by_aver
aver-Hard r local t = ground arith

-- The answer 1 needs a quota that is at least 10, so that it is enforced here, and not above 10.
abbrev Soft : ℤ → LocalData → Type 0
Soft r local = Hard r ⊎ (r ≡ pos 1) × (local.localquotaver ≡ pos 10)

local-Soft :
    (local : LocalData)
    → local.restrainquota ≡ local.localquotaver
    → ltb_ℤ local.localquotaver s_threshold_per_second ≡ false
    → Soft (by_local_quota local).ret local
unfolding by_local_quota
local-Soft local e h = ground (arith, eq_of_parts local.localquotaver (pos 10))

judge_next-Soft :
    (e : Env) (j r : Bytes) (local : LocalData) (m m' : Dict LocalData) (v : Verdict)
    → judge_next e j r local m ≡ some (v, m')
    → local.restrainquota ≡ local.localquotaver
    → Soft v.ret local
unfolding judge_next
judge_next-Soft e j r local m m' v h same =
    let next : LocalData = record local { nowsum = i64 (local.nowsum +ℤ pos 1) } in
    let cleared : LocalData = if heartbeat e.now next then clear_quota next else next in
    elim (Option-cases (process_by_refer e j r (insert j cleared m))) [
      | inl none_eq ↦ ground (arith, local-Soft next same)
      | inr ((w, m1), some_eq) ↦
          let l = lookup_or j init_local m1 in
          ground (
            arith,
            local-Soft next same,
            refer-Hard e j r (insert j cleared m) m1 w some_eq,
            aver-Hard e.rand_aver l l.totalquota,
          )
    ]

judge-Soft :
    (e : Env) (q : Request) (local : LocalData) (m m' : Dict LocalData) (v : Verdict)
    → judge e q local m ≡ some (v, m')
    → local.restrainquota ≡ local.localquotaver
    → Soft v.ret local
unfolding judge
judge-Soft e q local m m' v h same =
    let total : LocalData = record local { totalquota = q.totalquota } in
    ground (arith, judge_next-Soft e q.keyid q.referid total m m' v)

-- The first part of a call leaves 0, 1 or 2, and 1 only for a key whose quota is 10.
pub check_begin-Soft :
    (e : Env) (q : Request) (b : Begun) (s s' : Client)
    → check_begin e q s ≡ some (b, s')
    → AreEnforced s.s_map_local
    → Soft b.ret (lookup_or q.keyid init_local s.s_map_local)
unfolding check_begin after_verdict init_local_map
check_begin-Soft e q b s s' h all =
    let m = init_local_map q.keyid s.s_map_local in
    let local = lookup_or q.keyid init_local m in
    let old = lookup_or q.keyid init_local s.s_map_local in
    let same : local ≡ old = lookup_or-emplace q.keyid q.keyid init_local s.s_map_local in
    let quotas : local.restrainquota ≡ local.localquotaver = rw same (all q.keyid).equal in
    elim (Option-cases (judge e q local m)) [
      | inl none_eq ↦ ground arith
      | inr ((v, m1), some_eq) ↦ ground (arith, judge-Soft e q local m m1 v some_eq quotas)
    ]

-- However the calls of `CheckQuota` overlap, starting from no data, while every answer's quota is below
-- 2^31: a call returns 0, 1, 2 or 3, and 1 only for a key whose average quota was 10 when the call
-- began.
pub check_quota_answers :
    (now setsum : ℕ) (e : Env) (q : Request) (b : Begun) (s s' s2 : Client) (ts : List Thread)
    (x : Option Exchange)
    (st : Steps (record { s_map_local = []; s_now = now; s_setsum = setsum }, []) (s, ts))
    → AreBounded (record { s_map_local = []; s_now = now; s_setsum = setsum }, []) (s, ts) st
    → check_begin e q s ≡ some (b, s')
    → let r = (check_finish e q b x s2).0 in
      (r ≡ pos 0)
      ⊎ (r ≡ pos 2)
      ⊎ (r ≡ pos 3)
      ⊎ (r ≡ pos 1) × ((lookup_or q.keyid init_local s.s_map_local).localquotaver ≡ pos 10)
unfolding check_finish
check_quota_answers now setsum e q b s s' s2 ts x st bounded h =
    let soft = check_begin-Soft e q b s s' h (reached now setsum (s, ts) st bounded) in ground arith
