-- ===== src/Client/Restraint.antt =====
-- The enforced quota through the calls of `CheckQuota`, and what follows for its answer.
use modern_flux.Base.{
  ℕ, ◌<◌, ◌^◌, ◌≡◌, ◌⊎◌, refl, ◌||◌, Option, none, some, List, [], arith, leb, ◌==◌, if◌then◌else◌,
  Bool-cases, Option-cases, inl, inr,
}
use modern_flux.Base.Int.{ℤ, pos, pos_part, ltb_ℤ, ◌+ℤ◌}
use modern_flux.Base.Word.{i64}
use modern_flux.Base.Bytes.{Bytes, eq_bytes}
use modern_flux.Base.Dict.{Dict, insert, lookup, lookup_or, lookup_or-insert, lookup_or-emplace}
use modern_flux.Client.{
  LocalData, no_quotas, init_local, init_local_map, clear_quota, q_set_overload, q_set_valid,
  set_averq, s_threshold_per_second,
}
use modern_flux.Message.{QuotaRsp}
use modern_flux.Client.Judge.{Env, Verdict, judge_next, judge_first, heartbeat, process_by_refer}
use modern_flux.Client.Exchange.{Exchange, record_slot, apply_exchange, may_report}
use modern_flux.Client.Check.{
  Client, Request, Begun, judge, set_check, after_verdict, begin_second, check_begin, check_finish,
  finish_local, end_exchange, stat_exchange, stat_delta, stat_vary, stat_minute,
}
use modern_flux.Client.Cycle.{Thread, Step, start, finish, Steps, stay, step}
use modern_flux.Client.Enforced.{
  IsEnforced, mean, count, total, IsEnforced-if, IsEnforced-exchange, SameQuota, IsEnforced-same,
}

abbrev pub AreEnforced : Dict LocalData → Type 0
AreEnforced m = (k : Bytes) → IsEnforced (lookup_or k init_local m)

AreEnforced-insert :
    (j : Bytes) (v : LocalData) (m : Dict LocalData)
    → IsEnforced v
    → AreEnforced m
    → AreEnforced (insert j v m)
AreEnforced-insert j v m one all k =
    rw (lookup_or-insert j k v init_local m) (IsEnforced-if (eq_bytes j k) one (all k))

AreEnforced-init :
    (j : Bytes) (m : Dict LocalData) → AreEnforced m → AreEnforced (init_local_map j m)
unfolding init_local_map
AreEnforced-init j m all k = rw (lookup_or-emplace j k init_local m) (all k)

refer-same :
    (e : Env) (k j r : Bytes) (m m' : Dict LocalData) (v : Verdict)
    → process_by_refer e j r m ≡ some (v, m')
    → lookup_or k init_local m' ≡ lookup_or k init_local m
unfolding process_by_refer init_local_map
refer-same e k j r m m' v h = ground (arith, lookup_or-emplace r k init_local m)

IsEnforced-clear : (local : LocalData) → IsEnforced local → IsEnforced (clear_quota local)
unfolding clear_quota
IsEnforced-clear local h = record {
  equal = h.equal;
  small = ground arith;
  twelve = refl;
  average = inl refl;
}

AreEnforced-judge_next :
    (e : Env) (j r : Bytes) (local : LocalData) (m m' : Dict LocalData) (v : Verdict)
    → judge_next e j r local m ≡ some (v, m')
    → IsEnforced local
    → AreEnforced m
    → AreEnforced m'
unfolding judge_next
AreEnforced-judge_next e j r local m m' v h one all k =
    let next : LocalData = record local { nowsum = i64 (local.nowsum +ℤ pos 1) } in
    let kept : IsEnforced next = IsEnforced-same local next (refl, refl, refl) one in
    let silent = heartbeat e.now next in
    let cleared : LocalData = if silent then clear_quota next else next in
    let clear : IsEnforced cleared = IsEnforced-if silent (IsEnforced-clear next kept) kept in
    elim (Bool-cases (silent || ltb_ℤ local.localquotaver s_threshold_per_second)) [
      | inl on ↦ elim (Option-cases (process_by_refer e j r (insert j cleared m))) [
        | inl none_eq ↦ ground arith
        | inr ((w, m1), some_eq) ↦
            let same : lookup_or k init_local m' ≡ lookup_or k init_local (insert j cleared m) =
              ground (arith, refer-same e k j r (insert j cleared m) m1 w some_eq) in
            rw same (AreEnforced-insert j cleared m clear all k)
      ]
      | inr off ↦
          let same : m' ≡ insert j next m = ground arith in
          rw same (AreEnforced-insert j next m kept all k)
    ]

AreEnforced-judge :
    (e : Env) (q : Request) (local : LocalData) (m m' : Dict LocalData) (v : Verdict)
    → judge e q local m ≡ some (v, m')
    → IsEnforced local
    → AreEnforced m
    → AreEnforced m'
unfolding judge judge_first
AreEnforced-judge e q local m m' v h one all =
    let total : LocalData = record local { totalquota = q.totalquota } in
    let same : IsEnforced total = IsEnforced-same local total (refl, refl, refl) one in
    let first = judge_first e.now total in
    let kept : IsEnforced first = IsEnforced-same local first (refl, refl, refl) one in
    elim (Bool-cases (local.now == e.now)) [
      | inl on ↦ AreEnforced-judge_next e q.keyid q.referid total m m' v (ground arith) same all
      | inr off ↦ λ k.
          let eq : m' ≡ insert q.keyid first m = ground arith in
          rw eq (AreEnforced-insert q.keyid first m kept all k)
    ]

SameQuota-set_check :
    (e : Env) (n : ℕ) (ret : ℤ) (local : LocalData) → SameQuota (set_check e n ret local).1 local
unfolding set_check q_set_overload q_set_valid set_averq
SameQuota-set_check e n ret local = ground arith

IsEnforced-finish :
    (e : Env) (q : Request) (b : Begun) (x : Option Exchange) (local : LocalData)
    → SameQuota (finish_local e q b x local) (end_exchange q e.now x local)
unfolding finish_local stat_exchange stat_delta stat_vary stat_minute
IsEnforced-finish e q b x local = ground arith

AreEnforced-after_verdict :
    (e : Env) (q : Request) (v : Verdict) (s : Client)
    → AreEnforced s.s_map_local
    → AreEnforced (after_verdict e q v s).1.s_map_local
unfolding after_verdict record_slot
AreEnforced-after_verdict e q v s all k =
    let old = lookup_or q.keyid init_local s.s_map_local in
    let over = set_check e s.s_setsum v.ret old in
    let local = record_slot (ltb_ℤ v.ret (pos 2)) over.0 e.now over.1 in
    let locked : LocalData = record local { lock = 1 } in
    let kept =
      IsEnforced-same old over.1 (SameQuota-set_check e s.s_setsum v.ret old) (all q.keyid) in
    let one = IsEnforced-same over.1 local (refl, refl, refl) kept in
    let two = IsEnforced-same over.1 locked (refl, refl, refl) kept in
    AreEnforced-insert q.keyid (if may_report e.now local then locked else local) s.s_map_local
      (IsEnforced-if (may_report e.now local) two one) all k

begin_second-map : (now : ℕ) (s : Client) → (begin_second now s).s_map_local ≡ s.s_map_local
unfolding begin_second
begin_second-map now s = ground arith

AreEnforced-check_begin :
    (e : Env) (q : Request) (b : Begun) (s s' : Client)
    → check_begin e q s ≡ some (b, s')
    → AreEnforced s.s_map_local
    → AreEnforced s'.s_map_local
unfolding check_begin
AreEnforced-check_begin e q b s s' h all k =
    let m = init_local_map q.keyid s.s_map_local in
    let s0 : Client = record s { s_map_local = m } in
    let s1 = begin_second e.now s0 in
    let local = lookup_or q.keyid init_local m in
    let there = AreEnforced-init q.keyid s.s_map_local all in
    elim (Bool-cases (leb local.updatetime e.now)) [
      | inl on ↦ elim (Option-cases (judge e q local m)) [
        | inl none_eq ↦ ground arith
        | inr ((v, m1), some_eq) ↦
            let s2 : Client = record s1 { s_map_local = m1 } in
            let eq : s'.s_map_local ≡ (after_verdict e q v s2).1.s_map_local = ground arith in
            rw eq (
              AreEnforced-after_verdict e q v s2
                (AreEnforced-judge e q local m m1 v some_eq (there q.keyid) there) k)
      ]
      | inr off ↦
          let eq : s'.s_map_local ≡ m = ground (arith, begin_second-map e.now s0) in rw eq (there k)
    ]

-- An answer's quota, an int64_t, is below 2^31.
abbrev IsBounded : Option Exchange → Type 0
IsBounded x =
    (y : Exchange) (rsp : QuotaRsp) → x ≡ some y → y.rsp ≡ some rsp → pos_part rsp.localq < 2 ^ 31

IsEnforced-end :
    (q : Request) (now : ℕ) (x : Option Exchange) (local : LocalData)
    → IsBounded x
    → IsEnforced local
    → IsEnforced (end_exchange q now x local)
unfolding end_exchange
IsEnforced-end q now none local t h = h
IsEnforced-end q now (some y) local t h =
    let taken = IsEnforced-exchange q.keyid now y local (λ rsp e. t y rsp refl e) h in
    IsEnforced-same (apply_exchange q.keyid now y local)
      (record (apply_exchange q.keyid now y local) { lock = 0 }) (refl, refl, refl) taken

AreEnforced-check_finish :
    (e : Env) (q : Request) (b : Begun) (x : Option Exchange) (s : Client)
    → IsBounded x
    → AreEnforced s.s_map_local
    → AreEnforced (check_finish e q b x s).1.s_map_local
unfolding check_finish
AreEnforced-check_finish e q b x s t all k =
    let old = lookup_or q.keyid init_local s.s_map_local in
    let local = finish_local e q b x old in
    let ended = IsEnforced-end q e.now x old t (all q.keyid) in
    let one =
      IsEnforced-same (end_exchange q e.now x old) local (IsEnforced-finish e q b x old) ended in
    let eq : (check_finish e q b x s).1.s_map_local ≡ insert q.keyid local s.s_map_local =
      ground arith in
    rw eq (AreEnforced-insert q.keyid local s.s_map_local one all k)

-- This holds of every answer on the way.
abbrev AreBoundedStep : (u v : Client × List Thread) → Step u v → Type 0
AreBoundedStep u v (start e q b s s' ts h) = Unit
AreBoundedStep u v (finish e q b x s ts us a) = IsBounded x

abbrev pub AreBounded : (u v : Client × List Thread) → Steps u v → Type 0
AreBounded u v (stay w) = Unit
AreBounded u v (step u1 v1 w st one) = AreBounded u1 v1 st × AreBoundedStep v1 w one

Step-AreEnforced :
    (u v : Client × List Thread) (one : Step u v)
    → AreBoundedStep u v one
    → AreEnforced u.0.s_map_local
    → AreEnforced v.0.s_map_local
Step-AreEnforced u v (start e q b s s' ts h) bounded all = AreEnforced-check_begin e q b s s' h all
Step-AreEnforced u v (finish e q b x s ts us a) bounded all =
    AreEnforced-check_finish e q b x s bounded all

pub reached :
    (now setsum : ℕ) (v : Client × List Thread)
    (st : Steps (record { s_map_local = []; s_now = now; s_setsum = setsum }, []) v)
    → AreBounded (record { s_map_local = []; s_now = now; s_setsum = setsum }, []) v st
    → AreEnforced v.0.s_map_local
unfolding lookup_or lookup
reached now setsum v (stay w) bounded k = record {
  equal = refl;
  small = ground arith;
  twelve = refl;
  average = inl refl;
}
reached now setsum v (step u v' w st one) bounded k =
    Step-AreEnforced v' w one bounded.1 (reached now setsum v' st bounded.0) k

-- However the calls of `CheckQuota` overlap, starting from no data, while every answer's quota is below
-- 2^31: in every entry the enforced quota is the average quota, and that is the sum of the numbers
-- above 0 in the ring, divided by how many they are, or the ring is empty, as at first and
-- after ClearQuota.
pub Steps-AreEnforced :
    (now setsum : ℕ) (v : Client × List Thread)
    (st : Steps (record { s_map_local = []; s_now = now; s_setsum = setsum }, []) v)
    → AreBounded (record { s_map_local = []; s_now = now; s_setsum = setsum }, []) v st
    → (k : Bytes)
    → let local = lookup_or k init_local v.0.s_map_local in
      (local.restrainquota ≡ local.localquotaver)
      × ((local.qarray ≡ no_quotas)
          ⊎ (local.localquotaver ≡ pos (mean (count local.qarray) (total local.qarray))))
Steps-AreEnforced now setsum v st bounded k =
    let one = reached now setsum v st bounded k in (one.equal, one.average)
