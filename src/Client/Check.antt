-- ===== src/Client/Check.antt =====
-- `CheckQuota` of QuaServer/ServiceQua.cpp, in the two parts that the exchange with the quota server
-- separates. The framework runs other requests while one waits for the answer, so the second part
-- starts from the state that it finds then.
use modern_flux.Base.{ℕ, ◌+◌, ◌%◌, Bool, false, ◌&&◌, Option, none, some, leb, ◌==◌, if◌then◌else◌}
use modern_flux.Base.Int.{ℤ, pos, ltb_ℤ, eqb_ℤ, positive, ◌+ℤ◌, ◌-ℤ◌}
use modern_flux.Base.Word.{mod32, i32}
use modern_flux.Base.Bytes.{Bytes}
use modern_flux.Base.Dict.{Dict, insert, lookup_or}
use modern_flux.Message.{QuotaReq}
use modern_flux.Client.{LocalData, init_local, init_local_map, q_set_overload, min_hard_code}
use modern_flux.Client.Judge.{Env, Verdict, undecided, judge_first, judge_next}
use modern_flux.Client.Exchange.{Exchange, record_slot, may_report, quota_request, apply_exchange}

-- The static data that the call writes.
pub record Client : Type 0 where
  pub s_map_local : Dict LocalData
  pub s_now : ℕ
  pub s_setsum : ℕ

-- The arguments of the call.
pub record Request : Type 0 where
  pub keyid : Bytes
  pub groupid : ℤ
  pub totalquota : ℤ
  pub referid : Bytes
  pub serial : Bytes

-- What the first part leaves in local variables, with the request that it has packed.
pub record Begun : Type 0 where
  pub ret : ℤ
  pub setret : ℤ
  pub delta : ℤ
  pub req : Option QuotaReq

-- The sum of all keys starts again each second; `s_now` is a uint32_t.
unfoldable pub begin_second : ℕ → Client → Client
begin_second now s = if s.s_now == now then s else record s { s_now = now % mod32; s_setsum = 0 }

unfoldable pub judge :
    Env → Request → LocalData → Dict LocalData → Option (Verdict × Dict LocalData)
judge e q local0 m =
    let local = record local0 { totalquota = q.totalquota } in
    if local.now == e.now
    then judge_next e q.keyid q.referid local m
    else some (undecided, insert q.keyid (judge_first e.now local) m)

-- The check against the set's quota, for requests that passed so far.
unfoldable pub set_check : Env → ℕ → ℤ → LocalData → Bool × LocalData
set_check e setsum ret local =
    let over = q_set_overload e.rand_set (i32 (pos setsum)) local in
    if ltb_ℤ ret (pos 2) then over else (false, local)

-- The set's check and the count of the request, after the verdict.
unfoldable pub after_verdict : Env → Request → Verdict → Client → Begun × Client
after_verdict e q v s =
    let over = set_check e s.s_setsum v.ret (lookup_or q.keyid init_local s.s_map_local) in
    let local = record_slot (ltb_ℤ v.ret (pos 2)) over.0 e.now over.1 in
    let locked = record local { lock = 1 } in
    let ask = may_report e.now local in
    (
      record {
        ret = v.ret;
        setret = if over.0 then pos 2 else pos 0;
        delta = v.delta;
        req =
            if ask
            then some (quota_request q.keyid q.groupid q.totalquota q.serial e.groups locked)
            else none;
      },
      record s { s_map_local = insert q.keyid (if ask then locked else local) s.s_map_local },
    )

abbrev pub not_judged : Begun
not_judged = record { ret = pos 0; setret = pos 0; delta = pos 0; req = none }

-- CheckQuota up to the exchange; `none` is a division by zero.
unfoldable pub check_begin : Env → Request → Client → Option (Begun × Client)
check_begin e q s =
    let m = init_local_map q.keyid s.s_map_local in
    let s1 = begin_second e.now (record s { s_map_local = m }) in
    let local = lookup_or q.keyid init_local m in
    if leb local.updatetime e.now
    then elim (judge e q local m) [
      | none ↦ none
      | some (v, m') ↦ some (after_verdict e q v (record s1 { s_map_local = m' }))
    ]
    else some (not_judged, s1)

-- The exchange, which ends by opening the lock.
unfoldable pub end_exchange : Request → ℕ → Option Exchange → LocalData → LocalData
end_exchange q now none local = local
end_exchange q now (some x) local = record (apply_exchange q.keyid now x local) { lock = 0 }

-- Statistics of the exchange.
unfoldable pub stat_exchange : Option Exchange → LocalData → LocalData
stat_exchange none local = local
stat_exchange (some x) local =
    if x.sent
    then record local {
      maxtime = if ltb_ℤ local.maxtime x.perdelta then x.perdelta else local.maxtime;
      totalreqtime = i32 (local.totalreqtime +ℤ x.perdelta);
      reqnum = i32 (local.reqnum +ℤ pos 1);
    }
    else local

-- Statistics of the requests above and below the quota.
unfoldable pub stat_delta : ℤ → LocalData → LocalData
stat_delta delta local =
    let overq = i32 (pos 0 -ℤ delta) in
    record local {
      overmaxq =
          if ltb_ℤ delta (pos 0) && ltb_ℤ local.overmaxq overq then overq else local.overmaxq;
      leftminq = if positive delta && ltb_ℤ delta local.leftminq then delta else local.leftminq;
    }

-- The extremes of the minute and how far they are apart.
unfoldable pub stat_vary : LocalData → LocalData
stat_vary local =
    let hi =
      if ltb_ℤ local.localquotamax local.localquota
      then local.localquota
      else local.localquotamax in
    let lo =
      if ltb_ℤ local.localquota local.localquotamin
      then local.localquota
      else local.localquotamin in
    let quotavervary = i32 (local.localquotamaxaver -ℤ local.localquotaminaver) in
    let quotavary = i32 (hi -ℤ lo) in
    let flowvary = i32 (local.maxper -ℤ local.minper) in
    record local {
      localquotamax = hi;
      localquotamin = lo;
      localquotavervary =
          if ltb_ℤ local.localquotavervary quotavervary
          then quotavervary
          else local.localquotavervary;
      localquotavary =
          if ltb_ℤ local.localquotavary quotavary then quotavary else local.localquotavary;
      flowvary = if ltb_ℤ local.flowvary flowvary then flowvary else local.flowvary;
    }

-- The report of the minute, which starts the statistics again.
unfoldable pub stat_minute : ℕ → LocalData → LocalData
stat_minute nowmin local = if local.lastreport == nowmin then local else record local {
  reqnum = pos 0;
  totalreqtime = pos 0;
  maxtime = pos 0;
  maxper = pos 0;
  minper = min_hard_code;
  flowvary = pos 0;
  localquotamax = pos 0;
  localquotamin = min_hard_code;
  localquotavary = pos 0;
  localquotamaxaver = pos 0;
  localquotaminaver = min_hard_code;
  localquotavervary = pos 0;
  leftminq = min_hard_code;
  overmaxq = pos 0;
  lastreport = nowmin;
}

unfoldable pub finish_local : Env → Request → Begun → Option Exchange → LocalData → LocalData
finish_local e q b x local =
    stat_minute e.minute
      (stat_vary (stat_delta b.delta (stat_exchange x (end_exchange q e.now x local))))

-- CheckQuota from the exchange on: what it returns, and the state.
unfoldable pub check_finish : Env → Request → Begun → Option Exchange → Client → ℤ × Client
check_finish e q b x s =
    let m =
      insert q.keyid (finish_local e q b x (lookup_or q.keyid init_local s.s_map_local))
        s.s_map_local in
    let passed = (s.s_setsum + 1) % mod32 in
    if eqb_ℤ b.setret (pos 2)
    then (pos 3, record s { s_map_local = m })
    else if ltb_ℤ b.ret (pos 2)
    then (b.ret, record s { s_map_local = m; s_setsum = passed })
    else (b.ret, record s { s_map_local = m })

-- The whole call, where no other request runs in between; `net` is the call of
-- `mt_tcpsendrcv_route`, with the packing before it and the parsing after it.
unfoldable pub check_quota : (QuotaReq → Exchange) → Env → Request → Client → Option (ℤ × Client)
check_quota net e q s = elim (check_begin e q s) [
  | none ↦ none
  | some (b, s1) ↦
      some (check_finish e q b (elim b.req [ none ↦ none | some req ↦ some (net req) ]) s1)
]
