-- ===== src/Client/Exchange.antt =====
-- What `CheckQuota` counts for a request, and its exchange with the quota server
-- (QuaServer/ServiceQua.cpp): the slot of ten seconds, the request and the answer.
use modern_flux.Base.{
  ℕ, ◌+◌, ◌-◌, ◌%◌, Bool, ◌&&◌, Option, none, some, List, [], ◌∷◌, ltb, leb, ◌==◌, if◌then◌else◌,
  get_or, set,
}
use modern_flux.Base.Int.{ℤ, pos, ltb_ℤ, eqb_ℤ, positive, ◌+ℤ◌, ◌*ℤ◌, ◌/ℤ◌}
use modern_flux.Base.Word.{mod32, i32, i64, u32}
use modern_flux.Base.Bytes.{Bytes, eq_bytes}
use modern_flux.Message.{ReportItem, QuotaReq, QuotaRsp}
use modern_flux.Quota.Times.{get_time_key}
use modern_flux.Client.{
  TimeSum, empty_sum, LocalData, get_aver_q, quota_array_num, quota_float_percent,
}

abbrev pub report_period : ℕ
report_period = 5

-- One request in its slot; a slot of another minute starts from 0.
unfoldable pub count_request : Bool → Bool → ℕ → TimeSum → TimeSum
count_request passed set_over timekey t =
    let old = if t.timekey == timekey then t else record empty_sum { timekey = timekey } in
    let one = i32 (old.sum +ℤ pos 1) in
    let refused = i32 (old.refuse +ℤ pos 1) in
    let over = i32 (old.setrefuse +ℤ pos 1) in
    record old {
      sum = if passed then one else old.sum;
      refuse = if passed then old.refuse else refused;
      setrefuse = if set_over then over else old.setrefuse;
    }

unfoldable pub record_slot : Bool → Bool → ℕ → LocalData → LocalData
unfolding count_request get_time_key
record_slot passed set_over now local =
    let index = (get_time_key now).1 % 6 in
    record local {
      timesum = set local.timesum index (
          count_request passed set_over (get_time_key now).0
            (get_or local.timesum index empty_sum));
    }

-- It is time to report, and no other thread of this process is waiting for an answer on this key.
unfoldable pub may_report : ℕ → LocalData → Bool
may_report now local = leb report_period (now - local.updatetime) && (0 == local.lock)

unfoldable pub to_item : TimeSum → ReportItem
to_item t = record {
  timekey = pos t.timekey;
  reportnum = t.sum;
  refuse = t.refuse;
  setrefuse = t.setrefuse;
}

unfoldable pub report_items : List TimeSum → List ReportItem
unfolding to_item
report_items [] = []
report_items (t ∷ ts) =
    let rest = report_items ts in if ltb 0 t.timekey then to_item t ∷ rest else rest

-- The fields that are not set keep the default of the message.
unfoldable pub quota_request : Bytes → ℤ → ℤ → Bytes → ℕ → LocalData → QuotaReq
unfolding report_items
quota_request keyid groupid totalquota serial groups local = record {
  key = keyid;
  referkey = [];
  reportitem = report_items local.timesum;
  localquota = i32 local.localquota;
  id = groupid;
  serial = serial;
  totalquota = totalquota;
  nowsum = local.maxper;
  workernum = i32 (pos groups);
  setkey = [];
}

-- What becomes of a request: it is not sent where packing it fails; `rsp` is `none` where the call
-- fails or the answer cannot be parsed; `perdelta` is the time of the call in milliseconds.
pub record Exchange : Type 0 where
  pub sent : Bool
  pub perdelta : ℤ
  pub rsp : Option QuotaRsp

-- The answer's quota goes into the ring of the last twelve.
unfoldable pub ring_quota : ℤ → LocalData → LocalData
ring_quota localq local = record local {
  qarray = set local.qarray (local.index % quota_array_num) localq;
  index = (local.index + 1) % mod32;
}

-- The bounds of the average over this minute, and the quota that is enforced.
unfoldable pub set_aver : LocalData → LocalData
unfolding get_aver_q
set_aver local =
    let aver = get_aver_q local in
    record local {
      localquotaver = aver;
      localquotamaxaver =
          if ltb_ℤ local.localquotamaxaver aver then aver else local.localquotamaxaver;
      localquotaminaver =
          if ltb_ℤ aver local.localquotaminaver then aver else local.localquotaminaver;
      restrainquota = i64 (aver *ℤ (pos 100 +ℤ quota_float_percent)) /ℤ pos 100;
    }

-- The numbers that an answer replaces only where it has them.
unfoldable pub set_numbers : QuotaRsp → LocalData → LocalData
set_numbers rsp local = record local {
  localquota = rsp.localq;
  totalworkernum =
      if positive rsp.totalworkernum then u32 rsp.totalworkernum else local.totalworkernum;
  setquota = if positive rsp.setquota then rsp.setquota else local.setquota;
  setsum = if positive rsp.setsum then rsp.setsum else local.setsum;
  procquota = if positive rsp.procquota then rsp.procquota else local.procquota;
}

-- An answer: any answer renews `updatetime`, and one for this key with a quota is taken over.
unfoldable pub apply_answer : Bytes → ℕ → QuotaRsp → LocalData → LocalData
apply_answer keyid now rsp local =
    let fresh = record local { updatetime = now } in
    if eq_bytes rsp.key keyid && positive rsp.localq
    then set_numbers rsp (set_aver (ring_quota rsp.localq fresh))
    else fresh

unfoldable pub apply_exchange : Bytes → ℕ → Exchange → LocalData → LocalData
apply_exchange keyid now x local = elim x.rsp [
  | none ↦ local
  | some rsp ↦ if x.sent then apply_answer keyid now rsp local else local
]

-- The request of FluxQuota.
unfoldable pub flux_request : Bytes → ℤ → QuotaReq
flux_request keyid totalquota = record {
  key = keyid;
  referkey = [];
  reportitem = [];
  localquota = pos 0;
  id = pos 0;
  serial = [];
  totalquota = totalquota;
  nowsum = pos 0;
  workernum = pos 1;
  setkey = [];
}

-- FluxQuota. `net` packs and sends a request, waits and parses the answer; `none` is a failure.
unfoldable pub flux_quota : (QuotaReq → Option QuotaRsp) → Bytes → ℤ → ℤ
flux_quota net keyid totalquota = elim (net (flux_request keyid totalquota)) [
  | none ↦ pos 0
  | some rsp ↦
      if eqb_ℤ (pos 0) rsp.localq
      then pos 2
      else if eqb_ℤ (pos 0) rsp.procquota
      then pos 3
      else pos 0
]
