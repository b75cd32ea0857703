-- ===== src/Frame/Ledgers/First.antt =====
-- GetQueryQuota keeps the slots of all keys balanced.
use modern_flux.Base.{
  ℕ, zero, suc, ◌+◌, ◌-◌, ◌%◌, ◌^◌, ◌<◌, ◌≡◌, refl, sym, Option, none, some, List, arith, get_or,
  set, ◌&&◌, ltb, if◌then◌else◌, length, Bool-cases, Option-cases, inl, inr,
}
use mathlib.Core.Path.{subst}
use modern_flux.Base.Int.{ℤ}
use modern_flux.Base.Bytes.{Bytes}
use modern_flux.Base.Dict.{lookup_or, emplace}
use modern_flux.Message.{QuotaReq, SetQuotaReq, SetQuotaRsp}
use modern_flux.Params.{Flux}
use modern_flux.Quota.Slot.{TimeItem, empty_item, no_data}
use modern_flux.Quota.Slot.Balance.{emplace-sum_by, old_slot}
use modern_flux.Quota.Peer.{valid_id, clean_report_id}
use modern_flux.Quota.Times.{get_time_key}
use modern_flux.Quota.Record.{QData, init_qdata, init_key_qua_alloc}
use modern_flux.Server.{SetCfgFirst, Server, get_set_key, get_set_cfg_first}
use modern_flux.Server.Alloc.{History, no_history, is_past, read_slot, read_slots}
use modern_flux.Server.Books.{Books, report_items}
use modern_flux.Server.Second.{access_second, may_ask, set_request, touch_procs}
use modern_flux.Server.Query.{
  Context, QExtInfo, no_result, act_quota, act_key, proc_id, allocate_key, count_workers, serve_key,
  get_query_quota,
}
use modern_flux.Server.Ledger.{
  IsLedger, AreLedgers, requests, get_or-IsLedger, set-AreLedgers, report_items-AreLedgers,
}
use modern_flux.Frame.Ledgers.{
  HasLedgers, AllLedgers, AllLedgers-grow, init-AllLedgers, insert-AllLedgers, lookup_or-HasLedgers,
}

-- A new entry without reports changes nothing.
pub emplace-IsLedger :
    (bound : ℕ) (procid : Bytes) (t : TimeItem)
    → IsLedger bound t
    → IsLedger bound (record t { mapidnum = emplace procid no_data t.mapidnum })
emplace-IsLedger bound procid t l = record {
  retired = l.retired;
  balanced = old_slot procid l.retired t l.balanced;
  below = omega (arith, emplace-sum_by procid t.mapidnum, l.below);
}

read_slot-IsLedger :
    (bound nowkey : ℕ) (procid : Bytes) (t : TimeItem) (h : History)
    → IsLedger bound t
    → IsLedger bound (read_slot nowkey procid t h).0
unfolding read_slot
read_slot-IsLedger bound nowkey procid t h l = elim (Bool-cases (is_past nowkey t)) [
  | inl on ↦ rw on (emplace-IsLedger bound procid t l)
  | inr off ↦ rw off l
]

read_slots-AreLedgers :
    (bound rounds beindex nowkey : ℕ) (procid : Bytes) (slots : List TimeItem) (h : History)
    → AreLedgers bound slots
    → AreLedgers bound (read_slots rounds beindex nowkey procid slots h).0
unfolding read_slots
read_slots-AreLedgers bound zero beindex nowkey procid slots h l = l
read_slots-AreLedgers bound (suc k) beindex nowkey procid slots h l =
    let t = get_or slots beindex empty_item in
    let r = read_slot nowkey procid t h in
    read_slots-AreLedgers bound k ((beindex + 6 - 1) % 6) nowkey procid (set slots beindex r.0) r.1
      (set-AreLedgers bound beindex r.0 slots l
        (read_slot-IsLedger bound nowkey procid t h (get_or-IsLedger bound beindex slots l)))

allocate_key-HasLedgers :
    (bound : ℕ) (c : Context) (ip procid : Bytes) (q : ℕ) (d : QData)
    → HasLedgers bound d
    → HasLedgers bound (allocate_key c ip procid q d).1
unfolding allocate_key
allocate_key-HasLedgers bound c ip procid q d l =
    let key = get_time_key c.now in
    let later = read_slots-AreLedgers bound 6 key.1 key.0 procid d.titem no_history l in
    elim (Bool-cases (valid_id d.mapalloq ip procid c.now).0) [
      | inl on ↦ rw on later
      | inr off ↦ rw off l
    ]

serve_key-AllLedgers :
    (bound : ℕ) (c : Context) (info : QExtInfo) (req : QuotaReq) (q : ℕ) (key : Bytes) (s : Server)
    → bound + requests req.reportitem < 2 ^ 31
    → AllLedgers bound s.s_map_quota
    → AllLedgers (bound + requests req.reportitem) (serve_key c info req q key s).1.s_map_quota
unfolding serve_key count_workers
serve_key-AllLedgers bound c info req q key s fits h =
    let more : ℕ = bound + requests req.reportitem in
    let procid = proc_id info req in
    let cfg = get_set_cfg_first (get_set_key req.setkey info.remoteip s) s in
    let acts = init_key_qua_alloc c.junk key s.s_map_quota in
    let kept = init-AllLedgers bound c.junk key s.s_map_quota h in
    let qdata = lookup_or key (init_qdata 0) acts in
    let before : Books = record {
      act = qdata.titem;
      group = elim cfg [ none ↦ none | some g ↦ some g.timesum ];
      procs = init_key_qua_alloc c.junk procid s.s_map_proc_quota;
    } in
    let reported =
      report_items-AreLedgers c.junk bound procid req.reportitem before fits
        (lookup_or-HasLedgers bound 0 key acts kept) in
    let d : QData = record qdata {
      titem = (report_items c.junk procid req.reportitem before).act;
      mapalloq = clean_report_id c.time info.remoteip qdata.mapalloq;
    } in
    insert-AllLedgers more key _ acts
      (allocate_key-HasLedgers more c info.remoteip procid q d reported)
      (AllLedgers-grow bound more acts (omega arith) kept)

-- The access to the second server leaves the keys alone.
access_second-quota :
    (net : SetQuotaReq → Option SetQuotaRsp) (group : ℤ) (now : ℕ) (setkey : Bytes)
    (cfg : SetCfgFirst) (s : Server)
    → (access_second net group now setkey cfg s).s_map_quota ≡ s.s_map_quota
unfolding access_second
access_second-quota net group now setkey cfg s =
    let asked : SetCfgFirst = record cfg { updatetime = now } in
    let procs = touch_procs s.s_setproc s.s_map_proc_quota in
    elim (Bool-cases (may_ask now s.s_setproc cfg)) [
      | inl on ↦ elim (Option-cases (net (set_request group setkey asked procs s.s_setproc))) [
        | inl lost ↦ rw (on, lost) refl
        | inr (rsp, back) ↦ rw (on, back) refl
      ]
      | inr off ↦ rw off refl
    ]

access_if-quota :
    (net : SetQuotaReq → Option SetQuotaRsp) (group : ℤ) (now : ℕ) (setkey : Bytes)
    (cfg : Option SetCfgFirst) (s : Server)
    → let t : Server = elim cfg [ none ↦ s | some g ↦ access_second net group now setkey g s ] in
      t.s_map_quota ≡ s.s_map_quota
access_if-quota net group now setkey none s = refl
access_if-quota net group now setkey (some cfg) s = access_second-quota net group now setkey cfg s

-- GetQueryQuota keeps the slots of every key balanced, and adds at most the requests that are
-- reported to a slot.
pub get_query_quota-AllLedgers :
    (bound : ℕ) (net : SetQuotaReq → Option SetQuotaRsp) (c : Context) (info : QExtInfo)
    (req : QuotaReq) (flux : Option Flux) (s : Server)
    → bound + requests req.reportitem < 2 ^ 31
    → AllLedgers bound s.s_map_quota
    → AllLedgers
        (bound + requests req.reportitem)
        (get_query_quota net c info req flux s).1.s_map_quota
unfolding get_query_quota
get_query_quota-AllLedgers bound net c info req flux s fits h =
    let more : ℕ = bound + requests req.reportitem in
    let q = act_quota flux req in
    let key = act_key req in
    let setkey = get_set_key req.setkey info.remoteip s in
    let on = ltb 0 q && ltb 0 (length key) in
    let served : Server = (if on then serve_key c info req q key s else (no_result, s)).1 in
    let kept : AllLedgers more served.s_map_quota = elim (Bool-cases on) [
      | inl yes_eq ↦ rw yes_eq (serve_key-AllLedgers bound c info req q key s fits h)
      | inr no_eq ↦ rw no_eq (AllLedgers-grow bound more s.s_map_quota (omega arith) h)
    ] in
    subst (AllLedgers more)
      (sym (access_if-quota net c.group c.now setkey (get_set_cfg_first setkey served) served)) kept
