-- ===== src/Server/Query.antt =====
-- The handler GetQueryQuota of QuaServer/ServiceQua.cpp. Its logging and the reports over UDP, which
-- `s_report_shutdown` switches off, are left out.
use modern_flux.Base.{
  ℕ, Bool, false, ◌&&◌, Option, none, some, List, [], ltb, if◌then◌else◌, length, get_or,
}
use modern_flux.Base.Int.{ℤ, pos, positive}
use modern_flux.Base.Word.{i32, u32}
use modern_flux.Base.Bytes.{Bytes}
use modern_flux.Base.Dict.{Dict, lookup, insert, lookup_or}
use modern_flux.Message.{QuotaReq, QuotaRsp, SetQuotaReq, SetQuotaRsp}
use modern_flux.Params.{Flux}
use modern_flux.Text.{make_procid}
use modern_flux.Quota.Times.{get_time_key}
use modern_flux.Quota.Slot.{TimeItem, empty_item}
use modern_flux.Quota.Peer.{
  id_info, set_id_info, clean_report_id, valid_id, add_worker_item, get_worker_num, get_last_quota,
}
use modern_flux.Quota.Record.{QData, init_qdata, init_key_qua_alloc}
use modern_flux.Server.{SetCfgFirst, Server, insert_proc, get_set_key, get_set_cfg_first}
use modern_flux.Server.Books.{report_items}
use modern_flux.Server.Alloc.{no_history, Alloc, no_alloc, read_slots, allocate, startup}
use modern_flux.Server.Second.{access_second}

pub record QExtInfo : Type 0 where
  pub remoteip : Bytes
  pub uptime : ℕ

-- The readings of one call: the framework's clock, `time(NULL)`, what new objects hold in
-- `updatetime`, and the group of this process.
pub record Context : Type 0 where
  pub now : ℕ
  pub time : ℕ
  pub junk : ℕ
  pub group : ℤ

-- What the part for the key computes beside the state.
pub record Result : Type 0 where
  pub alloc : Alloc
  pub quotavalid : Bool
  pub partnernum : ℕ
  pub totalworkernum : ℤ
  pub ipnum : ℕ

abbrev pub no_result : Result
no_result = record {
  alloc = no_alloc;
  quotavalid = false;
  partnernum = 0;
  totalworkernum = pos 0;
  ipnum = 0;
}

unfoldable pub act_quota : Option Flux → QuotaReq → ℕ
act_quota (some flux) req = flux.queryquota
act_quota none req = if positive req.totalquota then u32 req.totalquota else 0

unfoldable pub act_key : QuotaReq → Bytes
act_key req = if ltb 0 (length req.key) then req.key else req.referkey

unfoldable pub proc_id : QExtInfo → QuotaReq → Bytes
unfolding make_procid
proc_id info req = make_procid info.remoteip (if positive req.id then u32 req.id else 0)

-- The part of a key's data that the allocation reads and writes: ValidID, the history and the share.
unfoldable pub allocate_key : Context → Bytes → Bytes → ℕ → QData → Result × QData
unfolding valid_id allocate
allocate_key c ip procid actquota d =
    let nowkey = (get_time_key c.now).0 in
    let nowindex = (get_time_key c.now).1 in
    let v = valid_id d.mapalloq ip procid c.now in
    let r = read_slots 6 nowindex nowkey procid d.titem no_history in
    let titem = if v.0 then r.0 else d.titem in
    let a =
      if v.0 then allocate actquota (get_or titem nowindex empty_item).timekey r.1 else no_alloc in
    (
      record no_result { alloc = a; quotavalid = v.0 },
      record d {
        titem = titem;
        mapalloq = set_id_info ip procid (record (id_info ip procid v.1) { aquota = a.aquota }) v.1;
      },
    )

-- The end of that part: the workers of the host, the heartbeat and the numbers for the answer.
unfoldable pub count_workers : Context → Bytes → ℤ → Result × QData → Result × QData
count_workers c ip hostworkernum (r, d) =
    let workers = add_worker_item ip hostworkernum c.now d.mapworker in
    (
      record r {
        partnernum = length d.mapalloq;
        totalworkernum = get_worker_num c.time workers (pos 0);
        ipnum = length workers;
      },
      record d { mapworker = workers; updatetime = c.now },
    )

unfoldable pub host_workers : QuotaReq → ℤ
host_workers req = if positive req.workernum then i32 req.workernum else pos 0

-- The slots and the number of workers of the set.
unfoldable pub store_set : Bytes → Option (List TimeItem) → ℤ → Dict SetCfgFirst → Dict SetCfgFirst
store_set setkey slots workers m = elim slots [
  | none ↦ m
  | some ts ↦ elim (lookup setkey m) [
    | none ↦ m
    | some cfg ↦ insert setkey (record cfg { timesum = ts; workernum = u32 workers }) m
  ]
]

-- The part of the handler for a quota and a key that are given.
unfoldable pub serve_key : Context → QExtInfo → QuotaReq → ℕ → Bytes → Server → Result × Server
unfolding allocate_key count_workers store_set report_items
serve_key c info req actquota actkey s =
    let procid = proc_id info req in
    let setkey = get_set_key req.setkey info.remoteip s in
    let cfg = get_set_cfg_first setkey s in
    let acts = init_key_qua_alloc c.junk actkey s.s_map_quota in
    let qdata = lookup_or actkey (init_qdata 0) acts in
    let books = report_items c.junk procid req.reportitem (record {
      act = qdata.titem;
      group = elim cfg [ none ↦ none | some g ↦ some g.timesum ];
      procs = init_key_qua_alloc c.junk procid s.s_map_proc_quota;
    }) in
    let procdata = lookup_or procid (init_qdata 0) books.procs in
    let r = count_workers c info.remoteip (host_workers req) (
      allocate_key c info.remoteip procid actquota (record qdata {
        titem = books.act;
        mapalloq = clean_report_id c.time info.remoteip qdata.mapalloq;
      })) in
    (
      r.0,
      record s {
        s_map_quota = insert actkey r.1 acts;
        s_map_proc_quota =
            insert procid
              (record procdata {
                mapalloq = clean_report_id c.time info.remoteip procdata.mapalloq;
                updatetime = c.now;
              })
              books.procs;
        s_setproc =
            if ltb 0 (length setkey)
            then insert_proc (record { procid = procid; setkey = setkey }) s.s_setproc
            else s.s_setproc;
        map_set_cfg_first = store_set setkey books.group r.0.totalworkernum s.map_set_cfg_first;
      },
    )

-- The answer, from what was computed and from the state at the end.
unfoldable pub response :
    QExtInfo → QuotaReq → ℕ → Bytes → Bytes → Result → Alloc → Server → QuotaRsp
response info req actquota key procid r a s =
    let cfg = get_set_cfg_first (get_set_key req.setkey info.remoteip s) s in
    let mapalloq = (lookup_or procid (init_qdata 0) s.s_map_proc_quota).mapalloq in
    record {
      key = key;
      localq = pos a.aquota;
      totalq = pos actquota;
      partnernum = i32 (pos r.partnernum);
      serial = req.serial;
      ipnum = i32 (pos r.ipnum);
      alloctype = a.alloctype;
      allocpartnum = a.allocpartnum;
      alloctime = pos a.alloctime;
      self = a.self;
      total = a.total;
      nowsum = if positive req.nowsum then req.nowsum else pos 0;
      totalworkernum = r.totalworkernum;
      setquota = elim cfg [
        | none ↦ pos 0
        | some g ↦ if positive g.setquota then g.setquota else pos 0
      ];
      setsum = elim cfg [
        | none ↦ pos 0
        | some g ↦ if positive g.setsum then i32 g.setsum else pos 0
      ];
      procquota =
          if r.quotavalid then i32 (pos (get_last_quota mapalloq info.remoteip procid)) else pos 0;
    }

-- GetQueryQuota; `net` is the exchange with the second server.
unfoldable pub get_query_quota :
    (SetQuotaReq → Option SetQuotaRsp)
    → Context
    → QExtInfo
    → QuotaReq
    → Option Flux
    → Server
    → QuotaRsp × Server
unfolding serve_key response act_quota
get_query_quota net c info req flux s =
    let procid = proc_id info req in
    let setkey = get_set_key req.setkey info.remoteip s in
    let actquota = act_quota flux req in
    let served = ltb 0 actquota && ltb 0 (length (act_key req)) in
    let r = if served then serve_key c info req actquota (act_key req) s else (no_result, s) in
    let a = startup c.now info.uptime r.0.alloc in
    let s2 : Server = elim (get_set_cfg_first setkey r.1) [
      | none ↦ r.1
      | some cfg ↦ access_second net c.group c.now setkey cfg r.1
    ] in
    let s3 : Server = record s2 {
      s_map_proc_quota = init_key_qua_alloc c.junk procid s2.s_map_proc_quota;
    } in
    (response info req actquota (if served then act_key req else []) procid r.0 a s3, s3)
