-- ===== src/Server/Second.antt =====
-- The access of the first server to the second (QuaServer/ServiceQua.cpp, in GetQueryQuota): once a
-- second for each set, the set's sums and those of its processes are sent, and the answer assigns
-- quotas to the processes.
use modern_flux.Base.{
  ℕ, Bool, ◌&&◌, ◌||◌, Option, none, some, List, [], ◌∷◌, map, ltb, ◌==◌, if◌then◌else◌, length,
}
use modern_flux.Base.Int.{ℤ, pos, positive}
use modern_flux.Base.Word.{i32, u32}
use modern_flux.Base.Bytes.{Bytes, eq_bytes}
use modern_flux.Base.Dict.{insert, lookup_or}
use modern_flux.Message.{ReportItem, ProcReport, SetQuotaReq, ProcQ, SetQuotaRsp}
use modern_flux.Text.{get_report_ip}
use modern_flux.Quota.Slot.{TimeItem}
use modern_flux.Quota.Peer.{IdMap, id_info, set_id_info, valid_id}
use modern_flux.Quota.Record.{QDataMap, init_qdata, init_key_qua_alloc}
use modern_flux.Server.{SetCfgFirst, SetProc, Server}

unfoldable pub to_report : TimeItem → ReportItem
to_report t = record {
  timekey = pos t.timekey;
  reportnum = t.sum;
  refuse = t.refuse;
  setrefuse = t.setrefuse;
}

-- The entries of the processes to report on are made where they are missing.
unfoldable pub touch_procs : List SetProc → QDataMap → QDataMap
unfolding init_key_qua_alloc
touch_procs [] procs = procs
touch_procs (p ∷ ps) procs = touch_procs ps (init_key_qua_alloc 0 p.procid procs)

unfoldable pub proc_reports : QDataMap → List SetProc → List ProcReport
unfolding to_report
proc_reports procs [] = []
proc_reports procs (p ∷ ps) =
    record {
      procid = p.procid;
      proclist = map to_report (lookup_or p.procid (init_qdata 0) procs).titem;
      setkey = p.setkey;
    }
    ∷ proc_reports procs ps

-- `group` is `g_proxy_port * 1000 + GetGroupId()`.
unfoldable pub set_request : ℤ → Bytes → SetCfgFirst → QDataMap → List SetProc → SetQuotaReq
unfolding proc_reports to_report
set_request group setkey cfg procs ps = record {
  setkey = setkey;
  itemlist = map to_report cfg.timesum;
  workernum = i32 (pos cfg.workernum);
  id = group;
  procitem = proc_reports procs ps;
}

-- The quota of a process that is known long enough is stored with its host.
unfoldable pub assign_quota : ℕ → Bytes → Bytes → ℤ → IdMap → IdMap
unfolding valid_id
assign_quota now ip procid quota m =
    let r = valid_id m ip procid now in
    if r.0
    then set_id_info ip procid (record (id_info ip procid r.1) { aquota = u32 quota }) r.1
    else r.1

-- One ProcQ of the answer.
unfoldable pub apply_procq : ℕ → ProcQ → QDataMap → QDataMap
unfolding assign_quota init_key_qua_alloc
apply_procq now p procs =
    let m = init_key_qua_alloc 0 p.procid procs in
    let d = lookup_or p.procid (init_qdata 0) m in
    if ltb 0 (length p.procid) && positive p.procquota
    then elim (get_report_ip p.procid) [
      | none ↦ m
      | some ip ↦
          insert p.procid
            (record d { mapalloq = assign_quota now ip p.procid p.procquota d.mapalloq }) m
    ]
    else procs

unfoldable pub apply_procqs : ℕ → List ProcQ → QDataMap → QDataMap
unfolding apply_procq
apply_procqs now [] procs = procs
apply_procqs now (p ∷ ps) procs = apply_procqs now ps (apply_procq now p procs)

-- It is time to ask, and no other request is asking for this set.
unfoldable pub may_ask : ℕ → List SetProc → SetCfgFirst → Bool
may_ask now ps cfg = (ltb cfg.updatetime now || ltb 30 (length ps)) && (0 == cfg.lock)

-- What the answer changes in the set.
unfoldable pub set_sum : Bytes → SetQuotaRsp → SetCfgFirst → SetCfgFirst
set_sum setkey rsp cfg =
    if eq_bytes rsp.setkey setkey && positive rsp.setsum
    then record cfg { setsum = rsp.setsum }
    else cfg

-- The access for the set `cfg` of `setkey`. `net` packs and sends a request, waits and parses the
-- answer; `none` is a failure. No other request runs in between.
unfoldable pub access_second :
    (SetQuotaReq → Option SetQuotaRsp) → ℤ → ℕ → Bytes → SetCfgFirst → Server → Server
unfolding may_ask set_request touch_procs apply_procqs set_sum
access_second net group now setkey cfg s =
    let asked = record cfg { updatetime = now } in
    let procs = touch_procs s.s_setproc s.s_map_proc_quota in
    if may_ask now s.s_setproc cfg
    then elim (net (set_request group setkey asked procs s.s_setproc)) [
      | none ↦ record s {
        s_map_proc_quota = procs;
        s_setproc = [];
        map_set_cfg_first = insert setkey (record asked { lock = 0 }) s.map_set_cfg_first;
      }
      | some rsp ↦ record s {
        s_map_proc_quota =
            if eq_bytes rsp.setkey setkey then apply_procqs now rsp.procq procs else procs;
        s_setproc = [];
        map_set_cfg_first =
            insert setkey (record (set_sum setkey rsp asked) { lock = 0 }) s.map_set_cfg_first;
      }
    ]
    else s
