-- ===== src/SetServer.antt =====
-- The second quota server: ProSETQuota of QuaServer/ServiceQua.cpp, without its logging and the
-- reports over UDP, which `s_report_shutdown` switches off.
pub mod Ledger
use modern_flux.Base.{
  ℕ, zero, suc, ◌+◌, ◌-◌, ◌*◌, ◌%◌, Bool, true, false, ◌&&◌, Option, none, some, List, [], ◌∷◌,
  ◌++◌, ltb, leb, if◌then◌else◌, length, get_or, set,
}
use modern_flux.Base.Int.{ℤ, pos, pos_part, ltb_ℤ, positive, ◌+ℤ◌, ◌/ℤ◌}
use modern_flux.Base.Word.{i32, u32}
use modern_flux.Base.Bytes.{Bytes}
use modern_flux.Base.Dict.{Dict, lookup, insert, emplace, lookup_or}
use modern_flux.Message.{ReportItem, ProcReport, SetQuotaReq, ProcQ, SetQuotaRsp}
use modern_flux.Text.{underscore, get_report_ip, make_procid}
use modern_flux.Quota.Times.{get_time_key, num_per_min}
use modern_flux.Quota.Slot.{TimeItem, empty_item, no_data, account}
use modern_flux.Quota.Peer.{clean_report_id, valid_id}
use modern_flux.Quota.Record.{
  QData, QDataMap, init_qdata, init_key_qua_alloc, get_proc_q, get_set_real_num, get_aver_q,
}
use modern_flux.Server.{SetCfgFirst}
use modern_flux.Server.Alloc.{is_past, quota_alloc_min}

pub record SetServer : Type 0 where
  pub s_map_setprocdata : QDataMap
  pub s_map_setsumdata : QDataMap
  pub map_set_cfg_first : Dict SetCfgFirst

-- A report of `reportid` into the slots; one for a time before its slot is dropped.
unfoldable pub enter_item : Bytes → ReportItem → List TimeItem → List TimeItem
unfolding get_time_key
enter_item reportid item slots =
    let timekey = (get_time_key (pos_part item.timekey)).0 in
    let index = (get_time_key (pos_part item.timekey)).1 in
    let titem = get_or slots index empty_item in
    if (positive item.timekey && positive item.reportnum) && leb titem.timekey timekey
    then set slots index (account true reportid item timekey titem)
    else slots

unfoldable pub enter_items : Bytes → List ReportItem → List TimeItem → List TimeItem
unfolding enter_item
enter_items reportid [] slots = slots
enter_items reportid (item ∷ items) slots =
    enter_items reportid items (enter_item reportid item slots)

-- The history of a process: its old slots that have a sum, backwards from `beindex`.
unfoldable pub proc_history : ℕ → ℕ → ℕ → List TimeItem → ℤ → ℕ → ℤ × ℕ
proc_history zero beindex nowkey slots historyvalid validnum = (historyvalid, validnum)
proc_history (suc l) beindex nowkey slots historyvalid validnum =
    let t = get_or slots beindex empty_item in
    let counts = is_past nowkey t && positive t.sum in
    proc_history l ((beindex + num_per_min - 1) % num_per_min) nowkey slots
      (if counts then i32 (historyvalid +ℤ t.sum) else historyvalid)
      (if counts then suc validnum else validnum)

-- The requests per second of a history, or 0.
unfoldable pub per_second : ℤ × ℕ → ℕ
per_second (history, validnum) =
    if leb 1 validnum && ltb_ℤ quota_alloc_min history
    then u32 (history /ℤ pos (10 * validnum))
    else 0

-- PROCQ
pub record ProcValid : Type 0 where
  pub procid : Bytes
  pub procvalid : ℕ
  pub setkey : Bytes

-- The requests of a process that is known long enough; `none` for an id without an address.
unfoldable pub value_proc : ℕ → ProcReport → QData → Option ProcValid × QData
unfolding valid_id
value_proc now p d = elim (get_report_ip p.procid) [
  | none ↦ (none, d)
  | some ip ↦
      let v = valid_id d.mapalloq ip p.procid now in
      let n =
        per_second (proc_history 6 (get_time_key now).1 (get_time_key now).0 d.titem (pos 0) 0) in
      (
        some (record { procid = p.procid; procvalid = if v.0 then n else 0; setkey = p.setkey }),
        record d { mapalloq = v.1; updatetime = now },
      )
]

-- CleanReportId for the address, which is empty where the id has none.
unfoldable pub clean_proc : ℕ → Bytes → QData → QData
clean_proc time procid d =
    let ip : Bytes = elim (get_report_ip procid) [ none ↦ [] | some a ↦ a ] in
    record d { mapalloq = clean_report_id time ip d.mapalloq }

-- One ProcReport of the request.
unfoldable pub serve_proc : ℕ → ℕ → ℕ → Bytes → ProcReport → QDataMap → List ProcValid × QDataMap
unfolding value_proc clean_proc
serve_proc now time junk firstid p procs =
    let m = init_key_qua_alloc junk p.procid procs in
    let d = lookup_or p.procid (init_qdata 0) m in
    let r =
      value_proc now p
        (record d { titem = enter_items (p.procid ++ underscore ++ firstid) p.proclist d.titem }) in
    if ltb 0 (length p.procid)
    then (
      elim r.0 [ none ↦ [] | some q ↦ q ∷ [] ],
      insert p.procid (clean_proc time p.procid r.1) m,
    )
    else ([], procs)

unfoldable pub serve_procs :
    ℕ → ℕ → ℕ → Bytes → List ProcReport → QDataMap → List ProcValid × QDataMap
unfolding serve_proc
serve_procs now time junk firstid [] procs = ([], procs)
serve_procs now time junk firstid (p ∷ ps) procs =
    let one = serve_proc now time junk firstid p procs in
    let rest = serve_procs now time junk firstid ps one.1 in (one.0 ++ rest.0, rest.1)

-- The sums over the old slots of a set in which the first server has counted.
pub record SetHistory : Type 0 where
  pub valid : ℤ
  pub refuse : ℤ
  pub setrefuse : ℤ
  pub validnum : ℕ

unfoldable pub set_history :
    ℕ → ℕ → ℕ → Bytes → List TimeItem → SetHistory → List TimeItem × SetHistory
set_history zero beindex nowkey firstid slots h = (slots, h)
set_history (suc l) beindex nowkey firstid slots h =
    let t = get_or slots beindex empty_item in
    let m = emplace firstid no_data t.mapidnum in
    let counts = is_past nowkey t && positive (lookup_or firstid no_data m).sum in
    set_history l ((beindex + num_per_min - 1) % num_per_min) nowkey firstid
      (if is_past nowkey t then set slots beindex (record t { mapidnum = m }) else slots)
      (if counts
        then record {
          valid = i32 (h.valid +ℤ t.sum);
          refuse = i32 (h.refuse +ℤ t.refuse);
          setrefuse = i32 (h.setrefuse +ℤ t.setrefuse);
          validnum = suc h.validnum;
        }
        else h)

-- The numbers per second that a set keeps where it has enough history.
unfoldable pub value_set : Option SetCfgFirst → SetHistory → QData → QData
value_set cfg h d =
    let historytotal = i32 (h.valid +ℤ h.refuse) in
    let n = pos (10 * h.validnum) in
    if leb 1 h.validnum && ltb_ℤ quota_alloc_min historytotal
    then record d {
      setfirstvalid = true;
      setnowsum = u32 (historytotal /ℤ n);
      setrefuse = u32 (h.setrefuse /ℤ n);
      setvalid = u32 (h.valid /ℤ n);
      setquota = elim cfg [ none ↦ d.setquota | some g ↦ u32 g.setquota ];
    }
    else d

-- The part of the handler for the set.
unfoldable pub serve_set : ℕ → Bytes → Bytes → Option SetCfgFirst → SetQuotaReq → QData → QData
unfolding valid_id value_set
serve_set now firstip firstid cfg req d0 =
    let slots = enter_items firstid req.itemlist d0.titem in
    let v = valid_id d0.mapalloq firstip firstid now in
    let h =
      set_history 6 (get_time_key now).1 (get_time_key now).0 firstid slots
        (record { valid = pos 0; refuse = pos 0; setrefuse = pos 0; validnum = 0 }) in
    let d : QData = record d0 {
      titem = if v.0 then h.0 else slots;
      mapalloq = v.1;
      updatetime = now;
      workernum = if positive req.workernum then u32 req.workernum else d0.workernum;
      setfirstvalid = false;
    } in
    if v.0 then value_set cfg h.1 d else d

-- The quota of a process of a set that is known: its share, or the average where that is 0.
unfoldable pub proc_quota : ProcValid → QData → ProcQ
proc_quota p d =
    let quota = get_proc_q d (i32 (pos p.procvalid)) in
    record { procid = p.procid; procquota = if positive quota then quota else get_aver_q d }

unfoldable pub proc_answers : List ProcValid → QDataMap → List ProcQ
unfolding proc_quota
proc_answers [] sets = []
proc_answers (p ∷ ps) sets =
    let rest = proc_answers ps sets in
    elim (lookup p.setkey sets) [
      | none ↦ rest
      | some d ↦ if ltb 0 (length p.setkey) then proc_quota p d ∷ rest else rest
    ]

-- ProSETQuota: `time` is `time(NULL)`, and `junk` what a new QDATA holds in `updatetime`.
unfoldable pub pro_set_quota : ℕ → ℕ → ℕ → SetQuotaReq → Bytes → SetServer → SetQuotaRsp × SetServer
unfolding serve_procs serve_set proc_answers
pro_set_quota now time junk req firstip s =
    let firstid = make_procid firstip (if positive req.id then u32 req.id else 0) in
    let r = serve_procs now time junk firstid req.procitem s.s_map_setprocdata in
    let given = ltb 0 (length req.setkey) in
    let m = init_key_qua_alloc junk req.setkey s.s_map_setsumdata in
    let d =
      serve_set now firstip firstid (lookup req.setkey s.map_set_cfg_first) req
        (lookup_or req.setkey (init_qdata 0) m) in
    let sets = if given then insert req.setkey d m else s.s_map_setsumdata in
    (
      record {
        setkey = req.setkey;
        setsum = if given then get_set_real_num d else pos 0;
        procq = proc_answers r.0 sets;
      },
      record s { s_map_setprocdata = r.1; s_map_setsumdata = sets },
    )
