-- ===== src/Frame/Ledgers/Second.antt =====
-- ProSETQuota keeps the slots of all sets and of all processes balanced.
use modern_flux.Base.{
  ℕ, zero, suc, ◌+◌, ◌-◌, ◌%◌, ◌^◌, ◌<◌, ◌≡◌, refl, Bool, true, false, Option, List, [], ◌∷◌, arith,
  get_or, ◌++◌, ltb, length, if◌then◌else◌, Bool-cases, Option-cases, inl, inr,
}
use modern_flux.Base.Int.{positive}
use modern_flux.Base.Word.{u32}
use modern_flux.Base.Bytes.{Bytes}
use modern_flux.Base.Dict.{lookup, lookup_or}
use modern_flux.Message.{ProcReport, SetQuotaReq}
use modern_flux.Text.{get_report_ip, make_procid, underscore}
use modern_flux.Quota.Slot.{TimeItem, empty_item}
use modern_flux.Quota.Peer.{valid_id}
use modern_flux.Quota.Times.{get_time_key}
use modern_flux.Quota.Record.{QData, QDataMap, init_qdata, init_key_qua_alloc}
use modern_flux.Server.{SetCfgFirst}
use modern_flux.Server.Alloc.{is_past}
use modern_flux.SetServer.{
  SetServer, SetHistory, enter_items, value_proc, clean_proc, serve_proc, serve_procs, set_history,
  value_set, serve_set, pro_set_quota,
}
use modern_flux.SetServer.Ledger.{enter_items-AreLedgers}
use modern_flux.Server.Ledger.{
  AreLedgers, requests, AreLedgers-grow, get_or-IsLedger, set-AreLedgers,
}
use modern_flux.Frame.Ledgers.{
  HasLedgers, AllLedgers, AllLedgers-grow, init-AllLedgers, insert-AllLedgers, lookup_or-HasLedgers,
}
use modern_flux.Frame.Ledgers.First.{emplace-IsLedger}

if-AreLedgers :
    (bound : ℕ) (b : Bool) (x y : List TimeItem)
    → AreLedgers bound x
    → AreLedgers bound y
    → AreLedgers bound (if b then x else y)
if-AreLedgers bound true x y p q = p
if-AreLedgers bound false x y p q = q

set_history-AreLedgers :
    (bound rounds beindex nowkey : ℕ) (firstid : Bytes) (slots : List TimeItem) (h : SetHistory)
    → AreLedgers bound slots
    → AreLedgers bound (set_history rounds beindex nowkey firstid slots h).0
unfolding set_history
set_history-AreLedgers bound zero beindex nowkey firstid slots h l = l
set_history-AreLedgers bound (suc k) beindex nowkey firstid slots h l =
    let t = get_or slots beindex empty_item in
    let one = emplace-IsLedger bound firstid t (get_or-IsLedger bound beindex slots l) in
    set_history-AreLedgers bound k ((beindex + 6 - 1) % 6) nowkey firstid _ _ (
      if-AreLedgers bound (is_past nowkey t) _ slots (set-AreLedgers bound beindex _ slots l one) l)

value_proc-titem : (now : ℕ) (p : ProcReport) (d : QData) → (value_proc now p d).1.titem ≡ d.titem
unfolding value_proc
value_proc-titem now p d = elim (Option-cases (get_report_ip p.procid)) [
  | inl none_eq ↦ rw (none_eq, value_proc) refl
  | inr (ip, some_eq) ↦ rw (some_eq, value_proc) refl
]

serve_proc-AllLedgers :
    (bound now time junk : ℕ) (firstid : Bytes) (p : ProcReport) (procs : QDataMap)
    → bound + requests p.proclist < 2 ^ 31
    → AllLedgers bound procs
    → AllLedgers (bound + requests p.proclist) (serve_proc now time junk firstid p procs).1
unfolding serve_proc clean_proc
serve_proc-AllLedgers bound now time junk firstid p procs fits h =
    let more : ℕ = bound + requests p.proclist in
    let m = init_key_qua_alloc junk p.procid procs in
    let kept = init-AllLedgers bound junk p.procid procs h in
    let d = lookup_or p.procid (init_qdata 0) m in
    let slots = enter_items (p.procid ++ underscore ++ firstid) p.proclist d.titem in
    let entered =
      enter_items-AreLedgers bound (p.procid ++ underscore ++ firstid) p.proclist d.titem fits
        (lookup_or-HasLedgers bound 0 p.procid m kept) in
    let valued : AreLedgers more (value_proc now p (record d { titem = slots })).1.titem =
      rw (value_proc-titem now p (record d { titem = slots })) entered in
    elim (Bool-cases (ltb 0 (length p.procid))) [
      | inl named ↦ rw named (
          insert-AllLedgers more p.procid _ m valued
            (AllLedgers-grow bound more m (omega arith) kept))
      | inr empty ↦ rw empty (AllLedgers-grow bound more procs (omega arith) h)
    ]

-- The requests that a list of reports of processes counts.
abbrev pub proc_requests : List ProcReport → ℕ
proc_requests [] = 0
proc_requests (p ∷ ps) = requests p.proclist + proc_requests ps

serve_procs-AllLedgers :
    (bound now time junk : ℕ) (firstid : Bytes) (ps : List ProcReport) (procs : QDataMap)
    → bound + proc_requests ps < 2 ^ 31
    → AllLedgers bound procs
    → AllLedgers (bound + proc_requests ps) (serve_procs now time junk firstid ps procs).1
unfolding serve_procs
serve_procs-AllLedgers bound now time junk firstid [] procs fits h =
    AllLedgers-grow bound (bound + 0) procs (omega arith) h
serve_procs-AllLedgers bound now time junk firstid (p ∷ ps) procs fits h =
    let n : ℕ = requests p.proclist in
    let one = serve_proc-AllLedgers bound now time junk firstid p procs (omega arith) h in
    let next = (serve_proc now time junk firstid p procs).1 in
    let rest = serve_procs-AllLedgers (bound + n) now time junk firstid ps next (omega arith) one in
    AllLedgers-grow (bound + n + proc_requests ps) (bound + (n + proc_requests ps)) _ (omega arith)
      rest

value_set-titem :
    (cfg : Option SetCfgFirst) (h : SetHistory) (d : QData) → (value_set cfg h d).titem ≡ d.titem
unfolding value_set
value_set-titem cfg h d = ground arith

value_if-HasLedgers :
    (bound : ℕ) (b : Bool) (cfg : Option SetCfgFirst) (h : SetHistory) (d : QData)
    → HasLedgers bound d
    → HasLedgers bound (if b then value_set cfg h d else d)
value_if-HasLedgers bound true cfg h d l = rw (value_set-titem cfg h d) l
value_if-HasLedgers bound false cfg h d l = l

serve_set-HasLedgers :
    (bound now : ℕ) (firstip firstid : Bytes) (cfg : Option SetCfgFirst) (req : SetQuotaReq)
    (d : QData)
    → bound + requests req.itemlist < 2 ^ 31
    → HasLedgers bound d
    → HasLedgers (bound + requests req.itemlist) (serve_set now firstip firstid cfg req d)
unfolding serve_set
serve_set-HasLedgers bound now firstip firstid cfg req d fits h =
    let more : ℕ = bound + requests req.itemlist in
    let slots = enter_items firstid req.itemlist d.titem in
    let entered = enter_items-AreLedgers bound firstid req.itemlist d.titem fits h in
    let key = get_time_key now in
    let read = set_history-AreLedgers more 6 key.1 key.0 firstid slots _ entered in
    let known = (valid_id d.mapalloq firstip firstid now).0 in
    value_if-HasLedgers more known cfg _ _ (if-AreLedgers more known _ slots read entered)

-- ProSETQuota keeps the slots of all sets and of all processes balanced, and adds at most the
-- requests that are reported to a slot.
pub pro_set_quota-AllLedgers :
    (bound now time junk : ℕ) (req : SetQuotaReq) (firstip : Bytes) (s : SetServer)
    → bound + requests req.itemlist + proc_requests req.procitem < 2 ^ 31
    → AllLedgers bound s.s_map_setprocdata
    → AllLedgers bound s.s_map_setsumdata
    → let t = (pro_set_quota now time junk req firstip s).1 in
      let more = bound + requests req.itemlist + proc_requests req.procitem in
      AllLedgers more t.s_map_setprocdata × AllLedgers more t.s_map_setsumdata
unfolding pro_set_quota
pro_set_quota-AllLedgers bound now time junk req firstip s fits procs sums =
    let more : ℕ = bound + requests req.itemlist + proc_requests req.procitem in
    let firstid = make_procid firstip (if positive req.id then u32 req.id else 0) in
    let served =
      serve_procs-AllLedgers bound now time junk firstid req.procitem s.s_map_setprocdata
        (omega arith) procs in
    let m = init_key_qua_alloc junk req.setkey s.s_map_setsumdata in
    let kept = init-AllLedgers bound junk req.setkey s.s_map_setsumdata sums in
    let d = lookup_or req.setkey (init_qdata 0) m in
    let set_done =
      serve_set-HasLedgers bound now firstip firstid (lookup req.setkey s.map_set_cfg_first) req d
        (omega arith) (lookup_or-HasLedgers bound 0 req.setkey m kept) in
    (
      AllLedgers-grow (bound + proc_requests req.procitem) more _ (omega arith) served,
      elim (Bool-cases (ltb 0 (length req.setkey))) [
        | inl given ↦ rw given (
            insert-AllLedgers more req.setkey _ m (AreLedgers-grow _ more _ set_done (omega arith))
              (AllLedgers-grow bound more m (omega arith) kept))
        | inr empty ↦ rw empty (AllLedgers-grow bound more s.s_map_setsumdata (omega arith) sums)
      ],
    )
